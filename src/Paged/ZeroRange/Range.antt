-- ===== src/Paged/ZeroRange/Range.antt =====
-- What `zeroRange` does to the bytes of a memory, and what an open step knows of it.
use bap.Common.{
  ℕ, zero, suc, ◌+◌, ◌-◌, ◌%◌, ◌^◌, ◌<◌, ◌≤◌, ◌≡◌, refl, List, [], ◌∷◌, leb, ltb, if◌then◌else◌,
  ◌&&◌, arith, ◌∙◌, Bool-cases, inl, inr, Option, some, none, Option-cases,
}
use bap.Common.Word.{u64}
use bap.Paged.Memory.{Memory, byte, page_number, find, find_congr}
use bap.Paged.Table.{page_size, page_base, Page}
use bap.Paged.Step.Log.{IsTracked}
use bap.Paged.Pages.{pages}
use bap.Paged.Pages.Order.{IsAscending, page_at, IsAscending-le}
use bap.Paged.Pages.Visit.{pages-IsAscending, page_at-pages}
use bap.Paged.Pages.Bases.{pages-AreBases, AreBases}
use bap.Paged.ZeroRange.{zero_in_page, zero_by_page, zero_pages, zero_range}
use bap.Paged.ZeroRange.InPage.{zero_in_page-byte, zero_in_page-IsTracked}

module _ (first last : ℕ) (hl : last < u64) (h : first ≤ last) where
  -- What a page that isn't there holds is zeros already.
  byte-absent :
      (m : Memory) (base x : ℕ)
      → base < u64
      → x < u64
      → find m base ≡ none
      → page_number x ≡ page_number base
      → byte m x ≡ 0
  unfolding byte
  byte-absent m base x hb hx e same = ground (arith, e, find_congr m base x hb hx)

  zero_by_page-byte :
      (fuel : ℕ) (m : Memory) (base x : ℕ)
      → base % page_size ≡ 0
      → base ≤ page_base last
      → x < u64
      → page_number last - page_number base < fuel
      → byte (zero_by_page fuel first last m base) x
        ≡ (if leb base x && leb first x && leb x last then 0 else byte m x)
  unfolding zero_by_page
  zero_by_page-byte zero m base x ha hb hx hf = absurd (omega arith)
  zero_by_page-byte (suc fuel) m base x ha hb hx hf = elim (Option-cases (find m base)) [
    | inl e ↦ ground (arith, e, byte-absent m base x, zero_by_page-byte fuel m (base + page_size) x)
    | inr (p, e) ↦ ground (
      arith,
      e,
      zero_in_page-byte first last hl m base x,
      zero_by_page-byte fuel (zero_in_page first last m base) (base + page_size) x,
    )
  ]

  zero_pages-byte :
      (m : Memory) (low : ℕ) (xs : List (ℕ × Page)) (x : ℕ)
      → AreBases xs
      → IsAscending low u64 xs
      → x < u64
      → byte (zero_pages first last m xs) x ≡ elim (page_at xs (page_base x)) [
        | none ↦ byte m x
        | some p ↦ if leb first x && leb x last then 0 else byte m x
      ]
  unfolding zero_pages
  zero_pages-byte m low [] x hb ha hx = refl
  zero_pages-byte m low ((base, p) ∷ xs) x hb ha hx = ground (
    arith,
    IsAscending-le (suc base) u64 xs ha.1,
    zero_pages-byte (zero_in_page first last m base) (suc base) xs x hb.1 ha.1 hx,
    zero_in_page-byte first last hl m base x,
  )

  zero_by_page-IsTracked :
      (start : Memory) (fuel : ℕ) (m : Memory) (base : ℕ)
      → base % page_size ≡ 0
      → base ≤ page_base last
      → IsTracked start m
      → IsTracked start (zero_by_page fuel first last m base)
  unfolding zero_by_page
  zero_by_page-IsTracked start zero m base ha hb t = t
  zero_by_page-IsTracked start (suc fuel) m base ha hb t =
      elim (Bool-cases (leb (page_base last) base)) [
        | inl e ↦ rw e (next (find m base))
        | inr e ↦ rw e (
            zero_by_page-IsTracked start fuel _ (base + page_size) (omega arith) (ground arith)
              (next (find m base)))
      ]
    where
      next :
          (p : Option Page)
          → IsTracked start (elim p [ none ↦ m | some q ↦ zero_in_page first last m base ])
      next none = t
      next (some q) = zero_in_page-IsTracked first last hl start m base (omega arith) ha h t

  zero_pages-IsTracked :
      (start m : Memory) (low : ℕ) (xs : List (ℕ × Page))
      → AreBases xs
      → IsAscending low u64 xs
      → IsTracked start m
      → IsTracked start (zero_pages first last m xs)
  unfolding zero_pages
  zero_pages-IsTracked start m low [] hb ha t = t
  zero_pages-IsTracked start m low ((base, p) ∷ xs) hb ha t =
      zero_pages-IsTracked start (zero_in_page first last m base) (suc base) xs hb.1 ha.1 (
        zero_in_page-IsTracked first last hl start m base
          (omega (arith, IsAscending-le (suc base) u64 xs ha.1)) hb.0 h t)

  zero_all_pages-byte :
      (m : Memory) (x : ℕ)
      → x < u64
      → byte (zero_pages first last m (pages m)) x
        ≡ (if leb first x && leb x last then 0 else byte m x)
  zero_all_pages-byte m x hx = elim (Option-cases (page_at (pages m) (page_base x))) [
    | inl e ↦ ground (
      arith,
      e,
      page_at-pages m x hx,
      byte-absent m x x hx hx,
      zero_pages-byte m 0 (pages m) x (pages-AreBases m) (pages-IsAscending m) hx,
    )
    | inr (p, e) ↦
        ground
          (arith, e, zero_pages-byte m 0 (pages m) x (pages-AreBases m) (pages-IsAscending m) hx)
  ]

-- After `zeroRange`, what lies from `first` to `last`, both included, is zeros, and every other byte is as it was; nothing is zeroed where
-- the last is before the first. It is so whether it goes by the page or through all the pages that there are.
pub byte-zero_range :
    (m : Memory) (first last x : ℕ)
    → last < u64
    → x < u64
    → byte (zero_range m first last) x ≡ (if leb first x && leb x last then 0 else byte m x)
unfolding zero_range
byte-zero_range m first last x hl hx = elim (Bool-cases (ltb last first)) [
  | inl e ↦ ground arith
  | inr e ↦ elim (Bool-cases (ltb (page_number last - page_number first) (2 ^ 16))) [
    | inl n ↦
        rw (e, n)
          (zero_by_page-byte first last hl (ground arith) _ m (page_base first) x (omega arith)
              (ground arith) hx (omega arith)
            ∙ ground arith)
    | inr n ↦ rw (e, n) (zero_all_pages-byte first last hl (ground arith) m x hx)
  ]
]

-- `zeroRange` keeps an open step from losing writes.
pub zero_range-IsTracked :
    (start m : Memory) (first last : ℕ)
    → last < u64
    → IsTracked start m
    → IsTracked start (zero_range m first last)
unfolding zero_range
zero_range-IsTracked start m first last hl t = elim (Bool-cases (ltb last first)) [
  | inl e ↦ rw e t
  | inr e ↦ elim (Bool-cases (ltb (page_number last - page_number first) (2 ^ 16))) [
    | inl n ↦
        rw (e, n)
          (zero_by_page-IsTracked first last hl (ground arith) start _ m (page_base first)
            (omega arith) (ground arith) t)
    | inr n ↦
        rw (e, n)
          (zero_pages-IsTracked first last hl (ground arith) start m 0 (pages m) (pages-AreBases m)
            (pages-IsAscending m) t)
  ]
]
