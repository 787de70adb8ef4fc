-- ===== src/Paged/Pages/Visit.antt =====
-- native/paged_memory.h: `forEachPage` goes through each page that there is, once, and through no other.
use native.Mathlib.Nat.{zero-add}
use bap.Common.{
  ℕ, zero, suc, ◌+◌, ◌*◌, ◌<◌, ◌≡◌, [], none, some, arith, ◌∙◌, ap, inl, inr, Option-cases,
  Bool-cases, sym, ◌==◌, ◌%◌, if◌then◌else◌, refl, false, List, ◌∷◌,
}
use bap.Common.Word.{u64}
use bap.Paged.Table
use bap.Paged.Table.{page_base, Table, Page, page_size, fanout, index_at}
use bap.Paged.Memory.{Memory, levels, find}
use bap.Paged.Pages.{stride, visit, pages}
use bap.Paged.Pages.Bases.{AreBases, pages-AreBases}
use bap.Paged.Pages.Order.{
  IsAscending, page_at, stride-suc, page_at-entries, entry_IsAscending, visit-IsAscending,
}

-- Where the page of an address is from the start of a table with `n` levels.
abbrev offset_in : ℕ → ℕ → ℕ
offset_in zero x = 0
offset_in (suc n) x = index_at x n * stride n + offset_in n x

scaled_lt : (i s f o : ℕ) → i < f → o < s → i * s + o < s * f
scaled_lt i s f o h k = grind arith

index_at-lt : (x n : ℕ) → index_at x n < fanout
unfolding index_at
index_at-lt x n = omega arith

offset_in-lt : (n x : ℕ) → offset_in n x < stride n
offset_in-lt zero x = unfold stride in omega arith
offset_in-lt (suc n) x = rw (stride-suc n) (
    scaled_lt (index_at x n) (stride n) fanout (offset_in n x) (index_at-lt x n) (offset_in-lt n x))

entry-page_at :
    (n : ℕ) (t : Table (suc n)) (prefix x : ℕ)
    → ((child : Table n) (base : ℕ)
        → page_at (visit n child base) (base + offset_in n x) ≡ Table.find n child x)
    → page_at
        (elim (t (index_at x n)) [
          | none ↦ []
          | some child ↦ visit n child (prefix + index_at x n * stride n)
        ])
        (prefix + offset_in (suc n) x)
      ≡ Table.find (suc n) t x
unfolding Table.find
entry-page_at n t prefix x h = elim (Option-cases (t (index_at x n))) [
  | inl e ↦ rw (e, Table.find)
  | inr (child, e) ↦
      rw (e, Table.find)
        (ap (page_at (visit n child (prefix + index_at x n * stride n)))
            {x = prefix + offset_in (suc n) x}
            {y = prefix + index_at x n * stride n + offset_in n x} (omega arith)
          ∙ h child (prefix + index_at x n * stride n))
]

page_at-visit :
    (n : ℕ) (t : Table n) (prefix x : ℕ)
    → page_at (visit n t prefix) (prefix + offset_in n x) ≡ Table.find n t x
unfolding visit
page_at-visit zero t prefix x = unfold Table.find in ground arith
page_at-visit (suc n) t prefix x =
    page_at-entries prefix (stride n) _ (entry_IsAscending n (visit-IsAscending n) t prefix) fanout
      0 (index_at x n) (prefix + offset_in (suc n) x) (omega arith) (omega (arith, index_at-lt x n))
      (omega arith) (grind (arith, offset_in-lt n x))
    ∙ entry-page_at n t prefix x (λ child base. page_at-visit n child base x)

offset_in-levels : (x : ℕ) → x < u64 → offset_in levels x ≡ page_base x
unfolding stride index_at
offset_in-levels x h = omega arith

pub pages-IsAscending : (m : Memory) → IsAscending 0 u64 (pages m)
unfolding pages
pages-IsAscending m = unfold stride in visit-IsAscending levels m.root 0

pub page_at-pages : (m : Memory) (x : ℕ) → x < u64 → page_at (pages m) (page_base x) ≡ find m x
unfolding pages find
page_at-pages m x hx =
    rw (← offset_in-levels x hx, ← zero-add (offset_in levels x)) (page_at-visit levels m.root 0 x)

-- Where no page starts, no page is gone through.
page_at-AreBases :
    (xs : List (ℕ × Page)) (x : ℕ)
    → AreBases xs
    → (x % page_size == 0) ≡ false
    → page_at xs x ≡ none
page_at-AreBases [] x h k = refl
page_at-AreBases ((base, page) ∷ xs) x h k = ground (arith, h.0, page_at-AreBases xs x h.1 k)

-- `forEachPage` calls with addresses of 64 bits that ascend, each once: with each where a page starts that there is, and the page that is
-- found there, and with no other address.
pub pages_lem :
    (m : Memory)
    → IsAscending 0 u64 (pages m)
      × ((x : ℕ) → x < u64 → page_at (pages m) x ≡ (if x % page_size == 0 then find m x else none))
pages_lem m = (
  pages-IsAscending m,
  λ x hx. elim (Bool-cases (x % page_size == 0)) [
    | inl e ↦
        let start : page_base x ≡ x = ground arith in
        rw e (ap (page_at (pages m)) (sym start) ∙ page_at-pages m x hx)
    | inr e ↦ rw e (page_at-AreBases (pages m) x (pages-AreBases m) e)
  ],
)
