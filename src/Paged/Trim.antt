-- ===== src/Paged/Trim.antt =====
-- native/paged_memory.h: `trim`. What `madvise` does to a page and the size of the host's pages are parameters.
use bap.Common.{
  ℕ, zero, suc, ◌+◌, ◌-◌, ◌%◌, ◌<◌, ◌≤◌, ◌≡◌, refl, List, [], ◌∷◌, ◌==◌, ltb, if◌then◌else◌, Bool,
  true, not, ◌&&◌, ◌||◌, some, arith, ◌∙◌, ap, Option-cases, inl, inr, ◌*◌, ne→==, eq→==, sym, ◌≢◌,
}
use bap.Common.Word.{u64, add64}
use bap.Paged.Table.{Page, page_size, word_size, page_base}
use bap.Paged.Memory.{Memory, byte, find, write_page, page_number, find-write_page, find_congr}
use bap.Paged.Word.{read_bytes, all_zero}
use bap.Paged.Word.Bytes.{get_or-read_bytes, all_zero-get_or}
use bap.Paged.Copy.{page_words}
use bap.Paged.Pages.{pages}
use bap.Paged.Pages.Order.{IsAscending, page_at, IsAscending-le, page_at_outside}
use bap.Paged.Pages.Visit.{pages-IsAscending, page_at-pages}
use bap.Paged.Pages.Bases.{pages-AreBases, AreBases}

-- Whether `count` words of a page from `offset` on are 0.
unfoldable pub words_zero : Page → ℕ → ℕ → Bool
words_zero p zero offset = true
words_zero p (suc count) offset =
    all_zero (read_bytes p offset word_size) && words_zero p count (offset + word_size)

-- `madvise` with `MADV_DONTNEED`, as what a page reads afterwards.
module _ (advise : Page → Page) where
  -- What `trim` does at a page that there is.
  unfoldable pub trim_page : ℕ → ℕ → Memory → ℕ → Page → Memory
  trim_page start last m address page =
      if ltb address start
        || (ltb last (add64 address (page_size - 1)) || ltb (add64 address (page_size - 1)) address)
      then m
      else if words_zero page page_words 0
      then write_page m address advise
      else m

  unfoldable pub trim_pages : ℕ → ℕ → Memory → List (ℕ × Page) → Memory
  trim_pages start last m [] = m
  trim_pages start last m ((address, page) ∷ rest) =
      trim_pages start last (trim_page start last m address page) rest

  -- `trim`, as it is on Linux, with `sysconf(_SC_PAGESIZE)` given.
  unfoldable pub trim : ℕ → Memory → ℕ → ℕ → Memory
  trim host_page_size m first last =
      let start = page_base (add64 first (page_size - 1)) in
      if not (host_page_size == page_size) || ltb last first
      then m
      else if ltb start first
      then m
      else trim_pages start last m (pages m)

words_zero-byte :
    (p : Page) (count offset i : ℕ)
    → words_zero p count offset ≡ true
    → offset ≤ i
    → i < offset + count * 8
    → p i ≡ 0
unfolding words_zero
words_zero-byte p zero offset i h lo hi = absurd (omega arith)
words_zero-byte p (suc count) offset i h lo hi = ground (
  arith,
  words_zero-byte p count (offset + word_size) i,
  get_or-read_bytes p offset word_size (i - offset),
  all_zero-get_or (read_bytes p offset word_size) (i - offset),
)

page_at-AreBases :
    (xs : List (ℕ × Page)) (a : ℕ) (p : Page)
    → AreBases xs
    → page_at xs a ≡ some p
    → a % page_size ≡ 0
page_at-AreBases [] a p h e = absurd (cc)
page_at-AreBases ((b, q) ∷ xs) a p h e = ground (arith, page_at-AreBases xs a p h.1)

-- The pages of a list are those that the memory has there.
abbrev Agree : Memory → List (ℕ × Page) → Type 0
Agree m xs = (a : ℕ) (p : Page) → a < u64 → page_at xs a ≡ some p → find m a ≡ some p

module _ (advise : Page → Page) (advise_zero : (p : Page) (i : ℕ) → advise p i ≡ 0)
    (start last : ℕ) where
  trim_page-byte :
      (m : Memory) (a x : ℕ) (p : Page)
      → a < u64
      → x < u64
      → find m a ≡ some p
      → byte (trim_page advise start last m a p) x ≡ byte m x
  unfolding trim_page byte
  trim_page-byte m a x p ha hx e = elim (Option-cases (find m x)) [
    | inl n ↦ ground (arith, n, find-write_page m a x advise ha hx)
    | inr (q, n) ↦ ground (
      arith,
      n,
      e,
      find-write_page m a x advise ha hx,
      find_congr m a x ha hx,
      advise_zero q (x % page_size),
      words_zero-byte p page_words 0 (x % page_size),
    )
  ]

  trim_page-find :
      (m : Memory) (a b : ℕ) (p : Page)
      → a < u64
      → b < u64
      → page_number b ≢ page_number a
      → find (trim_page advise start last m a p) b ≡ find m b
  unfolding trim_page
  trim_page-find m a b p ha hb ne = elim (Option-cases (find m b)) [
    | inl n ↦ ground (arith, n, find-write_page m a b advise ha hb)
    | inr (q, n) ↦ ground (arith, n, find-write_page m a b advise ha hb)
  ]

  trim_pages-byte :
      (m : Memory) (low : ℕ) (xs : List (ℕ × Page)) (x : ℕ)
      → AreBases xs
      → IsAscending low u64 xs
      → Agree m xs
      → x < u64
      → byte (trim_pages advise start last m xs) x ≡ byte m x
  unfolding trim_pages
  trim_pages-byte m low [] x hb ha ag hx = refl
  trim_pages-byte m low ((a, p) ∷ xs) x hb ha ag hx =
      let lt = IsAscending-le (suc a) u64 xs ha.1 in
      trim_pages-byte (trim_page advise start last m a p) (suc a) xs x hb.1 ha.1
        (λ b q hq e.
          let apart = later b q e in
          trim_page-find m a b p lt hq (omega arith) ∙ ag b q hq (rw (ne→== a b (omega arith)) e))
        hx
      ∙ trim_page-byte m a x p lt hx (ag a p lt (rw (eq→== a a refl) refl))
    where
      later : (b : ℕ) (q : Page) → page_at xs b ≡ some q → (suc a ≤ b) × (b % page_size ≡ 0)
      later b q e =
          (ground (arith, page_at_outside (suc a) u64 xs b ha.1), page_at-AreBases xs b q hb.1 e)

pages-Agree : (m : Memory) → Agree m (pages m)
pages-Agree m a p ha e =
    sym (page_at-pages m a ha)
    ∙ ap (page_at (pages m)) {y = a}
        (omega (arith, page_at-AreBases (pages m) a p (pages-AreBases m) e))
    ∙ e

-- `trim` gives pages back to the host and changes no byte of the memory, as the host gives pages of zeros for those that it took.
pub byte-trim :
    (advise : Page → Page) (host_page_size : ℕ) (m : Memory) (first last x : ℕ)
    → ((p : Page) (i : ℕ) → advise p i ≡ 0)
    → x < u64
    → byte (trim advise host_page_size m first last) x ≡ byte m x
unfolding trim
byte-trim advise host_page_size m first last x h hx = ground (
  arith,
  trim_pages-byte advise h (page_base (add64 first (page_size - 1))) last m 0 (pages m) x
      (pages-AreBases m) (pages-IsAscending m) (pages-Agree m) hx,
)
