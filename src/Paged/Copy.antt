-- ===== src/Paged/Copy.antt =====
-- native/paged_memory.h: `copyFrom`, which is what native/bap_jit.cpp clones a memory by.
use bap.Common.{
  ℕ, zero, suc, ◌*◌, ◌+◌, ◌-◌, ◌%◌, ◌<◌, ◌≡◌, refl, List, [], ◌∷◌, ◌==◌, leb, ltb, if◌then◌else◌,
  ◌&&◌, none, some, arith, Option-cases, inl, inr,
}
use bap.Common.Word.{u64}
use bap.Paged.Table
use bap.Paged.Table.{zero_page, Page, page_size, word_size, page_base}
use bap.Paged.Memory.{
  Memory, empty, byte, find, ensure, write_page, page_number, find-ensure, find-write_page,
}
use bap.Paged.Word.{read_bytes, write_bytes}
use bap.Paged.Word.Bytes.{length-read_bytes, get_or-read_bytes}
use bap.Paged.Pages.{pages}
use bap.Paged.Pages.Order.{IsAscending, page_at, IsAscending-le, page_at_outside}
use bap.Paged.Pages.Visit.{pages-IsAscending, page_at-pages}
use bap.Paged.Pages.Bases.{pages-AreBases, AreBases}

-- The loop over the words of a page from `offset` on, `count` of them.
unfoldable pub copy_words : Page → ℕ → ℕ → Page → Page
copy_words from zero offset to = to
copy_words from (suc count) offset to =
    copy_words from count (offset + word_size)
      (write_bytes to offset (read_bytes from offset word_size))

abbrev pub page_words : ℕ
page_words = 512

unfoldable pub copy_pages : Memory → List (ℕ × Page) → Memory
copy_pages m [] = m
copy_pages m ((address, from) ∷ rest) =
    copy_pages (write_page (ensure m address) address (copy_words from page_words 0)) rest

-- `copyFrom`, where nothing stores to the other memory at the time.
unfoldable pub copy_from : Memory → Memory → Memory
copy_from m other = copy_pages m (pages other)

-- `bap_jit_memory_clone`.
unfoldable pub clone : Memory → Memory
clone other = copy_from empty other

copy_words_lem :
    (from to : Page) (count offset i : ℕ)
    → copy_words from count offset to i
      ≡ (if leb offset i && ltb i (offset + count * 8) then from i else to i)
unfolding copy_words write_bytes
copy_words_lem from to zero offset i = ground arith
copy_words_lem from to (suc count) offset i = ground (
  arith,
  copy_words_lem from (write_bytes to offset (read_bytes from offset word_size)) count
      (offset + word_size) i,
  length-read_bytes from offset word_size,
  get_or-read_bytes from offset word_size (i - offset),
)

-- All the bytes of a page.
copy_page_lem :
    (from to : Page) (i : ℕ) → i < page_size → copy_words from page_words 0 to i ≡ from i
copy_page_lem from to i h = ground (arith, copy_words_lem from to page_words 0 i)

module _ (m : Memory) (address x : ℕ) (from : Page) (ha : address < u64) (hx : x < u64) where
  copy_page-byte :
      byte (write_page (ensure m address) address (copy_words from page_words 0)) x
      ≡ (if page_number x == page_number address then from (x % page_size) else byte m x)
  unfolding byte
  copy_page-byte =
      let written =
        find-write_page (ensure m address) address x (copy_words from page_words 0) ha hx in
      elim (Option-cases (find m x)) [
        | inl e ↦ ground (
          arith,
          e,
          written,
          find-ensure m address x ha hx,
          copy_page_lem from zero_page (x % page_size),
        )
        | inr (p, e) ↦
            ground (
              arith,
              e,
              written,
              find-ensure m address x ha hx,
              copy_page_lem from p (x % page_size),
            )
      ]

copy_pages-byte :
    (m : Memory) (low : ℕ) (xs : List (ℕ × Page)) (x : ℕ)
    → AreBases xs
    → IsAscending low u64 xs
    → x < u64
    → byte (copy_pages m xs) x
      ≡ elim (page_at xs (page_base x)) [ none ↦ byte m x | some p ↦ p (x % page_size) ]
unfolding copy_pages
copy_pages-byte m low [] x hb ha hx = refl
copy_pages-byte m low ((base, p) ∷ xs) x hb ha hx = ground (
  arith,
  IsAscending-le (suc base) u64 xs ha.1,
  page_at_outside (suc base) u64 xs (page_base x) ha.1,
  copy_pages-byte (write_page (ensure m base) base (copy_words p page_words 0)) (suc base) xs x hb.1
      ha.1 hx,
  copy_page-byte m base x p,
)

-- After `copyFrom` a memory holds what the other holds on every page that the other has, and what it held itself elsewhere.
pub byte-copy_from :
    (m other : Memory) (x : ℕ)
    → x < u64
    → byte (copy_from m other) x
      ≡ elim (find other x) [ none ↦ byte m x | some p ↦ p (x % page_size) ]
unfolding copy_from
byte-copy_from m other x hx =
    rw (← page_at-pages other x hx)
      (copy_pages-byte m 0 (pages other) x (pages-AreBases other) (pages-IsAscending other) hx)

pub byte-empty : (x : ℕ) → byte empty x ≡ 0
unfolding byte find Table.find
byte-empty x = refl

-- A clone holds what the memory that it is made of holds, at every address.
pub byte-clone : (other : Memory) (x : ℕ) → x < u64 → byte (clone other) x ≡ byte other x
unfolding clone byte
byte-clone other x hx = ground (arith, byte-copy_from empty other x hx, byte-empty x)
