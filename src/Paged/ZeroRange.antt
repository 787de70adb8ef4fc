-- ===== src/Paged/ZeroRange.antt =====
-- native/paged_memory.h: `zeroRange`.
pub mod InPage
pub mod Range
use bap.Common.{
  ℕ, zero, suc, ◌+◌, ◌-◌, ◌/◌, ◌%◌, ◌^◌, List, [], ◌∷◌, ◌==◌, ltb, leb, if◌then◌else◌, take, drop,
  min, Bool, ◌||◌, Option, none, some,
}
use bap.Paged.Memory.{Memory, find, page_number}
use bap.Paged.Table.{Page, page_size, page_base}
use bap.Paged.Word.{word_offset, load_word, all_zero, store_in_word}
use bap.Paged.Step.{note_step}
use bap.Paged.Pages.{pages}

abbrev pub zeros : ℕ → List ℕ
zeros zero = []
zeros (suc count) = 0 ∷ zeros count

-- `wordEnd`, `at | (wordSize - 1)`.
abbrev pub word_end : ℕ → ℕ
word_end at = at - word_offset at + 7

-- What a round does to the bytes of a word from `at` on: only those that aren't zeros already are stored and noted.
unfoldable pub zero_word : Memory → ℕ → ℕ → Memory
zero_word m at count =
    if all_zero (take count (drop (word_offset at) (load_word m at)))
    then m
    else note_step (store_in_word m at (zeros count)) at count

-- The loop of `zeroInPage` over the words from `at` to `upper`.
unfoldable pub zero_words : ℕ → Memory → ℕ → ℕ → Memory
zero_words zero m at upper = m
zero_words (suc fuel) m at upper =
    let end = min (word_end at) upper in
    let next = zero_word m at (end - at + 1) in
    let rest = zero_words fuel next (end + 1) upper in if end == upper then next else rest

-- The words of a page.
abbrev pub page_words : ℕ
page_words = 512

-- `zeroInPage`, of the range from `first` to `last` in the page at `base`.
unfoldable pub zero_in_page : ℕ → ℕ → Memory → ℕ → Memory
zero_in_page first last m base =
    let lower = if ltb base first then first else base in
    let upper = if ltb last (base + (page_size - 1)) then last else base + (page_size - 1) in
    if ltb last base || ltb (base + (page_size - 1)) first
    then m
    else zero_words page_words m lower upper

-- The loop over the pages from that at `base` on.
unfoldable pub zero_by_page : ℕ → ℕ → ℕ → Memory → ℕ → Memory
zero_by_page zero first last m base = m
zero_by_page (suc fuel) first last m base =
    let next : Memory = elim (find m base) [ none ↦ m | some p ↦ zero_in_page first last m base ] in
    let rest = zero_by_page fuel first last next (base + page_size) in
    if leb (page_base last) base then next else rest

-- The calls of `zeroInPage` that `forEachPage` makes.
unfoldable pub zero_pages : ℕ → ℕ → Memory → List (ℕ × Page) → Memory
zero_pages first last m [] = m
zero_pages first last m ((base, page) ∷ rest) =
    zero_pages first last (zero_in_page first last m base) rest

-- `zeroRange`.
unfoldable pub zero_range : Memory → ℕ → ℕ → Memory
zero_range m first last =
    if ltb last first
    then m
    else if ltb (page_number last - page_number first) (2 ^ 16)
    then zero_by_page (page_number last - page_number first + 1) first last m (page_base first)
    else zero_pages first last m (pages m)
