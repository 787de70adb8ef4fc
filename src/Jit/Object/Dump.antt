-- ===== src/Jit/Object/Dump.antt =====
-- native/bap_jit.cpp: `bap_jit_memory_dump` gives each byte of a memory that isn't 0.
use bap.Common.{
  ℕ, zero, suc, ◌+◌, ◌-◌, ◌*◌, ◌%◌, ◌<◌, ◌≡◌, refl, ◌==◌, leb, ltb, if◌then◌else◌, true, ◌&&◌, List,
  [], ◌∷◌, ◌++◌, arith, length, ap, ◌∙◌, inl, inr, Bool-cases, none, some, sym, length-append,
}
use bap.Common.Word.{u64}
use bap.Paged.Table.{Page, page_size, page_base, word_size}
use bap.Paged.Memory.{Memory, byte}
use bap.Paged.Word.{all_zero, read_bytes}
use bap.Paged.Word.Bytes.{all_zero-get_or, get_or-read_bytes}
use bap.Paged.WriteAll.Pairs.{last_value}
use bap.Paged.Pages.{pages}
use bap.Paged.Pages.Order.{IsAscending, page_at, page_at_outside}
use bap.Paged.Pages.Visit.{pages-IsAscending, page_at-pages}
use bap.Paged.Pages.Bases.{AreBases, pages-AreBases}
use bap.Jit.Object.{dump_bytes, dump_words, dump_pages, dump, count_bytes, size_pages, size}

last_value-append :
    (xs ys : List (ℕ × ℕ)) (x before : ℕ)
    → last_value (xs ++ ys) x before ≡ last_value ys x (last_value xs x before)
last_value-append [] ys x before = refl
last_value-append ((a, v) ∷ xs) ys x before =
    last_value-append xs ys x (if a == x then v else before)

-- What bytes that aren't 0 leave at an address where there was `before`.
abbrev over : ℕ → ℕ → ℕ
over before v = if v == 0 then before else v

dump_bytes-last_value :
    (page : Page) (offset n at x before : ℕ)
    → last_value (dump_bytes (read_bytes page offset n) at) x before
      ≡ (if leb at x && ltb x (at + n) then over before (page (offset + (x - at))) else before)
unfolding dump_bytes
dump_bytes-last_value page offset zero at x before = ground arith
dump_bytes-last_value page offset (suc n) at x before = ground (
  arith,
  dump_bytes-last_value page (offset + 1) n (at + 1) x before,
  dump_bytes-last_value page (offset + 1) n (at + 1) x (page offset),
)

zero_word-over :
    (page : Page) (offset n i : ℕ)
    → all_zero (read_bytes page offset n) ≡ true
    → i < n
    → page (offset + i) ≡ 0
zero_word-over page offset n i z h =
    sym (get_or-read_bytes page offset n i h) ∙ all_zero-get_or (read_bytes page offset n) i z

dump_word-last_value :
    (page : Page) (address offset x before : ℕ)
    → last_value
        (if all_zero (read_bytes page offset word_size)
          then []
          else dump_bytes (read_bytes page offset word_size) (address + offset))
        x
        before
      ≡ (if leb (address + offset) x && ltb x (address + offset + 8)
          then over before (page (x - address))
          else before)
dump_word-last_value page address offset x before =
    elim (Bool-cases (all_zero (read_bytes page offset word_size))) [
      | inl z ↦
          rw z (ground (arith, zero_word-over page offset word_size (x - (address + offset)) z))
      | inr z ↦
          rw z (
            ground (arith, dump_bytes-last_value page offset word_size (address + offset) x before))
    ]

dump_words-last_value :
    (page : Page) (address count offset x before : ℕ)
    → last_value (dump_words page address count offset) x before ≡ (
        if leb (address + offset) x && ltb x (address + offset + count * 8)
        then over before (page (x - address))
        else before)
unfolding dump_words
dump_words-last_value page address zero offset x before = ground arith
dump_words-last_value page address (suc count) offset x before =
    let word =
      if all_zero (read_bytes page offset word_size)
      then []
      else dump_bytes (read_bytes page offset word_size) (address + offset) in
    last_value-append word (dump_words page address count (offset + word_size)) x before
    ∙ dump_words-last_value page address count (offset + word_size) x (last_value word x before)
    ∙ ground (arith, dump_word-last_value page address offset x before)

dump_pages-last_value :
    (low : ℕ) (xs : List (ℕ × Page)) (x before : ℕ)
    → AreBases xs
    → IsAscending low u64 xs
    → last_value (dump_pages xs) x before
      ≡ elim (page_at xs (page_base x)) [ none ↦ before | some p ↦ over before (p (x % page_size)) ]
unfolding dump_pages
dump_pages-last_value low [] x before hb ha = refl
dump_pages-last_value low ((address, page) ∷ xs) x before hb ha =
    last_value-append (dump_words page address 512 0) (dump_pages xs) x before
    ∙ dump_pages-last_value (suc address) xs x (last_value (dump_words page address 512 0) x before)
        hb.1 ha.1
    ∙ ground (
      arith,
      dump_words-last_value page address 512 0 x before,
      page_at_outside (suc address) u64 xs (page_base x) ha.1,
      ap page {x = x - address} {y = x % page_size},
    )

-- The value of the dump at an address, 0 where it has none, is the byte of the memory there.
pub dump-last_value : (m : Memory) (x : ℕ) → x < u64 → last_value (dump m) x 0 ≡ byte m x
unfolding dump byte
dump-last_value m x hx =
    dump_pages-last_value 0 (pages m) x 0 (pages-AreBases m) (pages-IsAscending m)
    ∙ ground (arith, page_at-pages m x hx)

dump_bytes-length :
    (page : Page) (offset n at : ℕ)
    → length (dump_bytes (read_bytes page offset n) at) ≡ count_bytes page n offset
unfolding dump_bytes count_bytes
dump_bytes-length page offset zero at = refl
dump_bytes-length page offset (suc n) at =
    ground (arith, dump_bytes-length page (offset + 1) n (at + 1))

zero_word-count :
    (page : Page) (offset n : ℕ)
    → all_zero (read_bytes page offset n) ≡ true
    → count_bytes page n offset ≡ 0
unfolding all_zero count_bytes
zero_word-count page offset zero z = refl
zero_word-count page offset (suc n) z = ground (arith, zero_word-count page (offset + 1) n)

count_bytes-add :
    (page : Page) (n k offset : ℕ)
    → count_bytes page (n + k) offset ≡ count_bytes page n offset + count_bytes page k (offset + n)
unfolding count_bytes
count_bytes-add page zero k offset = omega (
  arith,
  ap (λ j. count_bytes page j offset) {x = 0 + k} {y = k} (omega arith),
  ap (count_bytes page k) {x = offset + 0} {y = offset} (omega arith),
)
count_bytes-add page (suc n) k offset =
    ap (λ j. count_bytes page j offset) {x = suc n + k} {y = suc (n + k)} (omega arith)
    ∙ omega (
      arith,
      count_bytes-add page n k (offset + 1),
      ap (count_bytes page k) {x = offset + 1 + n} {y = offset + suc n} (omega arith),
    )

dump_words-length :
    (page : Page) (address count offset : ℕ)
    → length (dump_words page address count offset) ≡ count_bytes page (count * 8) offset
unfolding dump_words
dump_words-length page address zero offset = unfold count_bytes in refl
dump_words-length page address (suc count) offset =
    let word : List (ℕ × ℕ) =
      if all_zero (read_bytes page offset word_size)
      then []
      else dump_bytes (read_bytes page offset word_size) (address + offset) in
    let short : length word ≡ count_bytes page 8 offset = ground (
      arith,
      zero_word-count page offset word_size,
      dump_bytes-length page offset word_size (address + offset),
    ) in
    length-append word (dump_words page address count (offset + word_size))
    ∙ omega (
      arith,
      short,
      dump_words-length page address count (offset + word_size),
      count_bytes-add page 8 (count * 8) offset,
      ap (λ j. count_bytes page j offset) {x = suc count * 8} {y = 8 + count * 8} (omega arith),
    )

dump_pages-length : (xs : List (ℕ × Page)) → length (dump_pages xs) ≡ size_pages xs
unfolding dump_pages size_pages
dump_pages-length [] = refl
dump_pages-length ((address, page) ∷ xs) =
    length-append (dump_words page address 512 0) (dump_pages xs)
    ∙ omega (arith, dump_words-length page address 512 0, dump_pages-length xs)

-- `bap_jit_memory_size` is how many bytes `bap_jit_memory_dump` gives.
pub length-dump : (m : Memory) → length (dump m) ≡ size m
unfolding dump size
length-dump m = dump_pages-length (pages m)
