-- ===== src/Paged/ZeroRange/InPage.antt =====
-- What `zeroInPage` does to the bytes of a memory.
use bap.Common.{
  ℕ, zero, suc, ◌+◌, ◌-◌, ◌%◌, ◌/◌, ◌<◌, ◌≤◌, ◌≡◌, refl, ◌==◌, leb, ltb, if◌then◌else◌, length,
  take, drop, get_or, true, ◌||◌, ◌&&◌, arith, ap, Bool-cases, inl, inr, min,
}
use bap.Common.Word.{u64}
use bap.Paged.Memory.{Memory, byte, page_number}
use bap.Paged.Table.{page_size, word_size}
use bap.Paged.Word.{word_offset, all_zero, store_in_word, load_word}
use bap.Paged.Word.Bytes.{byte-store_in_word}
use bap.Paged.Access.{bytes_from}
use bap.Paged.Access.Load.{load_word-byte}
use bap.Paged.Step.Log.{byte-note_step, IsTracked}
use bap.Paged.WriteAll.Pairs.{store_in_word-IsTracked}
use bap.Paged.ZeroRange.{zeros, word_end, zero_word, zero_words, zero_in_page, page_words}

length-zeros : (n : ℕ) → length (zeros n) ≡ n
length-zeros zero = refl
length-zeros (suc n) = ap suc (length-zeros n)

get_or-zeros : (n i : ℕ) → get_or (zeros n) i 0 ≡ 0
get_or-zeros zero i = refl
get_or-zeros (suc n) zero = refl
get_or-zeros (suc n) (suc i) = get_or-zeros n i

all_zero-bytes_from :
    (m : Memory) (at i n x : ℕ)
    → all_zero (bytes_from m at i n) ≡ true
    → at + i ≤ x
    → x < at + i + n
    → at + i + n ≤ u64
    → byte m x ≡ 0
unfolding all_zero
all_zero-bytes_from m at i zero x h lo hi hu = absurd (omega arith)
all_zero-bytes_from m at i (suc n) x h lo hi hu =
    ground (arith, all_zero-bytes_from m at (i + 1) n x)

zero_word-byte :
    (m : Memory) (at count x : ℕ)
    → at < u64
    → x < u64
    → word_offset at + count ≤ word_size
    → byte (zero_word m at count) x ≡ (if leb at x && ltb x (at + count) then 0 else byte m x)
unfolding zero_word
zero_word-byte m at count x ha hx h = ground (
  arith,
  load_word-byte m at ha count h,
  all_zero-bytes_from m at 0 count x,
  byte-note_step (store_in_word m at (zeros count)) at count x,
  byte-store_in_word m at (zeros count) x ha hx,
  length-zeros count,
  get_or-zeros count (x - at),
)

zero_word-IsTracked :
    (start m : Memory) (at count : ℕ)
    → at < u64
    → word_offset at + count ≤ word_size
    → IsTracked start m
    → IsTracked start (zero_word m at count)
unfolding zero_word
zero_word-IsTracked start m at count ha h t =
    elim (Bool-cases (all_zero (take count (drop (word_offset at) (load_word m at))))) [
      | inl e ↦ rw e t
      | inr e ↦ rw e (
          store_in_word-IsTracked start m at count (zeros count) ha
            (omega (arith, length-zeros count)) h t)
    ]

module _ (upper : ℕ) (hu : upper < u64) where
  zero_words-byte :
      (fuel : ℕ) (m : Memory) (at x : ℕ)
      → x < u64
      → at ≤ upper
      → upper / word_size - at / word_size < fuel
      → byte (zero_words fuel m at upper) x ≡ (if leb at x && leb x upper then 0 else byte m x)
  unfolding zero_words
  zero_words-byte zero m at x hx hl hf = absurd (omega arith)
  zero_words-byte (suc fuel) m at x hx hl hf =
      let end = min (word_end at) upper in
      ground (
        arith,
        zero_word-byte m at (end - at + 1) x,
        zero_words-byte fuel (zero_word m at (end - at + 1)) (end + 1) x hx,
      )

  zero_words-IsTracked :
      (start : Memory) (fuel : ℕ) (m : Memory) (at : ℕ)
      → at ≤ upper
      → IsTracked start m
      → IsTracked start (zero_words fuel m at upper)
  unfolding zero_words
  zero_words-IsTracked start zero m at hl t = t
  zero_words-IsTracked start (suc fuel) m at hl t =
      let end = min (word_end at) upper in
      let next = zero_word-IsTracked start m at (end - at + 1) (omega arith) (omega arith) t in
      elim (Bool-cases (end == upper)) [
        | inl e ↦ rw e next
        | inr e ↦ rw e (
            zero_words-IsTracked start fuel (zero_word m at (end - at + 1)) (end + 1) (ground arith)
              next)
      ]

module _ (first last : ℕ) (hl : last < u64) where
  -- Of the page at `base`, what lies from `first` to `last` is zeros after `zeroInPage`, and all else is as it was.
  pub zero_in_page-byte :
      (m : Memory) (base x : ℕ)
      → base < u64
      → base % page_size ≡ 0
      → x < u64
      → first ≤ last
      → byte (zero_in_page first last m base) x
        ≡ (if page_number x == page_number base && leb first x && leb x last then 0 else byte m x)
  unfolding zero_in_page
  zero_in_page-byte m base x hb ha hx h =
      let lower = if ltb base first then first else base in
      let upper = if ltb last (base + (page_size - 1)) then last else base + (page_size - 1) in
      ground (arith, zero_words-byte upper (ground arith) page_words m lower x hx)

  pub zero_in_page-IsTracked :
      (start m : Memory) (base : ℕ)
      → base < u64
      → base % page_size ≡ 0
      → first ≤ last
      → IsTracked start m
      → IsTracked start (zero_in_page first last m base)
  unfolding zero_in_page
  zero_in_page-IsTracked start m base hb ha h t =
      let lower = if ltb base first then first else base in
      let upper = if ltb last (base + (page_size - 1)) then last else base + (page_size - 1) in
      elim (Bool-cases (ltb last base || ltb (base + (page_size - 1)) first)) [
        | inl e ↦ rw e t
        | inr e ↦
            rw e
              (zero_words-IsTracked upper (ground arith) start page_words m lower (ground arith) t)
      ]
