-- ===== src/Jit/StoreLog.antt =====
-- native/bap_jit.cpp: `StoreLog`, the bytes that the stores of a run wrote, each once with the last value.
pub mod Note
use bap.Common.{
  ℕ, zero, suc, ◌+◌, ◌-◌, ◌*◌, ◌%◌, ◌/◌, ◌^◌, ◌<◌, ◌≤◌, List, [], ◌∷◌, ◌==◌, leb, ltb,
  if◌then◌else◌, Bool, true, false, not, ◌&&◌, ◌||◌, Option, none, some,
}
use bap.Common.Word.{u64, add64}

-- A page of the log: the bits of `written`, by the offsets of their bytes, and `values`.
pub record LogPage : Type 0 where
  pub written : ℕ → Bool
  pub values : ℕ → ℕ

-- `pages` by their numbers, and `count`. `lastNumber` and `last` are only where `pageOf` last found one.
pub record StoreLog : Type 0 where
  pub pages : ℕ → Option LogPage
  pub count : ℕ

abbrev pub empty_page : LogPage
empty_page = record { written = λ _. false; values = λ _. 0 }

abbrev pub empty : StoreLog
empty = record { pages = λ _. none; count = 0 }

-- `pageOf`, which makes the page where it isn't there.
abbrev pub page_of : StoreLog → ℕ → LogPage
page_of log number = elim (log.pages number) [ none ↦ empty_page | some page ↦ page ]

abbrev pub set_page : StoreLog → ℕ → LogPage → StoreLog
set_page log number page = record log {
  pages = λ n. if n == number then some page else log.pages n;
}

-- Byte `index` of a value of `size` bytes, as it goes to memory.
unfoldable pub byte_of : ℕ → Bool → ℕ → ℕ → ℕ
byte_of size big_endian value index =
    value / 2 ^ ((if big_endian then size - 1 - index else index) * 8) % 256

-- Whether `offset` is one of the `size` bytes from `start` on: a bit of the mask.
abbrev pub in_mask : ℕ → ℕ → ℕ → Bool
in_mask start size offset = leb start offset && ltb offset (start + size)

-- `__builtin_popcountll(mask & ~word)`: of `size` bits from `start` on, those that are not set.
unfoldable pub unset_bits : (ℕ → Bool) → ℕ → ℕ → ℕ
unset_bits written start zero = 0
unset_bits written start (suc size) =
    (if written start then 0 else 1) + unset_bits written (start + 1) size

-- An access of an instruction: a mask and a copy in one page.
unfoldable pub note_aligned : StoreLog → ℕ → ℕ → Bool → ℕ → StoreLog
note_aligned log address size big_endian value =
    let page = page_of log (address / 4096) in
    let offset = address % 4096 in
    record (set_page log (address / 4096) (record {
      written = λ i. page.written i || in_mask offset size i;
      values = λ i.
          if in_mask offset size i
          then byte_of size big_endian value (i - offset)
          else page.values i;
    })) { count = log.count + unset_bits page.written offset size }

-- One byte of any other access.
unfoldable pub note_byte : StoreLog → ℕ → ℕ → StoreLog
note_byte log at value =
    let page = page_of log (at / 4096) in
    let offset = at % 4096 in
    record (set_page log (at / 4096) (record {
      written = λ i. page.written i || i == offset;
      values = λ i. if i == offset then value else page.values i;
    })) { count = log.count + (if page.written offset then 0 else 1) }

-- The loop over the bytes of an access from `index` on, `left` of them.
unfoldable pub note_bytes : StoreLog → ℕ → ℕ → Bool → ℕ → ℕ → ℕ → StoreLog
note_bytes log address size big_endian value index zero = log
note_bytes log address size big_endian value index (suc left) =
    note_bytes (note_byte log (add64 address index) (byte_of size big_endian value index)) address
      size big_endian value (index + 1) left

-- `note`.
unfoldable pub note : StoreLog → ℕ → ℕ → Bool → ℕ → StoreLog
note log address size big_endian value =
    if (size == 1 || size == 2 || size == 4 || size == 8) && address % size == 0
    then note_aligned log address size big_endian value
    else note_bytes log address size big_endian value 0 size

-- What the log says of an address: the last value written there, if any.
unfoldable pub logged : StoreLog → ℕ → Option ℕ
logged log address =
    let page = page_of log (address / 4096) in
    if page.written (address % 4096) then some (page.values (address % 4096)) else none
