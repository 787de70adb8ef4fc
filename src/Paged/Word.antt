-- ===== src/Paged/Word.antt =====
-- native/paged_memory.h: `loadWord` and `storeInWord`, the accesses within one word of 8 bytes. A word is its bytes in memory order.
pub mod Bytes
use bap.Common.{
  ℕ, zero, suc, ◌+◌, ◌-◌, ◌*◌, ◌/◌, ◌%◌, ◌^◌, ◌<◌, ◌≤◌, ◌≡◌, refl, sym, Bool, true, false, ◌&&◌,
  Option, none, some, List, [], ◌∷◌, ◌++◌, arith, ◌==◌, leb, ltb, if◌then◌else◌, Bool-cases,
  Option-cases, inl, inr, ap, eq→==, ==→eq, ◌∙◌, ne→==, length, get_or, take, drop,
}
use bap.Common.Word.{u64}
use bap.Paged.Table.{Page, page_size, word_size, zero_page}
use bap.Paged.Memory.{
  Memory, find, ensure, write_page, byte, page_number, find-ensure, find-write_page, byte-ensure,
}

-- `address & (wordSize - 1)`.
abbrev pub word_offset : ℕ → ℕ
word_offset address = address % word_size

-- `address & (pageSize - wordSize)`, where the word of an address stands in its page.
abbrev pub word_at : ℕ → ℕ
word_at address = address % page_size - address % word_size

-- `size` bytes of a page from `offset` on.
abbrev pub read_bytes : Page → ℕ → ℕ → List ℕ
read_bytes p offset zero = []
read_bytes p offset (suc n) = p offset ∷ read_bytes p (offset + 1) n

-- `memcpy` of `bytes` to `offset` of a page.
unfoldable pub write_bytes : Page → ℕ → List ℕ → Page
write_bytes p offset bytes i =
    if leb offset i && ltb i (offset + length bytes) then get_or bytes (i - offset) 0 else p i

-- `memcpy` of `bytes` to `offset` of a word.
unfoldable pub copy_into : List ℕ → ℕ → List ℕ → List ℕ
copy_into [] offset bytes = []
copy_into (x ∷ xs) zero [] = x ∷ xs
copy_into (x ∷ xs) zero (b ∷ bytes) = b ∷ copy_into xs zero bytes
copy_into (x ∷ xs) (suc offset) bytes = x ∷ copy_into xs offset bytes

unfoldable pub all_zero : List ℕ → Bool
all_zero [] = true
all_zero (b ∷ bytes) = b == 0 && all_zero bytes

-- `loadWord`: a word of a page that isn't there is zeros.
unfoldable pub load_word : Memory → ℕ → List ℕ
load_word m address = elim (find m address) [
  | none ↦ read_bytes zero_page 0 word_size
  | some p ↦ read_bytes p (word_at address) word_size
]

-- The word that the exchange of `storeInWord` leaves: all of it for 8 bytes, and else the bytes over what is there.
unfoldable pub new_word : Page → ℕ → List ℕ → List ℕ
new_word p address bytes =
    if length bytes == word_size
    then bytes
    else copy_into (read_bytes p (word_at address) word_size) (word_offset address) bytes

unfoldable pub put_word : ℕ → List ℕ → Page → Page
put_word address bytes p = write_bytes p (word_at address) (new_word p address bytes)

-- A write to the page of an address, as `storeInWord` and `fill` make it: for zeros only to a page that is there, as what was never written is
-- 0 already, and else to one that is made if it isn't.
unfoldable pub put_page : Memory → ℕ → Bool → (Page → Page) → Memory
put_page m address zeros f =
    let m' = if zeros then m else ensure m address in
    elim (find m' address) [ none ↦ m' | some p ↦ write_page m' address f ]

-- `storeInWord`, where no other thread stores to the word. `size` is the length of `bytes`.
unfoldable pub store_in_word : Memory → ℕ → List ℕ → Memory
store_in_word m address bytes = put_page m address (all_zero bytes) (put_word address bytes)
