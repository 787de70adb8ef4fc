-- ===== src/Paged/Access.antt =====
-- native/paged_memory.h: `load` and `store`, a word at a time, and `read` and `readRange` by them.
pub mod Load
pub mod Store
use bap.Common.{
  ℕ, zero, suc, ◌+◌, ◌-◌, ◌*◌, ◌/◌, ◌%◌, ◌^◌, ◌<◌, ◌≤◌, ◌≡◌, List, [], ◌∷◌, ◌++◌, ◌==◌, leb, ltb,
  if◌then◌else◌, length, get_or, take, drop, min,
}
use bap.Common.Word.{u64, add64}
use bap.Paged.Memory.{Memory, byte}
use bap.Paged.Word.{word_offset, load_word, store_in_word}
use bap.Paged.Table.{word_size}

-- The bytes of an access from `at` on that lie in its word: `count` of `load` and `store`, of `left` bytes that are left.
abbrev pub chunk : ℕ → ℕ → ℕ
chunk at left = min (word_size - word_offset at) left

-- The loop of `load`, with `left` bytes left after `done`, in at most `fuel` rounds.
unfoldable pub load_loop : ℕ → Memory → ℕ → ℕ → ℕ → List ℕ
load_loop zero m address done left = []
load_loop (suc fuel) m address done zero = []
load_loop (suc fuel) m address done (suc left) =
    let at = add64 address done in
    let count = chunk at (suc left) in
    take count (drop (word_offset at) (load_word m at))
    ++ load_loop fuel m address (done + count) (suc left - count)

-- `load`: a round does one byte or more, so that there are no more rounds than bytes.
unfoldable pub load : Memory → ℕ → ℕ → List ℕ
unfolding load_loop
load m address size = load_loop size m address 0 size

-- The loop of `store`, with `bytes` left after `done`.
unfoldable pub store_loop : ℕ → Memory → ℕ → ℕ → List ℕ → Memory
store_loop zero m address done bytes = m
store_loop (suc fuel) m address done [] = m
store_loop (suc fuel) m address done (b ∷ bytes) =
    let at = add64 address done in
    let count = chunk at (length (b ∷ bytes)) in
    store_loop fuel (store_in_word m at (take count (b ∷ bytes))) address (done + count)
      (drop count (b ∷ bytes))

-- `store`, of as many bytes as `bytes` has.
unfoldable pub store : Memory → ℕ → List ℕ → Memory
unfolding store_loop
store m address bytes = store_loop (length bytes) m address 0 bytes

-- `read`.
unfoldable pub read : Memory → ℕ → ℕ
unfolding load
read m address = get_or (load m address 1) 0 0

-- `readRange`.
unfoldable pub read_range : Memory → ℕ → ℕ → List ℕ
unfolding load
read_range m address size = load m address size

-- The bytes of a memory from `address + done` on, one by one, which wrap at the end of the address space.
abbrev pub bytes_from : Memory → ℕ → ℕ → ℕ → List ℕ
bytes_from m address done zero = []
bytes_from m address done (suc n) = byte m (add64 address done) ∷ bytes_from m address (done + 1) n

-- How far `x` is after `address`, going round at the end of the address space.
abbrev pub distance : ℕ → ℕ → ℕ
distance address x = (x + u64 - address) % u64
