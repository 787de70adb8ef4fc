-- ===== src/Paged/Fill.antt =====
-- native/paged_memory.h: `fill`.
pub mod Bytes
use bap.Common.{
  ℕ, zero, suc, ◌+◌, ◌-◌, ◌%◌, List, [], ◌∷◌, ◌==◌, ltb, if◌then◌else◌, length, take, drop, min,
  Bool, true, ◌&&◌,
}
use bap.Common.Word.{add64}
use bap.Paged.Memory.{Memory}
use bap.Paged.Table.{page_size}
use bap.Paged.Word.{write_bytes, put_page}

-- `memcmp` of bytes with themselves one further on, which is equal when each is the one before it.
unfoldable pub repeats : ℕ → List ℕ → Bool
repeats b [] = true
repeats b (c ∷ bytes) = b == c && repeats c bytes

-- Whether bytes are all zeros: the first is, and each is the one before it.
unfoldable pub is_zeros : List ℕ → Bool
unfolding repeats
is_zeros [] = true
is_zeros (b ∷ bytes) = b == 0 && repeats b bytes

-- The loop of `fill`, with `bytes` left after `done`: a round does what lies in one page, of one byte or more, and none is done past the end
-- of the address space.
unfoldable pub fill_loop : ℕ → Memory → ℕ → ℕ → List ℕ → Memory
unfolding is_zeros
fill_loop zero m address done bytes = m
fill_loop (suc fuel) m address done [] = m
fill_loop (suc fuel) m address done (b ∷ bytes) =
    let at = add64 address done in
    let offset = at % page_size in
    let count = min (page_size - offset) (length (b ∷ bytes)) in
    let from = take count (b ∷ bytes) in
    let next = put_page m at (is_zeros from) (λ p. write_bytes p offset from) in
    let rest = fill_loop fuel next address (done + count) (drop count (b ∷ bytes)) in
    if ltb at address then m else rest

-- `fill`.
unfoldable pub fill : Memory → ℕ → List ℕ → Memory
unfolding fill_loop
fill m address bytes = fill_loop (length bytes) m address 0 bytes
