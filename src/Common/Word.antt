-- ===== src/Common/Word.antt =====
-- Machine words of 64 bits as native numbers.
use Prim.Native.Nat.{ℕ, ◌^◌, ◌%◌, ◌+◌}

-- One more than the greatest `uint64_t`.
abbrev pub u64 : ℕ
u64 = 2 ^ 64

-- `a + b` of type `uint64_t`.
abbrev pub add64 : ℕ → ℕ → ℕ
add64 a b = (a + b) % u64
