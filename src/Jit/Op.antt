-- ===== src/Jit/Op.antt =====
-- native/bap_jit.cpp: the operations that `compileOps` takes, and what those of them on numbers work out, as the instructions of LLVM that it
-- makes for them do.
pub mod Division
use bap.Common.{
  ℕ, zero, suc, ◌+◌, ◌-◌, ◌*◌, ◌%◌, ◌/◌, ◌^◌, ◌==◌, leb, ltb, if◌then◌else◌, Bool, true, false, not,
  ◌&&◌, ◌||◌, bit_and, bit_or, bit_xor, Option, some, none,
}
use mathlib.Core.Option.{map}
use bap.Common.Word.{u64, add64}

-- The operations in the order of their tags. A slot, a label, a width and a size are natural numbers, as they come; `binary` has its number.
pub data Op : Type 0 where
  set : ℕ → ℕ → Op
  move : ℕ → ℕ → Op
  add : ℕ → ℕ → ℕ → Op
  jump : ℕ → Op
  jump_slot : ℕ → Op
  binary : ℕ → ℕ → ℕ → ℕ → Op
  mask : ℕ → ℕ → ℕ → Op
  sign_extend : ℕ → ℕ → ℕ → Op
  select : ℕ → ℕ → ℕ → ℕ → Op
  negate : ℕ → ℕ → Op
  complement : ℕ → ℕ → Op
  ashr : ℕ → ℕ → ℕ → ℕ → Op
  label : ℕ → Op
  goto : ℕ → Op
  branch : ℕ → ℕ → ℕ → Op
  load : ℕ → ℕ → ℕ → Bool → Op
  store : ℕ → ℕ → ℕ → Bool → Op
  code : ℕ → ℕ → Op

-- A number of 64 bits that stands for one below 0.
abbrev pub is_negative : ℕ → Bool
is_negative a = leb (2 ^ 63) a

-- `CreateNeg`.
abbrev pub neg64 : ℕ → ℕ
neg64 a = (u64 - a) % u64

abbrev pub magnitude : ℕ → ℕ
magnitude a = if is_negative a then u64 - a else a

-- `UINT64_MAX`.
abbrev pub ones : ℕ
ones = u64 - 1

abbrev pub of_bool : Bool → ℕ
of_bool b = if b then 1 else 0

-- `ICMP_SLT`: the order of the numbers with their signs turned.
abbrev pub signed_lt : ℕ → ℕ → Bool
signed_lt a b = ltb ((a + 2 ^ 63) % u64) ((b + 2 ^ 63) % u64)

abbrev pub overflows : ℕ → ℕ → Bool
overflows a b = a == 2 ^ 63 && b == ones

-- `CreateUDiv` and `CreateURem`, which have no defined behaviour by 0: `none` there.
unfoldable pub unsigned_div : ℕ → ℕ → Option ℕ
unsigned_div a b = if b == 0 then none else some (a / b)

unfoldable pub unsigned_rem : ℕ → ℕ → Option ℕ
unsigned_rem a b = if b == 0 then none else some (a % b)

-- The quotient of numbers with signs, towards 0.
unfoldable pub truncated : ℕ → ℕ → ℕ
truncated a b =
    let quotient = magnitude a / magnitude b in
    if is_negative a && is_negative b
    then quotient
    else if is_negative a || is_negative b
    then neg64 quotient
    else quotient

-- Its rest, with the sign of the dividend.
unfoldable pub remaining : ℕ → ℕ → ℕ
remaining a b = let rest = magnitude a % magnitude b in if is_negative a then neg64 rest else rest

-- `CreateSDiv` and `CreateSRem`, which have no defined behaviour by 0, nor for the least number by -1: `none` there.
unfoldable pub signed_div : ℕ → ℕ → Option ℕ
unfolding truncated
signed_div a b = if b == 0 || overflows a b then none else some (truncated a b)

unfoldable pub signed_rem : ℕ → ℕ → Option ℕ
unfolding remaining
signed_rem a b = if b == 0 || overflows a b then none else some (remaining a b)

-- The shifts of `binary`, which give 0 for 64 and more.
abbrev pub shift_left : ℕ → ℕ → ℕ
shift_left a b = if leb 64 b then 0 else a * 2 ^ b % u64

abbrev pub shift_right : ℕ → ℕ → ℕ
shift_right a b = if leb 64 b then 0 else a / 2 ^ b

-- The divisions of `binary`. The instruction is run whatever the operands, and what it gives is selected from after it: without a behaviour
-- of the instruction there is none of the operation.
abbrev pub unsigned_divisor : ℕ → ℕ
unsigned_divisor b = if b == 0 then 1 else b

unfoldable pub unsigned_quotient : ℕ → ℕ → Option ℕ
unfolding unsigned_div
unsigned_quotient a b =
    map (λ quotient. if b == 0 then ones else quotient) (unsigned_div a (unsigned_divisor b))

unfoldable pub unsigned_rest : ℕ → ℕ → Option ℕ
unfolding unsigned_rem
unsigned_rest a b = map (λ rest. if b == 0 then a else rest) (unsigned_rem a (unsigned_divisor b))

abbrev pub signed_divisor : ℕ → ℕ → ℕ
signed_divisor a b = if overflows a b then 1 else if b == 0 then 1 else b

abbrev pub by_zero : ℕ → ℕ
by_zero a = if signed_lt a 0 then 1 else ones

unfoldable pub signed_quotient : ℕ → ℕ → Option ℕ
unfolding signed_div
signed_quotient a b =
    map (λ quotient. if b == 0 then by_zero a else if overflows a b then a else quotient)
      (signed_div a (signed_divisor a b))

unfoldable pub signed_rest : ℕ → ℕ → Option ℕ
unfolding signed_rem
signed_rest a b =
    map (λ rest. if b == 0 then a else if overflows a b then 0 else rest)
      (signed_rem a (signed_divisor a b))

-- The result of `binary` by its number, of those that there are, where the instructions for it have a behaviour.
unfoldable pub binary_value : ℕ → ℕ → ℕ → Option ℕ
unfolding unsigned_quotient unsigned_rest signed_quotient signed_rest
binary_value number a b =
    if number == 0
    then some (add64 a b)
    else if number == 1
    then some ((a + u64 - b) % u64)
    else if number == 2
    then some (a * b % u64)
    else if number == 3
    then some (bit_and a b)
    else if number == 4
    then some (bit_or a b)
    else if number == 5
    then some (bit_xor a b)
    else if number == 6
    then some (shift_left a b)
    else if number == 7
    then some (shift_right a b)
    else if number == 8
    then some (of_bool (a == b))
    else if number == 9
    then some (of_bool (not (a == b)))
    else if number == 10
    then some (of_bool (ltb a b))
    else if number == 11
    then some (of_bool (leb a b))
    else if number == 12
    then some (of_bool (ltb b a))
    else if number == 13
    then some (of_bool (leb b a))
    else if number == 14
    then unsigned_quotient a b
    else if number == 15
    then unsigned_rest a b
    else if number == 16
    then signed_quotient a b
    else if number == 17
    then signed_rest a b
    else if number == 18
    then some (of_bool (signed_lt a b))
    else if number == 19
    then some (of_bool (not (signed_lt b a)))
    else if number == 20
    then some (of_bool (signed_lt b a))
    else if number == 21
    then some (of_bool (not (signed_lt a b)))
    else none
