-- ===== src/Jit/Op/Division.antt =====
-- native/bap_jit.cpp: the divisions of `binary` have a behaviour for all operands, and what it is, also by 0 and where the quotient has no place.
use native.Mathlib.Nat.{mul_comm}
use bap.Common.{
  ℕ, zero, suc, ◌+◌, ◌-◌, ◌*◌, ◌%◌, ◌/◌, ◌^◌, ◌<◌, ◌≤◌, ◌≡◌, refl, ◌==◌, if◌then◌else◌, true, false,
  some, ◌⊎◌, inl, inr, arith, Bool-cases,
}
use bap.Common.Word.{u64}
use bap.Jit.Op.{
  is_negative, neg64, magnitude, ones, overflows, truncated, remaining, unsigned_div, unsigned_rem,
  signed_div, signed_rem, unsigned_quotient, unsigned_rest, signed_quotient, signed_rest,
}

-- Unsigned, both divisions give a number for all operands of 64 bits. By 0 the quotient is all ones and the rest the dividend; else the
-- quotient times the divisor and the rest are the dividend, and the rest is less than the divisor.
pub unsigned_quotient-unsigned_rest :
    (a b : ℕ)
    → a < u64
    → b < u64
    → (q : ℕ) × (r : ℕ) × (unsigned_quotient a b ≡ some q)
      × (unsigned_rest a b ≡ some r)
      × (((b ≡ 0) × (q ≡ ones) × (r ≡ a)) ⊎ ((q * b + r ≡ a) × (r < b)))
unfolding unsigned_quotient unsigned_rest unsigned_div unsigned_rem
unsigned_quotient-unsigned_rest a b ha hb = elim (Bool-cases (b == 0)) [
  | inl e ↦ (ones, a, rw e refl, rw e refl, inl (ground arith, refl, refl))
  | inr e ↦ (a / b, a % b, rw (e, e) refl, rw (e, e) refl, inr (grind arith, grind arith))
]

-- The bits of a product by a number below 0.
times_negative : (q b : ℕ) → b ≤ u64 → q * (u64 - b) + q * b ≡ q * u64
times_negative zero b h = omega arith
times_negative (suc q) b h = omega (arith, times_negative q b h)

signed_division_pp :
    (a b : ℕ) → a < 2 ^ 63 → b < 2 ^ 63 → 0 < b → (truncated a b * b + remaining a b) % u64 ≡ a
unfolding truncated remaining
signed_division_pp a b ha hb h0 = grind arith

signed_division_nn :
    (a b : ℕ)
    → 2 ^ 63 ≤ a
    → a < u64
    → 2 ^ 63 ≤ b
    → b < u64
    → (truncated a b * b + remaining a b) % u64 ≡ a
unfolding truncated remaining
signed_division_nn a b la ha lb hb = grind (arith, times_negative ((u64 - a) / (u64 - b)) (u64 - b))

signed_division_np :
    (a b : ℕ)
    → 2 ^ 63 ≤ a
    → a < u64
    → b < 2 ^ 63
    → 0 < b
    → (truncated a b * b + remaining a b) % u64 ≡ a
unfolding truncated remaining
signed_division_np a b la ha hb h0 = grind (arith, times_negative b ((u64 - a) / b))

division_parts : (a b : ℕ) → 0 < b → (a / b) * b + a % b ≡ a
division_parts a b h = grind arith

sum_rest :
    (n b q r a : ℕ)
    → b * n + b * q ≡ b * u64
    → q * (u64 - b) + q * b ≡ q * u64
    → n * b ≡ b * n
    → b * q ≡ q * b
    → q * (u64 - b) + r ≡ a
    → a < u64
    → (n * b + r) % u64 ≡ a
sum_rest n b q r a h1 h2 h3 h4 h5 ha = omega (arith, h1, h2, h3, h4, h5)

-- A quotient and a divisor that are both below 0 for the same numbers above it.
negative_times :
    (q b r a : ℕ)
    → q < u64
    → b < u64
    → q * (u64 - b) + r ≡ a
    → a < u64
    → (neg64 q * b + r) % u64 ≡ a
negative_times zero b r a hq hb e ha = omega arith
negative_times (suc q) b r a hq hb e ha =
    let reduced : neg64 (suc q) ≡ u64 - suc q = omega arith in
    let product : b * (u64 - suc q) + b * suc q ≡ b * u64 =
      times_negative b (suc q) (omega arith) in
    let whole : suc q * (u64 - b) + suc q * b ≡ suc q * u64 =
      times_negative (suc q) b (omega arith) in
    let turned : (u64 - suc q) * b ≡ b * (u64 - suc q) = mul_comm (u64 - suc q) b in
    let turned' : b * suc q ≡ suc q * b = mul_comm b (suc q) in
    rw reduced (sum_rest (u64 - suc q) b (suc q) r a product whole turned turned' e ha)

signed_division_pn :
    (a b : ℕ) → a < 2 ^ 63 → 2 ^ 63 ≤ b → b < u64 → (truncated a b * b + remaining a b) % u64 ≡ a
unfolding truncated remaining
signed_division_pn a b ha lb hb =
    let negative : is_negative b ≡ true = ground arith in
    let above : is_negative a ≡ false = ground arith in
    rw (negative, above)
      (negative_times (a / (u64 - b)) b (a % (u64 - b)) a (grind arith) hb
        (division_parts a (u64 - b) (omega arith)) (omega arith))

truncated-remaining :
    (a b : ℕ) → a < u64 → b < u64 → 0 < b → (truncated a b * b + remaining a b) % u64 ≡ a
truncated-remaining a b ha hb h = ground (
  arith,
  signed_division_pp a b,
  signed_division_pn a b,
  signed_division_np a b,
  signed_division_nn a b,
)

magnitude-remaining :
    (a b : ℕ) → a < u64 → b < u64 → 0 < b → magnitude (remaining a b) < magnitude b
unfolding remaining
magnitude-remaining a b ha hb h = grind arith

-- Only -1 divides the least number with a quotient that has no place.
magnitude-truncated :
    (a b : ℕ)
    → a < u64
    → b < u64
    → 0 < b
    → overflows a b ≡ false
    → magnitude (truncated a b) ≡ magnitude a / magnitude b
unfolding truncated
magnitude-truncated a b ha hb h o = grind arith

sign_of_remaining :
    (a b : ℕ)
    → a < u64
    → b < u64
    → 0 < b
    → (remaining a b ≡ 0) ⊎ (is_negative (remaining a b) ≡ is_negative a)
unfolding remaining
sign_of_remaining a b ha hb h = grind arith

-- What the quotient and the rest with signs are: those towards 0, but by 0 and where the quotient has no place.
abbrev pub AreSigned : ℕ → ℕ → ℕ → ℕ → Type 0
AreSigned a b q r =
    ((b ≡ 0) × (q ≡ (if is_negative a then 1 else ones)) × (r ≡ a))
    ⊎ ((a ≡ 2 ^ 63) × (b ≡ ones) × (q ≡ a) × (r ≡ 0))
    ⊎ (((q * b + r) % u64 ≡ a)
        × (magnitude q ≡ magnitude a / magnitude b)
        × (magnitude r < magnitude b)
        × ((r ≡ 0) ⊎ (is_negative r ≡ is_negative a)))

-- Signed, both divisions give a number for all operands of 64 bits. By 0 the quotient is 1 for a dividend below 0 and -1 for others, and the
-- rest the dividend. For the least number by -1 the quotient is the dividend and the rest 0. Else the quotient times the divisor and the
-- rest are the dividend in 64 bits, the quotient is that of the numbers without their signs but for its sign, and the rest is nearer to 0
-- than the divisor and either 0 or with the sign of the dividend.
pub signed_quotient-signed_rest :
    (a b : ℕ)
    → a < u64
    → b < u64
    → (q : ℕ) × (r : ℕ) × (signed_quotient a b ≡ some q)
      × (signed_rest a b ≡ some r)
      × AreSigned a b q r
unfolding signed_quotient signed_rest signed_div signed_rem
signed_quotient-signed_rest a b ha hb = elim (Bool-cases (b == 0)) [
  | inl e ↦ (
    if is_negative a then 1 else ones,
    a,
    ground (arith, e),
    ground (arith, e),
    inl (ground arith, refl, refl),
  )
  | inr e ↦ elim (Bool-cases (overflows a b)) [
    | inl o ↦ (
      a,
      0,
      ground (arith, e, o),
      ground (arith, e, o),
      inr (inl (ground arith, ground arith, refl, refl)),
    )
    | inr o ↦ (
      truncated a b,
      remaining a b,
      ground (arith, e, o),
      ground (arith, e, o),
      inr (
          inr (
            truncated-remaining a b ha hb (ground arith),
            magnitude-truncated a b ha hb (ground arith) o,
            magnitude-remaining a b ha hb (ground arith),
            sign_of_remaining a b ha hb (ground arith),
          )),
    )
  ]
]
