-- ===== src/Jit/Fast/Orders.antt =====
-- native/bap_jit.cpp: a number with its bytes swapped is the number in the other byte order.
use bap.Common.{
  ℕ, ◌≡◌, refl, Bool, true, false, List, [], ◌∷◌, length, arith, inl, inr, ◌∙◌, ap, sym, subst, ◌⊎◌,
}
use bap.Jit.StoreLog.{byte_of}
use bap.Jit.Access.{join, split}
use bap.Jit.Fast.{reverse, has_instruction, swapped}

join-reverse2 : (a b : ℕ) → join 2 false 0 (reverse (a ∷ b ∷ [])) ≡ join 2 true 0 (a ∷ b ∷ [])
unfolding join reverse
join-reverse2 a b = omega arith

join-reverse4 :
    (a b c d : ℕ)
    → join 4 false 0 (reverse (a ∷ b ∷ c ∷ d ∷ [])) ≡ join 4 true 0 (a ∷ b ∷ c ∷ d ∷ [])
unfolding join reverse
join-reverse4 a b c d = omega arith

join-reverse8 :
    (a b c d e f g h : ℕ)
    → join 8 false 0 (reverse (a ∷ b ∷ c ∷ d ∷ e ∷ f ∷ g ∷ h ∷ []))
      ≡ join 8 true 0 (a ∷ b ∷ c ∷ d ∷ e ∷ f ∷ g ∷ h ∷ [])
unfolding join reverse
join-reverse8 a b c d e f g h = omega arith

split-reverse2 : (value : ℕ) → reverse (split 2 false value 0 2) ≡ split 2 true value 0 2
unfolding split reverse byte_of
split-reverse2 value = refl

split-reverse4 : (value : ℕ) → reverse (split 4 false value 0 4) ≡ split 4 true value 0 4
unfolding split reverse byte_of
split-reverse4 value = refl

split-reverse8 : (value : ℕ) → reverse (split 8 false value 0 8) ≡ split 8 true value 0 8
unfolding split reverse byte_of
split-reverse8 value = refl

join-swapped_big :
    (bytes : List ℕ)
    → has_instruction (length bytes) ≡ true
    → join (length bytes) false 0 (swapped (length bytes) true bytes)
      ≡ join (length bytes) true 0 bytes
unfolding join reverse
join-swapped_big [] h = ground arith
join-swapped_big (a ∷ []) h = omega arith
join-swapped_big (a ∷ b ∷ []) h = join-reverse2 a b
join-swapped_big (a ∷ b ∷ c ∷ []) h = ground arith
join-swapped_big (a ∷ b ∷ c ∷ d ∷ []) h = join-reverse4 a b c d
join-swapped_big (a ∷ b ∷ c ∷ d ∷ e ∷ []) h = ground arith
join-swapped_big (a ∷ b ∷ c ∷ d ∷ e ∷ f ∷ []) h = ground arith
join-swapped_big (a ∷ b ∷ c ∷ d ∷ e ∷ f ∷ g ∷ []) h = ground arith
join-swapped_big (a ∷ b ∷ c ∷ d ∷ e ∷ f ∷ g ∷ k ∷ []) h = join-reverse8 a b c d e f g k
join-swapped_big (a ∷ b ∷ c ∷ d ∷ e ∷ f ∷ g ∷ k ∷ l ∷ bytes) h = ground arith

swapped-little : (size : ℕ) (bytes : List ℕ) → swapped size false bytes ≡ bytes
swapped-little size bytes = ground arith

-- What is loaded with its bytes swapped is what the bytes are in the byte order of the load.
pub join-swapped :
    (size : ℕ) (big_endian : Bool) (bytes : List ℕ)
    → length bytes ≡ size
    → has_instruction size ≡ true
    → join size false 0 (swapped size big_endian bytes) ≡ join size big_endian 0 bytes
join-swapped size false bytes e h = ap (join size false 0) (swapped-little size bytes)
join-swapped size true bytes e h =
    subst (λ n. join n false 0 (swapped n true bytes) ≡ join n true 0 bytes) e
      (join-swapped_big bytes (ap has_instruction e ∙ h))

pub instruction-cases :
    (size : ℕ) → has_instruction size ≡ true → (size ≡ 1) ⊎ ((size ≡ 2) ⊎ ((size ≡ 4) ⊎ (size ≡ 8)))
instruction-cases size h = ground arith

SplitsSwapped : ℕ → ℕ → Type 0
SplitsSwapped value size =
    swapped size true (split size false value 0 size) ≡ split size true value 0 size

split-swapped_big : (size value : ℕ) → has_instruction size ≡ true → SplitsSwapped value size
unfolding SplitsSwapped split byte_of
split-swapped_big size value h = elim (instruction-cases size h) [
  | inl e ↦ subst (SplitsSwapped value) (sym e) refl
  | inr (inl e) ↦ subst (SplitsSwapped value) (sym e) (split-reverse2 value)
  | inr (inr (inl e)) ↦ subst (SplitsSwapped value) (sym e) (split-reverse4 value)
  | inr (inr (inr e)) ↦ subst (SplitsSwapped value) (sym e) (split-reverse8 value)
]

-- What is stored with its bytes swapped are the bytes in the byte order of the store.
pub split-swapped :
    (size : ℕ) (big_endian : Bool) (value : ℕ)
    → has_instruction size ≡ true
    → swapped size big_endian (split size false value 0 size) ≡ split size big_endian value 0 size
unfolding SplitsSwapped
split-swapped size false value h = swapped-little size (split size false value 0 size)
split-swapped size true value h = split-swapped_big size value h
