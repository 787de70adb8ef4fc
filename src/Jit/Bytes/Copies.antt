-- ===== src/Jit/Bytes/Copies.antt =====
-- Byte arrays by their bytes.
use bap.Common.{
  ℕ, zero, suc, ◌+◌, ◌-◌, ◌<◌, ◌≤◌, ◌≡◌, refl, ltb, true, List, [], ◌∷◌, arith, length, drop,
  get_or, min, ap, ◌∙◌, length-take, length-drop, get_or-take, get_or-drop, get_or_out, inl, inr,
  Bool-cases, sym,
}
use bap.Paged.Word.{all_zero}
use bap.Paged.Word.Bytes.{all_zero-get_or}
use bap.Paged.ZeroRange.{zeros}
use bap.Jit.Bytes.{piece_of}

-- Lists of one length with the same elements are equal.
pub get_or-ext :
    (xs ys : List ℕ)
    → length xs ≡ length ys
    → ((i : ℕ) → i < length xs → get_or xs i 0 ≡ get_or ys i 0)
    → xs ≡ ys
get_or-ext [] [] e h = refl
get_or-ext [] (y ∷ ys) e h = absurd (omega arith)
get_or-ext (x ∷ xs) [] e h = absurd (omega arith)
get_or-ext (x ∷ xs) (y ∷ ys) e h =
    ground
      (arith, h 0 (omega arith), get_or-ext xs ys (omega arith) (λ i l. h (suc i) (omega arith)))

pub length-zeros : (n : ℕ) → length (zeros n) ≡ n
length-zeros zero = refl
length-zeros (suc n) = ap suc (length-zeros n)

pub get_or-zeros : (n i : ℕ) → get_or (zeros n) i 0 ≡ 0
get_or-zeros zero i = refl
get_or-zeros (suc n) zero = refl
get_or-zeros (suc n) (suc i) = get_or-zeros n i

pub length-piece_of :
    (bytes : List ℕ) (start : ℕ) → length (piece_of bytes start) ≡ min 4096 (length bytes - start)
length-piece_of bytes start = omega (
  arith,
  length-take (min 4096 (length bytes - start)) (drop start bytes),
  length-drop start bytes,
)

pub get_or-piece_of :
    (bytes : List ℕ) (start i : ℕ)
    → i < min 4096 (length bytes - start)
    → get_or (piece_of bytes start) i 0 ≡ get_or bytes (start + i) 0
get_or-piece_of bytes start i h =
    get_or-take (min 4096 (length bytes - start)) (drop start bytes) i 0 h
    ∙ get_or-drop start bytes i 0

-- A piece of zeros is zeros where it is.
pub piece_of-zeros :
    (bytes : List ℕ) (start i : ℕ)
    → all_zero (piece_of bytes start) ≡ true
    → start ≤ i
    → i < start + 4096
    → get_or bytes i 0 ≡ 0
piece_of-zeros bytes start i z l h = elim (Bool-cases (ltb i (length bytes))) [
  | inl e ↦
      ap (λ k. get_or bytes k 0) {x = i} {y = start + (i - start)} (omega arith)
      ∙ sym (get_or-piece_of bytes start (i - start) (ground arith))
      ∙ all_zero-get_or (piece_of bytes start) (i - start) z
  | inr e ↦ get_or_out bytes i 0 (ground arith)
]
