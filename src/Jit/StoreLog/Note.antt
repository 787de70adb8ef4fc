-- ===== src/Jit/StoreLog/Note.antt =====
-- What `note` adds to a log.
use bap.Common.{
  ℕ, zero, suc, ◌+◌, ◌%◌, ◌<◌, ◌≤◌, ◌≡◌, ◌==◌, leb, ltb, if◌then◌else◌, Bool, true, ◌&&◌, ◌||◌,
  Option, some, arith, Bool-cases, inl, inr, ==→eq,
}
use bap.Common.Word.{u64, add64}
use bap.Paged.Access.{distance}
use bap.Jit.StoreLog.{StoreLog, byte_of, note_aligned, note_byte, note_bytes, note, logged}

logged-note_byte :
    (log : StoreLog) (at value x : ℕ)
    → logged (note_byte log at value) x ≡ (if x == at then some value else logged log x)
unfolding logged note_byte
logged-note_byte log at value x = ground arith

-- What the log says of `x` once the bytes from `index` on of an access have been noted, `left` of them.
abbrev noted : StoreLog → ℕ → ℕ → Bool → ℕ → ℕ → ℕ → ℕ → Option ℕ
noted log address size big_endian value index left x =
    if leb index (distance address x) && ltb (distance address x) (index + left)
    then some (byte_of size big_endian value (distance address x))
    else logged log x

logged-note_bytes :
    (log : StoreLog) (address size : ℕ) (big_endian : Bool) (value index left x : ℕ)
    → address < u64
    → x < u64
    → index + left ≤ u64
    → logged (note_bytes log address size big_endian value index left) x
      ≡ noted log address size big_endian value index left x
unfolding note_bytes
logged-note_bytes log address size big_endian value index zero x ha hx h = ground arith
logged-note_bytes log address size big_endian value index (suc left) x ha hx h = ground (
  arith,
  logged-note_byte log (add64 address index) (byte_of size big_endian value index) x,
  logged-note_bytes (note_byte log (add64 address index) (byte_of size big_endian value index))
      address size big_endian value (index + 1) left x ha hx,
)

power_in_page :
    (address size k : ℕ)
    → size ≡ k
    → address % size ≡ 0
    → ((address % k ≡ 0) → address % 4096 + k ≤ 4096)
    → address % 4096 + size ≤ 4096
power_in_page address size k e a f = rw e (f (rw e at a))

aligned_in_page :
    (address size : ℕ)
    → (size == 1 || size == 2 || size == 4 || size == 8) && address % size == 0 ≡ true
    → address % 4096 + size ≤ 4096
aligned_in_page address size h = elim (Bool-cases (size == 1)) [
  | inl e ↦ ground arith
  | inr e₁ ↦ elim (Bool-cases (size == 2)) [
    | inl e ↦
        let s : size ≡ 2 = ==→eq size 2 e in
        power_in_page address size 2 s (ground (arith)) (omega arith)
    | inr e₂ ↦ elim (Bool-cases (size == 4)) [
      | inl e ↦
          let s : size ≡ 4 = ==→eq size 4 e in
          power_in_page address size 4 s (ground arith) (omega arith)
      | inr e₃ ↦
          let s : size ≡ 8 = ground arith in
          power_in_page address size 8 s (ground arith) (omega arith)
    ]
  ]
]

logged-note_aligned :
    (log : StoreLog) (address size : ℕ) (big_endian : Bool) (value x : ℕ)
    → address < u64
    → x < u64
    → address % 4096 + size ≤ 4096
    → logged (note_aligned log address size big_endian value) x
      ≡ noted log address size big_endian value 0 size x
unfolding logged note_aligned
logged-note_aligned log address size big_endian value x ha hx h = ground arith

-- After `note` the log has, at each byte of the access, the byte that goes there, and elsewhere what it had, whichever way it goes.
pub logged-note :
    (log : StoreLog) (address size : ℕ) (big_endian : Bool) (value x : ℕ)
    → address < u64
    → x < u64
    → size ≤ u64
    → logged (note log address size big_endian value) x ≡ (
        if ltb (distance address x) size
        then some (byte_of size big_endian value (distance address x))
        else logged log x)
unfolding note
logged-note log address size big_endian value x ha hx hs = ground (
  arith,
  aligned_in_page address size,
  logged-note_aligned log address size big_endian value x ha hx,
  logged-note_bytes log address size big_endian value 0 size x ha hx,
)
