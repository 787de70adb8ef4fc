-- ===== src/Paged/Fill/Bytes.antt =====
-- What `fill` does to the bytes of a memory.
use bap.Common.{
  ℕ, zero, suc, ◌+◌, ◌-◌, ◌%◌, ◌<◌, ◌≤◌, ◌≡◌, refl, List, [], ◌∷◌, leb, ltb, if◌then◌else◌, length,
  take, drop, get_or, ◌&&◌, arith, ◌∙◌, Bool-cases, inl, inr, length-take, length-drop, get_or-take,
  get_or-drop, min,
}
use bap.Common.Word.{u64, add64}
use bap.Paged.Memory.{Memory, byte}
use bap.Paged.Table.{page_size}
use bap.Paged.Word.{put_page, write_bytes, all_zero}
use bap.Paged.Word.Bytes.{byte-put_page}
use bap.Paged.Fill.{repeats, is_zeros, fill_loop, fill}

repeats-all_zero : (bytes : List ℕ) → repeats 0 bytes ≡ all_zero bytes
unfolding repeats all_zero
repeats-all_zero [] = refl
repeats-all_zero (zero ∷ bytes) = ground (arith, repeats-all_zero bytes)
repeats-all_zero (suc c ∷ bytes) = ground arith

-- The comparison of bytes with themselves one further on tells whether all of them are zeros.
pub is_zeros_lem : (bytes : List ℕ) → is_zeros bytes ≡ all_zero bytes
unfolding is_zeros all_zero
is_zeros_lem [] = refl
is_zeros_lem (zero ∷ bytes) = ground (arith, repeats-all_zero bytes)
is_zeros_lem (suc c ∷ bytes) = ground arith

-- What `x` holds once `bytes` went from `address + done` on, as far as the address space goes.
abbrev filled : Memory → ℕ → ℕ → List ℕ → ℕ → ℕ
filled m address done bytes x =
    if leb (address + done) x && ltb x (address + done + length bytes)
    then get_or bytes (x - (address + done)) 0
    else byte m x

filled-split :
    (m m' : Memory) (address done : ℕ) (bytes : List ℕ) (x count : ℕ)
    → count ≤ length bytes
    → byte m' x ≡ filled m address done (take count bytes) x
    → filled m' address (done + count) (drop count bytes) x ≡ filled m address done bytes x
filled-split m m' address done bytes x count hc h = ground (
  arith,
  length-take count bytes,
  length-drop count bytes,
  get_or-take count bytes (x - (address + done)) 0,
  get_or-drop count bytes (x - (address + (done + count))) 0,
)

fill_round :
    (m : Memory) (address done : ℕ) (from : List ℕ) (x : ℕ)
    → address < u64
    → x < u64
    → add64 address done ≡ address + done
    → add64 address done % page_size + length from ≤ page_size
    → byte
        (put_page m
          (add64 address done)
          (is_zeros from)
          (λ p. write_bytes p (add64 address done % page_size) from))
        x
      ≡ filled m address done from x
unfolding write_bytes
fill_round m address done from x ha hx hw hp =
    rw (is_zeros_lem from)
      (byte-put_page (add64 address done) from x (omega arith) hx hp m _ (λ p i. refl) ∙ rw hw refl)

fill_loop-byte :
    (fuel : ℕ) (m : Memory) (address done : ℕ) (bytes : List ℕ) (x : ℕ)
    → address < u64
    → x < u64
    → length bytes ≤ fuel
    → done + length bytes ≤ u64
    → byte (fill_loop fuel m address done bytes) x ≡ filled m address done bytes x
unfolding fill_loop
fill_loop-byte zero m address done [] x ha hx hf hb = ground arith
fill_loop-byte zero m address done (b ∷ bytes) x ha hx hf hb = absurd (omega arith)
fill_loop-byte (suc fuel) m address done [] x ha hx hf hb = ground arith
fill_loop-byte (suc fuel) m address done (b ∷ bytes) x ha hx hf hb =
    let at = add64 address done in
    let all = b ∷ bytes in
    let count = min (page_size - at % page_size) (length all) in
    elim (Bool-cases (ltb at address)) [
      | inl e ↦ rw e (ground arith)
      | inr e ↦ rw e (
          fill_loop-byte fuel _ address (done + count) (drop count all) x ha hx
            (omega (arith, length-drop count all)) (omega (arith, length-drop count all))
          ∙ filled-split m _ address done all x count (omega arith) (
              fill_round m address done (take count all) x ha hx (ground arith)
                (omega (arith, length-take count all))))
    ]

-- After `fill`, the bytes from `address` on are those given, as far as the address space goes and no further, and every other byte is as it
-- was.
pub byte-fill :
    (m : Memory) (address : ℕ) (bytes : List ℕ) (x : ℕ)
    → address < u64
    → x < u64
    → length bytes ≤ u64
    → byte (fill m address bytes) x ≡ (
        if leb address x && ltb x (address + length bytes)
        then get_or bytes (x - address) 0
        else byte m x)
unfolding fill
byte-fill m address bytes x ha hx hb =
    ground (arith, fill_loop-byte (length bytes) m address 0 bytes x ha hx)
