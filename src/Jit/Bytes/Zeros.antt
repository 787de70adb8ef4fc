-- ===== src/Jit/Bytes/Zeros.antt =====
-- native/bap_jit.cpp: `lazyZeros` gives zeros.
use bap.Common.{
  ℕ, ◌+◌, ◌-◌, ◌*◌, ◌/◌, ◌<◌, ◌≤◌, ◌≡◌, leb, ltb, if◌then◌else◌, ◌&&◌, List, arith, length, get_or,
  ◌∙◌, inl, inr, Bool-cases, Option, some, Option-cases,
}
use bap.Paged.Word.Bytes.{get_or-copy_into, length-copy_into}
use bap.Paged.ZeroRange.{zeros}
use bap.Jit.Bytes.{lazy_from, set_zeros, lazy_zeros}
use bap.Jit.Bytes.Copies.{get_or-ext, length-zeros, get_or-zeros}

round_up : (s p : ℕ) → 0 < p → s ≤ (s + p - 1) / p * p
round_up s p h = grind arith

round_down : (s p : ℕ) → 0 < p → s / p * p ≤ s
round_down s p h = grind arith

get_or-set_zeros :
    (bytes : List ℕ) (offset count i : ℕ)
    → offset + count ≤ length bytes
    → get_or (set_zeros bytes offset count) i 0
      ≡ (if leb offset i && ltb i (offset + count) then 0 else get_or bytes i 0)
get_or-set_zeros bytes offset count i h = ground (
  arith,
  length-zeros count,
  get_or-zeros count (i - offset),
  get_or-copy_into bytes offset (zeros count) i,
)

length-set_zeros :
    (bytes : List ℕ) (offset count : ℕ) → length (set_zeros bytes offset count) ≡ length bytes
length-set_zeros bytes offset count = length-copy_into bytes offset (zeros count)

set_all_zeros : (old : List ℕ) → set_zeros old 0 (length old) ≡ zeros (length old)
set_all_zeros old =
    get_or-ext (set_zeros old 0 (length old)) (zeros (length old))
      (omega (arith, length-set_zeros old 0 (length old), length-zeros (length old)))
      (λ i h. ground (
        arith,
        length-set_zeros old 0 (length old),
        get_or-set_zeros old 0 (length old) i,
        get_or-zeros (length old) i,
      ))

-- The start, the end and the middle of the bytes are all of them.
set_parts_zeros :
    (old : List ℕ) (a b : ℕ)
    → a ≤ b
    → b ≤ length old
    → set_zeros (set_zeros (set_zeros old 0 a) b (length old - b)) a (b - a) ≡ zeros (length old)
set_parts_zeros old a b h k =
    let one = set_zeros old 0 a in
    let two = set_zeros one b (length old - b) in
    get_or-ext (set_zeros two a (b - a)) (zeros (length old))
      (omega (
        arith,
        length-set_zeros old 0 a,
        length-set_zeros one b (length old - b),
        length-set_zeros two a (b - a),
        length-zeros (length old),
      ))
      (λ i l. ground (
        arith,
        length-set_zeros old 0 a,
        length-set_zeros one b (length old - b),
        length-set_zeros two a (b - a),
        get_or-set_zeros old 0 a i,
        get_or-set_zeros one b (length old - b) i,
        get_or-set_zeros two a (b - a) i,
        get_or-zeros (length old) i,
      ))

-- `lazyZeros` gives as many zeros as it is to, wherever its bytes are and whatever they held, also where `madvise` fails, if what that takes
-- reads as zeros.
pub lazy_zeros_lem :
    (advise : List ℕ → ℕ → ℕ → Option (List ℕ)) (page start : ℕ) (old : List ℕ)
    → ((bytes : List ℕ) (offset count : ℕ) (taken : List ℕ)
        → advise bytes offset count ≡ some taken
        → taken ≡ set_zeros bytes offset count)
    → 0 < page
    → lazy_zeros advise page start old ≡ zeros (length old)
unfolding lazy_zeros
lazy_zeros_lem advise page start old gives hp =
    let first = (start + page - 1) / page * page in
    let last = (start + length old) / page * page in
    let edges =
      set_zeros (set_zeros old 0 (first - start)) (last - start) (start + length old - last) in
    elim (Bool-cases (leb lazy_from (length old) && ltb first last)) [
      | inr e ↦ rw e (set_all_zeros old)
      | inl e ↦
          let low = round_up start page hp in
          let high = round_down (start + length old) page hp in
          let parts : set_zeros edges (first - start) (last - first) ≡ zeros (length old) =
            parts_zeros old start first last low (ground arith) high in
          elim (Option-cases (advise edges (first - start) (last - first))) [
            | inl n ↦ rw (e, n) parts
            | inr (taken, n) ↦
                rw (e, n) (gives edges (first - start) (last - first) taken n ∙ parts)
          ]
    ]
  where
    parts_zeros :
        (old : List ℕ) (start first last : ℕ)
        → start ≤ first
        → first < last
        → last ≤ start + length old
        → set_zeros
            (set_zeros (set_zeros old 0 (first - start)) (last - start) (start + length old - last))
            (first - start)
            (last - first)
          ≡ zeros (length old)
    parts_zeros old start first last low mid high =
        let tail : start + length old - last ≡ length old - (last - start) = omega arith in
        let middle : last - first ≡ last - start - (first - start) = omega arith in
        rw (tail, middle)
          (set_parts_zeros old (first - start) (last - start) (omega arith) (omega arith))
