-- ===== src/Jit/Object/Region.antt =====
-- native/bap_jit.cpp: `bap_jit_memory_region_bytes` and `bap_jit_memory_matches` go by the bytes of the memory.
use bap.Common.{
  ℕ, zero, suc, ◌+◌, ◌-◌, ◌%◌, ◌<◌, ◌≤◌, ◌≡◌, refl, leb, ltb, if◌then◌else◌, true, ◌&&◌, ◌↔◌, List,
  [], ◌∷◌, arith, length, get_or, min, ap, ◌∙◌, inl, inr, Bool-cases, Option-cases, none, some,
}
use bap.Common.Word.{u64, add64}
use bap.Paged.Table.{page_size}
use bap.Paged.Memory.{Memory, byte, find, find_congr}
use bap.Paged.Word.{copy_into, all_zero, read_bytes}
use bap.Paged.Word.Bytes.{
  get_or-copy_into, length-copy_into, all_zero-get_or, length-read_bytes, get_or-read_bytes,
}
use bap.Paged.Access.{bytes_from, read_range}
use bap.Paged.Access.Load.{load_lem}
use bap.Paged.ZeroRange.{zeros}
use bap.Jit.Bytes.Copies.{get_or-ext, length-zeros, get_or-zeros}
use bap.Jit.Object.{region_loop, region_bytes, bytes_eq, matches}

pub length-bytes_from : (m : Memory) (address done n : ℕ) → length (bytes_from m address done n) ≡ n
length-bytes_from m address done zero = refl
length-bytes_from m address done (suc n) = ap suc (length-bytes_from m address (done + 1) n)

get_or-bytes_from :
    (m : Memory) (address done n i : ℕ)
    → i < n
    → get_or (bytes_from m address done n) i 0 ≡ byte m (add64 address (done + i))
get_or-bytes_from m address done zero i h = absurd (omega arith)
get_or-bytes_from m address done (suc n) zero h = ground arith
get_or-bytes_from m address done (suc n) (suc i) h =
    ground (arith, get_or-bytes_from m address (done + 1) n i)

module _ (m : Memory) (address : ℕ) (ha : address < u64) where
  -- The bytes after a round, from `done` on, which holds `next` once it is done.
  abbrev region_next : List ℕ → ℕ → List ℕ
  region_next to done =
      let at = add64 address done in
      let offset = at % page_size in
      let count = min (page_size - offset) (length to - done) in
      elim (find m at) [
        | none ↦ to
        | some page ↦
            if all_zero (read_bytes page offset count)
            then to
            else copy_into to done (read_bytes page offset count)
      ]

  abbrev region_count : List ℕ → ℕ → ℕ
  region_count to done = min (page_size - add64 address done % page_size) (length to - done)

  region_next-get_or :
      (to : List ℕ) (done i : ℕ)
      → done < length to
      → length to ≤ u64
      → ((k : ℕ) → done ≤ k → get_or to k 0 ≡ 0)
      → (length (region_next to done) ≡ length to)
        × (get_or (region_next to done) i 0 ≡ (
            if leb done i && ltb i (done + region_count to done)
            then byte m (add64 address i)
            else get_or to i 0))
  unfolding byte
  region_next-get_or to done i hd hu hz =
      let at = add64 address done in
      let offset = at % page_size in
      let count = region_count to done in
      elim (Option-cases (find m at)) [
        | inl e ↦ (ground (arith, e), ground (arith, e, hz i, find_congr m at (add64 address i)))
        | inr (page, e) ↦
            let part = read_bytes page offset count in
            let size = length-read_bytes page offset count in
            (
              ground (arith, e, length-copy_into to done part),
              ground (
                arith,
                e,
                hz i,
                size,
                all_zero-get_or part (i - done),
                get_or-read_bytes page offset count (i - done),
                get_or-copy_into to done part i,
                find_congr m at (add64 address i),
              ),
            )
      ]

  region_loop-get_or :
      (fuel : ℕ) (to : List ℕ) (done i : ℕ)
      → length to ≤ done + fuel
      → length to ≤ u64
      → ((k : ℕ) → done ≤ k → get_or to k 0 ≡ 0)
      → (length (region_loop fuel m address to done) ≡ length to)
        × (get_or (region_loop fuel m address to done) i 0
            ≡ (if leb done i && ltb i (length to) then byte m (add64 address i) else get_or to i 0))
  unfolding region_loop
  region_loop-get_or zero to done i hf hu hz = (refl, ground arith)
  region_loop-get_or (suc fuel) to done i hf hu hz = elim (Bool-cases (ltb done (length to))) [
    | inr e ↦ rw e (refl, ground arith)
    | inl e ↦
        let next = region_next to done in
        let round = λ (k : ℕ). region_next-get_or to done k (ground arith) hu hz in
        let rest =
          region_loop-get_or fuel next (done + region_count to done) i (omega (arith, (round i).0))
            (omega (arith, (round i).0)) (λ k h. ground (arith, (round k).1, hz k)) in
        rw e (rest.0 ∙ (round i).0, ground (arith, rest.1, (round i).0, (round i).1))
  ]

-- The bytes of a region are those that a load gives, one by one from its address on, also past the end of the address space, whatever pages
-- there are and of whatever zeros.
pub region_bytes_lem :
    (m : Memory) (address size : ℕ)
    → address < u64
    → size ≤ u64
    → region_bytes m address size ≡ bytes_from m address 0 size
unfolding region_bytes
region_bytes_lem m address size ha hs =
    let loop = λ (i : ℕ).
      region_loop-get_or m address ha size (zeros size) 0 i (omega (arith, length-zeros size))
        (omega (arith, length-zeros size)) (λ k h. get_or-zeros size k) in
    get_or-ext (region_bytes m address size) (bytes_from m address 0 size)
      (omega (arith, (loop 0).0, length-zeros size, length-bytes_from m address 0 size))
      (λ i l.
        ground
          (arith, (loop i).0, (loop i).1, length-zeros size, get_or-bytes_from m address 0 size i))

bytes_eq-eq : (xs ys : List ℕ) → length xs ≡ length ys → (bytes_eq xs ys ≡ true) ↔ (xs ≡ ys)
unfolding bytes_eq
bytes_eq-eq [] [] h = (λ e. refl, λ e. refl)
bytes_eq-eq [] (y ∷ ys) h = absurd (omega arith)
bytes_eq-eq (x ∷ xs) [] h = absurd (omega arith)
bytes_eq-eq (x ∷ xs) (y ∷ ys) h =
    let rest = bytes_eq-eq xs ys (omega arith) in
    (λ e. ground (arith, rest.0), λ e. ground (arith, rest.1))

-- `bap_jit_memory_matches` says so just when the bytes are those of the memory from the address on.
pub matches_lem :
    (m : Memory) (address : ℕ) (bytes : List ℕ)
    → (matches m address bytes ≡ true) ↔ (bytes_from m address 0 (length bytes) ≡ bytes)
unfolding matches read_range
matches_lem m address bytes = rw (load_lem m address (length bytes)) (
    bytes_eq-eq (bytes_from m address 0 (length bytes)) bytes
      (length-bytes_from m address 0 (length bytes)))
