-- ===== src/Paged/Access/Load.antt =====
-- `load` reads the bytes of a memory one by one.
use Prim.Native.Nat.add
use native.Mathlib.Nat.{add-zero, zero-add}
use bap.Common.{
  ℕ, zero, suc, ◌+◌, ◌-◌, ◌%◌, ◌<◌, ◌≤◌, ◌≡◌, refl, ◌∷◌, ◌++◌, take, drop, arith, ap, ◌∙◌, inl, inr,
  Option-cases, none, some,
}
use bap.Common.Word.{u64, add64}
use bap.Paged.Memory.{Memory, byte, find, find_congr}
use bap.Paged.Word.{word_offset, word_at, load_word, read_bytes}
use bap.Paged.Table.{word_size, Page, page_size, zero_page}
use bap.Paged.Access.{chunk, load_loop, load, bytes_from, read}

drop-read_bytes :
    (p : Page) (k n offset : ℕ) → drop k (read_bytes p offset (k + n)) ≡ read_bytes p (offset + k) n
drop-read_bytes p zero n offset = rw (zero-add, add-zero)
drop-read_bytes p (suc k) n offset =
    rw (add.suc, drop-read_bytes p k n (offset + 1)) (ap (λ o. read_bytes p o n) (omega arith))

take-read_bytes :
    (p : Page) (k n offset : ℕ) → take k (read_bytes p offset (k + n)) ≡ read_bytes p offset k
take-read_bytes p zero n offset = refl
take-read_bytes p (suc k) n offset = rw (add.suc, take-read_bytes p k n (offset + 1))

slice-read_bytes :
    (p : Page) (o c r w n : ℕ)
    → n ≡ o + (c + r)
    → take c (drop o (read_bytes p w n)) ≡ read_bytes p (w + o) c
slice-read_bytes p o c r w n h =
    rw (h, drop-read_bytes p o (c + r) w, take-read_bytes p c r (w + o))

module _ (m : Memory) (at : ℕ) (ha : at < u64) where
  read_bytes-present :
      (p : Page) (i n : ℕ)
      → find m at ≡ some p
      → word_offset at + (i + n) ≤ word_size
      → read_bytes p (at % page_size + i) n ≡ bytes_from m at i n
  unfolding byte
  read_bytes-present p i zero e h = refl
  read_bytes-present p i (suc n) e h =
      ground (arith, read_bytes-present p (i + 1) n e, find_congr m at (add64 at i) ha)

  zeros-absent :
      (i n o : ℕ)
      → find m at ≡ none
      → word_offset at + (i + n) ≤ word_size
      → read_bytes zero_page o n ≡ bytes_from m at i n
  unfolding byte
  zeros-absent i zero o e h = refl
  zeros-absent i (suc n) o e h =
      ground (arith, zeros-absent (i + 1) n (o + 1) e, find_congr m at (add64 at i) ha)

  -- What a word holds of an access, byte by byte.
  pub load_word-byte :
      (count : ℕ)
      → word_offset at + count ≤ word_size
      → take count (drop (word_offset at) (load_word m at)) ≡ bytes_from m at 0 count
  unfolding load_word
  load_word-byte count h =
      let rest = word_size - (word_offset at + count) in
      elim (Option-cases (find m at)) [
        | inl e ↦
            rw (e, load_word)
              (slice-read_bytes zero_page (word_offset at) count rest 0 word_size (omega arith)
                ∙ zeros-absent 0 count _ e (omega arith))
        | inr (p, e) ↦
            rw (e, load_word)
              (slice-read_bytes p (word_offset at) count rest (word_at at) word_size (omega arith)
                ∙ ap (λ o. read_bytes p o count) (omega arith)
                ∙ read_bytes-present p 0 count e (omega arith))
      ]

bytes_from-append :
    (m : Memory) (address done c n : ℕ)
    → bytes_from m address done c ++ bytes_from m address (done + c) n
      ≡ bytes_from m address done (c + n)
bytes_from-append m address done zero n = rw (add-zero, zero-add)
bytes_from-append m address done (suc c) n =
    rw (add.suc, ← bytes_from-append m address (done + 1) c n)
      (ap
        (λ k.
          byte m (add64 address done)
          ∷ (bytes_from m address (done + 1) c ++ bytes_from m address k n))
        (omega arith))

bytes_from-shift :
    (m : Memory) (address done i n : ℕ)
    → bytes_from m (add64 address done) i n ≡ bytes_from m address (done + i) n
bytes_from-shift m address done i zero = refl
bytes_from-shift m address done i (suc n) =
    ground (arith, bytes_from-shift m address done (i + 1) n)

load_loop-eq :
    (fuel : ℕ) (m : Memory) (address done left : ℕ)
    → left ≤ fuel
    → load_loop fuel m address done left ≡ bytes_from m address done left
unfolding load_loop
load_loop-eq zero m address done zero h = refl
load_loop-eq zero m address done (suc left) h = absurd (omega arith)
load_loop-eq (suc fuel) m address done zero h = refl
load_loop-eq (suc fuel) m address done (suc left) h =
    let at = add64 address done in
    let count = chunk at (suc left) in
    rw
      (
        load_word-byte m at (omega arith) count (omega arith),
        load_loop-eq fuel m address (done + count) (suc left - count) (omega arith),
        bytes_from-shift m address done 0 count,
        add-zero,
      )
      (bytes_from-append m address done count (suc left - count)
        ∙ ap (bytes_from m address done) {y = suc left} (omega arith))

-- `load` reads the bytes of the memory from its address on, one by one, whatever words and pages they lie in, also past the end of the
-- address space, where it goes on at 0.
pub load_lem : (m : Memory) (address size : ℕ) → load m address size ≡ bytes_from m address 0 size
unfolding load
load_lem m address size = load_loop-eq size m address 0 size (omega arith)

-- `read` reads one byte.
pub read_lem : (m : Memory) (address : ℕ) → address < u64 → read m address ≡ byte m address
unfolding read
read_lem m address h = rw (load_lem m address 1) (ap (byte m) (omega arith))
