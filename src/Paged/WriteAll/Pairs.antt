-- ===== src/Paged/WriteAll/Pairs.antt =====
-- `writeAll` writes its pairs in order, and an open step knows of all of them.
use bap.Common.{
  ℕ, zero, suc, ◌+◌, ◌-◌, ◌<◌, ◌≤◌, ◌≡◌, refl, List, [], ◌∷◌, ◌==◌, leb, ltb, if◌then◌else◌, length,
  take, drop, get_or, ◌&&◌, arith, ◌∙◌, ap, length-take, length-drop, get_or-take,
}
use bap.Common.Word.{u64}
use bap.Paged.Memory.{Memory, byte, ensure, write_page}
use bap.Paged.Table.{word_size}
use bap.Paged.Word.{word_offset, store_in_word, put_page}
use bap.Paged.Word.Bytes.{byte-store_in_word}
use bap.Paged.Step.{note_step}
use bap.Paged.Step.Log.{IsTracked, byte-note_step, note_step-IsTracked}
use bap.Paged.WriteAll.{run_length, values, write_loop, write_all}

-- The value of the last of the pairs at `x`, and `before` where there is none: one write after another.
abbrev pub last_value : List (ℕ × ℕ) → ℕ → ℕ → ℕ
last_value [] x before = before
last_value ((address, value) ∷ rest) x before =
    last_value rest x (if address == x then value else before)

abbrev pub AreAddresses : List (ℕ × ℕ) → Type 0
AreAddresses [] = Unit
AreAddresses ((address, value) ∷ rest) = (address < u64) × AreAddresses rest

length-values : (pairs : List (ℕ × ℕ)) → length (values pairs) ≡ length pairs
length-values [] = refl
length-values ((a, v) ∷ pairs) = ap suc (length-values pairs)

pub AreAddresses-drop :
    (n : ℕ) (pairs : List (ℕ × ℕ)) → AreAddresses pairs → AreAddresses (drop n pairs)
AreAddresses-drop zero pairs h = h
AreAddresses-drop (suc n) [] h = h
AreAddresses-drop (suc n) ((a, v) ∷ pairs) h = AreAddresses-drop n pairs h.1

last_value-split :
    (n : ℕ) (pairs : List (ℕ × ℕ)) (x before : ℕ)
    → last_value (drop n pairs) x (last_value (take n pairs) x before) ≡ last_value pairs x before
last_value-split zero pairs x before = refl
last_value-split (suc n) [] x before = refl
last_value-split (suc n) ((a, v) ∷ pairs) x before =
    last_value-split n pairs x (if a == x then v else before)

pub run_length_bounds :
    (room at run : ℕ) (rest : List (ℕ × ℕ))
    → run ≤ room
    → (run ≤ run_length room at run rest)
      × (run_length room at run rest ≤ room)
      × (run_length room at run rest ≤ run + length rest)
unfolding run_length
run_length_bounds room at run [] h = omega arith
run_length_bounds room at run ((a, v) ∷ rest) h =
    ground (arith, run_length_bounds room at (suc run) rest)

-- The pairs of a run are at addresses that go on from each other, so that one after another they leave what one store of them leaves.
run_values :
    (room at run : ℕ) (rest : List (ℕ × ℕ)) (k x before : ℕ)
    → run ≤ room
    → at + room ≤ u64
    → k + run ≡ run_length room at run rest
    → last_value (take k rest) x before ≡ (
        if leb (at + run) x && ltb x (at + run + k)
        then get_or (values rest) (x - (at + run)) 0
        else before)
unfolding run_length
run_values room at run rest zero x before h hr e = ground arith
run_values room at run [] (suc k) x before h hr e = absurd (omega arith)
run_values room at run ((a, v) ∷ rest) (suc k) x before h hr e = ground (
  arith,
  run_length_bounds room at (suc run) rest,
  run_values room at (suc run) rest k x (if a == x then v else before),
)

get_or-values :
    (value : ℕ) (rest : List (ℕ × ℕ)) (at x : ℕ)
    → at < x
    → get_or (value ∷ values rest) (x - at) 0 ≡ get_or (values rest) (x - (at + 1)) 0
get_or-values value rest at x h =
    ap (λ i. get_or (value ∷ values rest) i 0) {y = suc (x - (at + 1))} (omega arith)

-- One round of `writeAll`.
round_byte :
    (m : Memory) (at value : ℕ) (rest : List (ℕ × ℕ)) (x run : ℕ)
    → at < u64
    → x < u64
    → run ≡ run_length (word_size - word_offset at) at 1 rest
    → byte (store_in_word m at (take run (value ∷ values rest))) x
      ≡ last_value (take run ((at, value) ∷ rest)) x (byte m x)
round_byte m at value rest x zero ha hx e =
    absurd (omega (arith, run_length_bounds (word_size - word_offset at) at 1 rest))
round_byte m at value rest x (suc k) ha hx e =
    byte-store_in_word m at (take (suc k) (value ∷ values rest)) x ha hx (
      omega (
        arith,
        length-take k (values rest),
        run_length_bounds (word_size - word_offset at) at 1 rest,
      ))
    ∙ ground (
      arith,
      length-take k (values rest),
      length-values rest,
      run_length_bounds (word_size - word_offset at) at 1 rest,
      get_or-take k (values rest) (x - (at + 1)) 0,
      get_or-take (suc k) (value ∷ values rest) (x - at) 0,
      get_or-values value rest at x,
      run_values (word_size - word_offset at) at 1 rest k x (if at == x then value else byte m x),
    )

write_loop-byte :
    (fuel : ℕ) (m : Memory) (pairs : List (ℕ × ℕ)) (x : ℕ)
    → x < u64
    → AreAddresses pairs
    → length pairs ≤ fuel
    → byte (write_loop fuel m pairs) x ≡ last_value pairs x (byte m x)
unfolding write_loop
write_loop-byte zero m [] x hx ha hf = refl
write_loop-byte zero m (p ∷ pairs) x hx ha hf = absurd (omega arith)
write_loop-byte (suc fuel) m [] x hx ha hf = refl
write_loop-byte (suc fuel) m ((at, value) ∷ rest) x hx ha hf =
    let run = run_length (word_size - word_offset at) at 1 rest in
    let bounds = run_length_bounds (word_size - word_offset at) at 1 rest (omega arith) in
    let pairs = (at, value) ∷ rest in
    let m' = store_in_word m at (take run (value ∷ values rest)) in
    write_loop-byte fuel (note_step m' at run) (drop run pairs) x hx
      (AreAddresses-drop run pairs ha) (omega (arith, length-drop run pairs))
    ∙ ap (last_value (drop run pairs) x)
        (byte-note_step m' at run x ∙ round_byte m at value rest x run ha.0 hx refl)
    ∙ last_value-split run pairs x (byte m x)

-- `writeAll` leaves what writing its pairs one after another leaves: at each address the value of the last pair there, and what was there
-- where no pair is. That it writes runs of pairs as one word changes nothing of it.
pub byte-write_all :
    (m : Memory) (pairs : List (ℕ × ℕ)) (x : ℕ)
    → x < u64
    → AreAddresses pairs
    → byte (write_all m pairs) x ≡ last_value pairs x (byte m x)
unfolding write_all
byte-write_all m pairs x hx ha = write_loop-byte (length pairs) m pairs x hx ha (omega arith)

pub store_in_word-step :
    (m : Memory) (address : ℕ) (bytes : List ℕ)
    → ((store_in_word m address bytes).step_open ≡ m.step_open)
      × ((store_in_word m address bytes).step_writes ≡ m.step_writes)
      × ((store_in_word m address bytes).step_overflowed ≡ m.step_overflowed)
unfolding store_in_word put_page ensure write_page
store_in_word-step m address bytes = ground arith

-- A store within a word that is noted keeps a step from losing writes.
pub store_in_word-IsTracked :
    (start m : Memory) (address size : ℕ) (bytes : List ℕ)
    → address < u64
    → length bytes ≤ size
    → word_offset address + size ≤ word_size
    → IsTracked start m
    → IsTracked start (note_step (store_in_word m address bytes) address size)
store_in_word-IsTracked start m address size bytes ha hl hw t =
    let same = store_in_word-step m address bytes in
    note_step-IsTracked start m (store_in_word m address bytes) address size ha (omega arith) t
      same.0 same.1 same.2
      (λ x hx apart. ground (arith, byte-store_in_word m address bytes x ha hx))

write_loop-IsTracked :
    (start : Memory) (fuel : ℕ) (m : Memory) (pairs : List (ℕ × ℕ))
    → AreAddresses pairs
    → IsTracked start m
    → IsTracked start (write_loop fuel m pairs)
unfolding write_loop
write_loop-IsTracked start zero m pairs ha t = t
write_loop-IsTracked start (suc fuel) m [] ha t = t
write_loop-IsTracked start (suc fuel) m ((at, value) ∷ rest) ha t =
    let run = run_length (word_size - word_offset at) at 1 rest in
    let bounds = run_length_bounds (word_size - word_offset at) at 1 rest (omega arith) in
    let pairs = (at, value) ∷ rest in
    write_loop-IsTracked start fuel _ (drop run pairs) (AreAddresses-drop run pairs ha) (
      store_in_word-IsTracked start m at run (take run (value ∷ values rest)) ha.0
        (omega (arith, length-take run (value ∷ values rest))) (omega arith) t)

-- `writeAll` keeps an open step from losing writes.
pub write_all-IsTracked :
    (start m : Memory) (pairs : List (ℕ × ℕ))
    → AreAddresses pairs
    → IsTracked start m
    → IsTracked start (write_all m pairs)
unfolding write_all
write_all-IsTracked start m pairs ha t = write_loop-IsTracked start (length pairs) m pairs ha t
