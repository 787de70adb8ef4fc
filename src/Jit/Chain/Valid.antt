-- ===== src/Jit/Chain/Valid.antt =====
-- native/bap_jit.cpp: the entries that `bap_jit_chain_add` puts in use the slots that they have.
use bap.Common.{
  ℕ, zero, suc, ◌≡◌, refl, ◌==◌, ltb, if◌then◌else◌, Bool, true, false, not, ◌&&◌, ◌||◌, List, [],
  ◌∷◌, ◌++◌, Option, none, some, arith, Bool-cases, inl, inr,
}
use bap.Jit.Chain.{no_slot, Output, Shape, Code, ChainEntry, Chain, entry_at}
use bap.Jit.Chain.Reader.{Reader, reader, next, read_many, read_list}
use bap.Jit.Chain.Add.{
  add, new_entry, is_sound, is_empty, decode, all, fits, output_fits, flag_of, flag_all,
  flag_checkpoints, with_flag, with_flags, read_pair, read_output, read_checkpoint, put_checkpoint,
  gather,
}

-- An output in a slot there is, with a flag in one if it has a flag.
abbrev pub flagged_fits : Shape → Output → Bool
flagged_fits shape output = output_fits shape output && fits shape output.flag

-- What a run uses of the slots is there.
unfoldable pub entry_fits : Shape → List Output → Bool
entry_fits shape flagged =
    fits shape shape.effect_slot
    && fits shape shape.budget_slot
    && fits shape shape.observed_slot
    && all (λ (binding : ℕ × ℕ). ltb (binding.1) shape.slot_count) shape.layout
    && all (flagged_fits shape) shape.outputs
    && all (flagged_fits shape) flagged
    && all (λ slot. ltb slot shape.slot_count) shape.zeroed
    && all (λ (checkpoint : ℕ × List Output). all (flagged_fits shape) (checkpoint.1))
        shape.checkpoints

abbrev no_flag : Output → Bool
no_flag output = output.flag == no_slot

abbrev no_flags : ℕ × List Output → Bool
no_flags checkpoint = all no_flag (checkpoint.1)

both {ℓ} :
    {A : Type ℓ} (p : A → Bool) (x : A) (xs : List A)
    → p x ≡ true
    → all p xs ≡ true
    → all p (x ∷ xs) ≡ true
unfolding all
both p x xs h k = ground arith

unless_bad {ℓ} :
    {A : Type ℓ} (p : A → Bool) (bad : Bool) (r : Reader) (read : List A × Reader)
    → all p (read.0) ≡ true
    → all p (if bad then ([], r) else read).0 ≡ true
unfolding all
unless_bad p true r read h = refl
unless_bad p false r read h = h

all_none {ℓ} : {A : Type ℓ} (p : A → Bool) → all p [] ≡ true
unfolding all
all_none p = refl

read_many-all {ℓ} :
    {A : Type ℓ} (p : A → Bool) (one : Reader → A × Reader)
    → ((r : Reader) → p (one r).0 ≡ true)
    → (count : ℕ) (r : Reader) → all p (read_many one count r).0 ≡ true
unfolding all read_many
read_many-all p one h zero r = refl
read_many-all p one h (suc count) r =
    let rest = read_many one count (one r).1 in
    unless_bad p r.bad r ((one r).0 ∷ rest.0, rest.1)
      (both p (one r).0 rest.0 (h r) (read_many-all p one h count (one r).1))

read_list-all {ℓ} :
    {A : Type ℓ} (p : A → Bool) (one : Reader → A × Reader)
    → ((r : Reader) → p (one r).0 ≡ true)
    → (r : Reader) → all p (read_list one r).0 ≡ true
unfolding read_list
read_list-all p one h r = read_many-all p one h (next r).0 (next r).1

all-append {ℓ} :
    {A : Type ℓ} (p : A → Bool) (xs ys : List A)
    → all p xs ≡ true
    → all p ys ≡ true
    → all p (xs ++ ys) ≡ true
unfolding all
all-append p [] ys h k = k
all-append p (x ∷ xs) ys h k = ground (arith, all-append p xs ys)

put_checkpoint-all :
    (pc : ℕ) (outputs : List Output) (checkpoints : List (ℕ × List Output))
    → all no_flag outputs ≡ true
    → all no_flags checkpoints ≡ true
    → all no_flags (put_checkpoint pc outputs checkpoints) ≡ true
unfolding all put_checkpoint
put_checkpoint-all pc outputs [] h k = ground arith
put_checkpoint-all pc outputs ((p, own) ∷ checkpoints) h k =
    ground (arith, all-append no_flag own outputs, put_checkpoint-all pc outputs checkpoints h)

gather-all :
    (checkpoints given : List (ℕ × List Output))
    → all no_flags checkpoints ≡ true
    → all no_flags given ≡ true
    → all no_flags (gather checkpoints given) ≡ true
unfolding all gather
gather-all checkpoints [] h k = h
gather-all checkpoints ((pc, outputs) ∷ given) h k =
    gather-all (put_checkpoint pc outputs checkpoints) given
      (put_checkpoint-all pc outputs checkpoints (ground arith) h) (ground arith)

-- No output is read with a flag.
decode-no_flag :
    (numbers : List ℕ)
    → (all no_flag (decode numbers).0.outputs ≡ true)
      × (all no_flags (decode numbers).0.checkpoints ≡ true)
unfolding decode read_list
decode-no_flag numbers =
    let r3 = (next (next (next (reader numbers)).1).1).1 in
    let r6 = (next (next (next r3).1).1).1 in
    let r9 = (read_list next (read_list read_pair (read_list next r6).1).1).1 in
    let r11 = (read_list read_pair (read_list read_output r9).1).1 in
    let checkpoint_all = λ (r : Reader). read_list-all no_flag read_output (λ _. refl) (next r).1 in
    (
      read_list-all no_flag read_output (λ _. refl) r9,
      gather-all [] (read_list read_checkpoint r11).0 (all_none no_flags)
          (read_list-all no_flags read_checkpoint checkpoint_all r11),
    )

module _ (shape : Shape) where
  abbrev flag_fits : ℕ × ℕ → Bool
  flag_fits flag = ltb (flag.1) shape.slot_count

  flag_of-fits :
      (flags : List (ℕ × ℕ)) (output : Output)
      → all flag_fits flags ≡ true
      → output_fits shape output ≡ true
      → no_flag output ≡ true
      → flagged_fits shape (flag_of flags output) ≡ true
  unfolding all flag_of
  flag_of-fits [] output h k n = ground arith
  flag_of-fits ((slot, flag) ∷ flags) output h k n = ground (arith, flag_of-fits flags output)

  flag_all-fits :
      (flags : List (ℕ × ℕ)) (outputs : List Output)
      → all flag_fits flags ≡ true
      → all (output_fits shape) outputs ≡ true
      → all no_flag outputs ≡ true
      → all (flagged_fits shape) (flag_all flags outputs) ≡ true
  unfolding all flag_all
  flag_all-fits flags [] h k n = refl
  flag_all-fits flags (output ∷ outputs) h k n =
      both (flagged_fits shape) (flag_of flags output) (flag_all flags outputs)
        (flag_of-fits flags output h (ground arith) (ground arith))
        (flag_all-fits flags outputs h (ground arith) (ground arith))

  flag_checkpoints-fits :
      (flags : List (ℕ × ℕ)) (checkpoints : List (ℕ × List Output))
      → all flag_fits flags ≡ true
      → all (λ (checkpoint : ℕ × List Output). all (output_fits shape) (checkpoint.1)) checkpoints
        ≡ true
      → all no_flags checkpoints ≡ true
      → all
          (λ (checkpoint : ℕ × List Output). all (flagged_fits shape) (checkpoint.1))
          (flag_checkpoints flags checkpoints)
        ≡ true
  unfolding all flag_checkpoints
  flag_checkpoints-fits flags [] h k n = refl
  flag_checkpoints-fits flags ((pc, outputs) ∷ checkpoints) h k n =
      both (λ (checkpoint : ℕ × List Output). all (flagged_fits shape) (checkpoint.1))
        (pc, flag_all flags outputs) (flag_checkpoints flags checkpoints)
        (flag_all-fits flags outputs h (ground arith) (ground arith))
        (flag_checkpoints-fits flags checkpoints h (ground arith) (ground arith))

  with_flag-fits :
      (outputs : List Output)
      → all (flagged_fits shape) outputs ≡ true
      → all (flagged_fits shape) (with_flag outputs) ≡ true
  unfolding all with_flag
  with_flag-fits [] h = refl
  with_flag-fits (output ∷ outputs) h = ground (arith, with_flag-fits outputs)

-- What a chain is once something was added to it, if its entries fit.
unfoldable pub AddsFit : ℕ → Option Chain → Type 0
AddsFit pc none = Unit
AddsFit pc (some chain) =
    (e : ChainEntry) × (entry_at chain.entries pc ≡ some e) × (entry_fits e.shape e.flagged ≡ true)

sound_fits :
    (shape : Shape) (code : Code)
    → is_sound shape code ≡ true
    → all no_flag shape.outputs ≡ true
    → all no_flags shape.checkpoints ≡ true
    → entry_fits (with_flags shape) (with_flag (flag_all shape.flags shape.outputs)) ≡ true
unfolding is_sound entry_fits
sound_fits shape code h k n =
    let outputs = flag_all-fits shape shape.flags shape.outputs (ground arith) (ground arith) k in
    let flagged = with_flag-fits shape (flag_all shape.flags shape.outputs) outputs in
    let checkpoints =
      flag_checkpoints-fits shape shape.flags shape.checkpoints (ground arith) (ground arith) n in
    ground (arith, outputs, flagged, checkpoints)

-- The entry that `bap_jit_chain_add` puts at a pc uses no slot that it doesn't have: those of its effect, budget and observed bits, if it
-- has them, of its variables, of all its outputs and their flags, and of what is cleared.
pub add-AddsFit :
    (chain : Chain) (pc id : ℕ) (code : Code) (numbers : List ℕ)
    → AddsFit pc (add chain pc id code numbers)
unfolding add AddsFit entry_at
add-AddsFit chain pc id code numbers =
    let shape = (decode numbers).0 in
    let r = (decode numbers).1 in
    let (outputs, checkpoints) = decode-no_flag numbers in
    elim (Bool-cases (r.bad || not (is_empty r.rest) || not (is_sound shape code))) [
      | inl k ↦ rw (add, k) tt
      | inr k ↦
          rw (add, k)
            (
              new_entry chain.free_place id code shape,
              ground arith,
              sound_fits shape code (ground arith) outputs checkpoints,
            )
    ]
