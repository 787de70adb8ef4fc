-- ===== src/Jit/Chain/Add.antt =====
-- native/bap_jit.cpp: `bap_jit_chain_add`.
pub mod Decode
use bap.Common.{
  ℕ, zero, suc, ◌+◌, ◌-◌, ◌==◌, leb, ltb, if◌then◌else◌, Bool, true, false, not, ◌&&◌, ◌||◌, List,
  [], ◌∷◌, ◌++◌, Option, none, some, length,
}
use bap.Jit.Chain.{
  no_slot, Output, Shape, Code, ChainEntry, Entries, Chain, entry_at, erase, change_all,
}
use bap.Jit.Chain.Reader.{Reader, reader, next, read_list, write_list}

abbrev pub read_pair : Reader → (ℕ × ℕ) × Reader
read_pair r = let (a, r') = next r in let (b, r'') = next r' in ((a, b), r'')

abbrev pub output_of : ℕ → ℕ → ℕ → Output
output_of variable slot width = record {
  variable = variable;
  slot = slot;
  width = width;
  flag = no_slot;
}

abbrev pub read_output : Reader → Output × Reader
read_output r =
    let (variable, r1) = next r in
    let (slot, r2) = next r1 in let (width, r3) = next r2 in (output_of variable slot width, r3)

abbrev pub read_checkpoint : Reader → (ℕ × List Output) × Reader
read_checkpoint r =
    let (pc, r1) = next r in let (outputs, r2) = read_list read_output r1 in ((pc, outputs), r2)

-- The outputs of a checkpoint that is there already go after its own.
unfoldable pub put_checkpoint : ℕ → List Output → List (ℕ × List Output) → List (ℕ × List Output)
put_checkpoint pc outputs [] = (pc, outputs) ∷ []
put_checkpoint pc outputs ((p, own) ∷ checkpoints) =
    if p == pc
    then (p, own ++ outputs) ∷ checkpoints
    else (p, own) ∷ put_checkpoint pc outputs checkpoints

unfoldable pub gather : List (ℕ × List Output) → List (ℕ × List Output) → List (ℕ × List Output)
gather checkpoints [] = checkpoints
gather checkpoints ((pc, outputs) ∷ given) = gather (put_checkpoint pc outputs checkpoints) given

-- The array as it is read.
unfoldable pub decode : List ℕ → Shape × Reader
unfolding gather
decode numbers =
    let (slot_count, r1) = next (reader numbers) in
    let (effect_slot, r2) = next r1 in
    let (budget_slot, r3) = next r2 in
    let (observed_slot, r4) = next r3 in
    let (executions, r5) = next r4 in
    let (optimize_at, r6) = next r5 in
    let (zeroed, r7) = read_list next r6 in
    let (layout, r8) = read_list read_pair r7 in
    let (required, r9) = read_list next r8 in
    let (outputs, r10) = read_list read_output r9 in
    let (flags, r11) = read_list read_pair r10 in
    let (checkpoints, r12) = read_list read_checkpoint r11 in
    (
      record {
        slot_count = slot_count;
        effect_slot = effect_slot;
        budget_slot = budget_slot;
        observed_slot = observed_slot;
        executions = executions;
        optimize_at = optimize_at;
        zeroed = zeroed;
        layout = layout;
        required = required;
        outputs = outputs;
        flags = flags;
        checkpoints = gather [] checkpoints;
      },
      r12,
    )

abbrev pub fits : Shape → ℕ → Bool
fits shape slot = slot == no_slot || ltb slot shape.slot_count

abbrev pub output_fits : Shape → Output → Bool
output_fits shape output =
    ltb output.slot shape.slot_count && not (output.width == 0) && leb output.width 64

unfoldable pub all {ℓ} : {A : Type ℓ} → (A → Bool) → List A → Bool
all p [] = true
all p (x ∷ xs) = p x && all p xs

-- What isn't bad of a range, besides how it is read.
unfoldable pub is_sound : Shape → Code → Bool
is_sound shape code =
    not (ltb shape.slot_count code.max_slot)
    && fits shape shape.effect_slot
    && fits shape shape.budget_slot
    && fits shape shape.observed_slot
    && all (λ (binding : ℕ × ℕ). ltb (binding.1) shape.slot_count) shape.layout
    && all (output_fits shape) shape.outputs
    && all (λ (flag : ℕ × ℕ). ltb (flag.1) shape.slot_count) shape.flags
    && all (λ slot. ltb slot shape.slot_count) shape.zeroed
    && all (λ (checkpoint : ℕ × List Output). all (output_fits shape) (checkpoint.1))
        shape.checkpoints

-- `flagOf`: the slot of the first flag of the output's slot.
unfoldable pub flag_of : List (ℕ × ℕ) → Output → Output
flag_of [] output = output
flag_of ((slot, flag) ∷ flags) output =
    if slot == output.slot then record output { flag = flag } else flag_of flags output

unfoldable pub flag_all : List (ℕ × ℕ) → List Output → List Output
flag_all flags [] = []
flag_all flags (output ∷ outputs) = flag_of flags output ∷ flag_all flags outputs

unfoldable pub flag_checkpoints : List (ℕ × ℕ) → List (ℕ × List Output) → List (ℕ × List Output)
unfolding flag_all
flag_checkpoints flags [] = []
flag_checkpoints flags ((pc, outputs) ∷ checkpoints) =
    (pc, flag_all flags outputs) ∷ flag_checkpoints flags checkpoints

unfoldable pub with_flag : List Output → List Output
with_flag [] = []
with_flag (output ∷ outputs) =
    let rest = with_flag outputs in if output.flag == no_slot then rest else output ∷ rest

abbrev pub with_flags : Shape → Shape
with_flags shape = record shape {
  outputs = flag_all shape.flags shape.outputs;
  checkpoints = flag_checkpoints shape.flags shape.checkpoints;
}

-- The entry that goes in at a place.
abbrev pub new_entry : ℕ → ℕ → Code → Shape → ChainEntry
new_entry place id code shape = record {
  place = place;
  id = id;
  program = code.object;
  direct = code.direct;
  shape = with_flags shape;
  flagged = with_flag (flag_all shape.flags shape.outputs);
  last_next = no_slot;
  last_target = none;
  outputs_said = 0;
  ready_in = 0;
  touched = false;
  runs = 0;
  executed = 0;
}

abbrev pub forget_target : ChainEntry → ChainEntry
forget_target entry = record entry { last_target = none }

-- The entries without that of a pc, to which nothing points any more.
unfoldable pub without : Entries → ℕ → Entries
without entries pc = elim (entry_at entries pc) [
  | none ↦ entries
  | some old ↦ erase (change_all entries forget_target) pc
]

abbrev pub is_empty : List ℕ → Bool
is_empty [] = true
is_empty (x ∷ xs) = false

-- `bap_jit_chain_add`: `none` where it returns an error.
unfoldable pub add : Chain → ℕ → ℕ → Code → List ℕ → Option Chain
unfolding decode is_sound without
add chain pc id code numbers =
    let (shape, r) = decode numbers in
    if r.bad || not (is_empty r.rest) || not (is_sound shape code)
    then none
    else some (record chain {
      entries = (pc, new_entry chain.free_place id code shape) ∷ without chain.entries pc;
      free_place = chain.free_place + 1;
    })
