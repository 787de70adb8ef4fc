-- ===== src/Jit/Tests/Chains.antt =====
-- native/bap_jit.cpp: a chain of two ranges on a concrete input.
use bap.Common.{
  ℕ, ◌+◌, ◌≡◌, refl, ◌==◌, if◌then◌else◌, true, false, List, [], ◌∷◌, Option, none, some, length,
  arith,
}
use bap.Common.{Bool-cases, inl, inr, sym, ◌∙◌, ap}
use bap.Jit.Chain.{no_slot, Shape, Code, ChainEntry, Chain, create, entry_at, change}
use bap.Jit.Chain.Reader.{reader, read_list}
use bap.Jit.Chain.Add.{add, all, flag_checkpoints, flag_of, with_flag, decode}
use bap.Jit.Chain.Add.Decode.{encode, as_said, decode-encode}
use bap.Jit.Chain.Valid.{AddsFit, add-AddsFit, entry_fits}
use bap.Jit.Chain.Replace.{IsSoundIf, add-IsSound}
use bap.Jit.Chain.Run.Budgets.{IsWithin, run_chain-IsWithin}
use bap.Jit.Chain.Run.Counts.{total_executed, rounds-blocks_entered}
use bap.Jit.Chain.Run.TakeBack.{LeavesBack, run_chain-LeavesBack}
use bap.Jit.Chain.Run.Wired.{IsSound, IsSoundAfter, run_chain-IsSoundAfter}
use bap.Jit.Chain.Run.Slots.{slots_of, AllFit, KeepsRoomy, round-KeepsRoomy, length-set_slot}
use bap.Jit.Chain.Run.Round.{round, rounds}
use bap.Jit.Chain.Run.{
  Ran, set_slot, resize, Loop, Outcome, stops, are_bound, leave_all, outputs_at, checkpoint_at,
}
use bap.Jit.Chain.Run.Ends.{Result, ended, run_chain, start_loop, no_registers, blocks_entered}

abbrev code_of : ℕ → Code
code_of object = record { object = object; max_slot = 4; direct = false }

-- Five slots: the effect in 0, the budget in 1, the observed bits in 2, which are cleared with the effect, variable 6 in 3, which has to be bound and is
-- an output with its flag in 4.
abbrev some_numbers : List ℕ
some_numbers =
    5 ∷ 0 ∷ 1 ∷ 2 ∷ 0 ∷ no_slot ∷ 2 ∷ 0 ∷ 4 ∷ 1 ∷ 6 ∷ 3 ∷ 1 ∷ 6 ∷ 1 ∷ 6 ∷ 3 ∷ 64 ∷ 1 ∷ 3 ∷ 4 ∷ 0
    ∷ []

abbrev chain_or : Option Chain → Chain
chain_or none = create
chain_or (some chain) = chain

abbrev one_range : Chain
one_range = chain_or (add create 100 1 (code_of 7) some_numbers)

abbrev two_ranges : Chain
two_ranges = chain_or (add one_range 200 2 (code_of 8) some_numbers)

-- Each program writes one more to the variable and goes on, the first to 200 and the other to 300.
abbrev execute : ℕ → List ℕ → (ℕ → ℕ) → ℕ → Ran ℕ
execute object slots values memory = record {
  next = if object == 7 then 200 else 300;
  slots = set_slot (set_slot (set_slot slots 0 1) 4 1) 3 (memory + 10);
  values = values;
  cells = memory + 1;
  error = if object == 7 then none else (if memory == 1 then none else some 5);
  lean_ran = false;
}

abbrev state : List ℕ
state = 0 ∷ 9 ∷ 0 ∷ 40 ∷ 0 ∷ []

abbrev info_of : Result ℕ → List ℕ
info_of (ended next slots info memory chain) = next ∷ info
info_of r = []

-- It ends at 300 in the range 2 after one block, with variable 6 as the first range left it, and both ranges ran once.
run_gives :
    info_of (run_chain execute two_ranges 7 state 0 1 100 9 (6 ∷ []) (40 ∷ []))
    ≡ 300 ∷ 2 ∷ 1 ∷ 0 ∷ 1 ∷ 6 ∷ 10 ∷ 2 ∷ 1 ∷ 1 ∷ 0 ∷ 2 ∷ 1 ∷ 1 ∷ []
unfolding run_chain add set_slot entry_at read_list all change are_bound leave_all outputs_at
    checkpoint_at flag_checkpoints flag_of resize
run_gives = refl

run_chain-IsWithin_example :
    IsWithin 9 (run_chain execute two_ranges 7 state 0 1 100 9 (6 ∷ []) (40 ∷ []))
run_chain-IsWithin_example =
    run_chain-IsWithin execute two_ranges 7 state 0 1 100 9 (6 ∷ []) (40 ∷ [])

no_entry : {e : ChainEntry} → none ≡ some e → ⊥
no_entry h = ground arith

create-IsSound : IsSound create
unfolding entry_at
create-IsSound = (
  (λ pc place e h l. absurd (no_entry h), λ pc e h. absurd (no_entry h)),
  λ pc e h. absurd (no_entry h),
)

chain_or-IsSound : (o : Option Chain) → IsSoundIf o → IsSound (chain_or o)
unfolding IsSoundIf
chain_or-IsSound none h = create-IsSound
chain_or-IsSound (some chain) h = h

one_range-IsSound : IsSound one_range
one_range-IsSound =
    chain_or-IsSound (add create 100 1 (code_of 7) some_numbers)
      (add-IsSound create 100 1 (code_of 7) some_numbers create-IsSound)

two_ranges-IsSound : IsSound two_ranges
two_ranges-IsSound =
    chain_or-IsSound (add one_range 200 2 (code_of 8) some_numbers)
      (add-IsSound one_range 200 2 (code_of 8) some_numbers one_range-IsSound)

add-IsSound_example : IsSoundIf (add two_ranges 100 3 (code_of 9) some_numbers)
add-IsSound_example = add-IsSound two_ranges 100 3 (code_of 9) some_numbers two_ranges-IsSound

add-AddsFit_example : AddsFit 100 (add two_ranges 100 3 (code_of 9) some_numbers)
add-AddsFit_example = add-AddsFit two_ranges 100 3 (code_of 9) some_numbers

run_chain-IsSoundAfter_example :
    IsSoundAfter (run_chain execute two_ranges 7 state 0 1 100 9 (6 ∷ []) (40 ∷ []))
run_chain-IsSoundAfter_example =
    run_chain-IsSoundAfter execute two_ranges 7 state 0 1 100 9 (6 ∷ []) (40 ∷ [])
      two_ranges-IsSound

abbrev some_shape : Shape
some_shape = (decode some_numbers).0

decode-encode_example : decode (encode some_shape) ≡ (as_said some_shape, reader [])
decode-encode_example = decode-encode some_shape

abbrev entry_or : Option ChainEntry → ChainEntry
entry_or none = record {
  place = 0;
  id = 0;
  program = 0;
  direct = false;
  shape = some_shape;
  flagged = [];
  last_next = 0;
  last_target = none;
  outputs_said = 0;
  ready_in = 0;
  touched = false;
  runs = 0;
  executed = 0;
}
entry_or (some e) = e

abbrev first_entry : ChainEntry
first_entry = entry_or (entry_at two_ranges.entries 100)

first_there : entry_at two_ranges.entries 100 ≡ some first_entry
unfolding add entry_at all flag_checkpoints flag_of read_list
first_there = refl

none_executed : total_executed two_ranges.entries ≡ 0
unfolding add entry_at all flag_checkpoints flag_of read_list total_executed
none_executed = refl

first_small : first_entry.shape.executions ≡ 0
unfolding add entry_at all flag_checkpoints flag_of read_list
first_small = refl

first_rest : (first_entry.executed ≡ 0) × (first_entry.runs ≡ 0) × (first_entry.touched ≡ false)
unfolding add entry_at all flag_checkpoints flag_of read_list
first_rest = (refl, refl, refl)

-- The second range fails, and the run with it.
run_chain-LeavesBack_example :
    LeavesBack 100 first_entry (run_chain execute two_ranges 7 state 5 1 100 9 (6 ∷ []) (40 ∷ []))
run_chain-LeavesBack_example =
    run_chain-LeavesBack execute 100 first_entry two_ranges 7 state 5 1 100 9 (6 ∷ []) (40 ∷ [])
      first_there none_executed first_rest (omega (arith, first_small))

abbrev first_loop : Loop ℕ
first_loop = start_loop two_ranges.entries 100 9 state no_registers 0

abbrev loop_or : Option (Outcome ℕ) → Loop ℕ
loop_or (some (stops loop next)) = loop
loop_or o = first_loop

-- The first range binds the variable that the second one needs.
abbrev last_loop : Loop ℕ
last_loop = loop_or (rounds execute 1 10 first_loop)

rounds_stop : rounds execute 1 10 first_loop ≡ some (stops last_loop 300)
unfolding rounds add set_slot entry_at read_list all change are_bound leave_all outputs_at
    checkpoint_at flag_checkpoints flag_of resize
rounds_stop = refl

last_there :
    entry_at last_loop.entries last_loop.current
    ≡ some (entry_or (entry_at last_loop.entries last_loop.current))
unfolding rounds add set_slot entry_at read_list all change are_bound leave_all outputs_at
    checkpoint_at flag_checkpoints flag_of resize
last_there = refl

rounds-blocks_entered_example :
    total_executed last_loop.entries
    ≡ blocks_entered last_loop (entry_or (entry_at last_loop.entries last_loop.current))
rounds-blocks_entered_example =
    rounds-blocks_entered execute 1 10 two_ranges.entries 100 9 state no_registers 0 last_loop 300
      (entry_or (entry_at last_loop.entries last_loop.current)) none_executed (omega arith)
      rounds_stop last_there

abbrev second_entry : ChainEntry
second_entry = entry_or (entry_at two_ranges.entries 200)

two_fit :
    (p q : ℕ) (a b : ChainEntry)
    → (slots_of a).1 ≡ true
    → (slots_of b).1 ≡ true
    → AllFit ((p, a) ∷ (q, b) ∷ [])
unfolding entry_at
two_fit p q a b h k pc e at = elim (Bool-cases (p == pc)) [
  | inl l ↦ ap (λ x. (slots_of (entry_or x)).1) (sym (rw l at at)) ∙ h
  | inr l ↦ elim (Bool-cases (q == pc)) [
    | inl m ↦ ap (λ x. (slots_of (entry_or x)).1) (sym (rw (l, m) at at)) ∙ k
    | inr m ↦ absurd (no_entry (rw (l, m) at at))
  ]
]

second_fits : (slots_of second_entry).1 ≡ true
unfolding add entry_at all flag_checkpoints flag_of with_flag read_list slots_of entry_fits
second_fits = refl

first_fits : (slots_of first_entry).1 ≡ true
unfolding add entry_at all flag_checkpoints flag_of with_flag read_list slots_of entry_fits
first_fits = refl

all_fit : AllFit two_ranges.entries
unfolding add all flag_checkpoints flag_of read_list entry_at
all_fit = two_fit 200 100 second_entry first_entry second_fits first_fits

first_slots : (slots_of first_entry).0 ≡ 5
unfolding add entry_at all flag_checkpoints flag_of read_list slots_of
first_slots = refl

keeps_length :
    (program : ℕ) (slots : List ℕ) (values : ℕ → ℕ) (memory : ℕ)
    → length (execute program slots values memory).slots ≡ length slots
keeps_length program slots values memory =
    length-set_slot (set_slot (set_slot slots 0 1) 4 1) 3 (memory + 10)
    ∙ length-set_slot (set_slot slots 0 1) 4 1
    ∙ length-set_slot slots 0 1

round-KeepsRoomy_example : KeepsRoomy (round execute 1 first_loop)
round-KeepsRoomy_example =
    round-KeepsRoomy execute 1 first_loop keeps_length
      (all_fit, (first_entry, first_there, omega (arith, first_slots)))
