-- ===== src/Jit/Chain/Run/Ends.antt =====
-- native/bap_jit.cpp: how `bap_jit_run_chain` starts and what it gives at its end. The stores of the run, which it also gives and which a
-- step is told of, are left to `M`.
use bap.Common.{
  ℕ, ◌+◌, ◌-◌, ◌==◌, ltb, min, if◌then◌else◌, true, false, not, ◌||◌, List, [], ◌∷◌, ◌++◌, Option,
  none, some, length,
}
use bap.Common.Word.{add64}
use bap.Jit.Chain.{ChainEntry, Entries, Chain, entry_at, change}
use bap.Jit.Chain.Run.{
  Registers, bind, Ran, Loop, Outcome, goes_on, stops, fails, dangles, slot_or, ran_chained,
}
use bap.Jit.Chain.Run.Round.{rounds}

-- What a run gives.
pub data Result (M : Type 0) : Type 0 where
  no_start : Result M
  few_slots : Result M
  failed : ℕ → Chain → Result M
  ended : ℕ → List ℕ → List ℕ → M → Chain → Result M
  dangled : Result M
  runs_on : Result M

abbrev pub reset : ChainEntry → ChainEntry
reset entry = record entry { touched = false; runs = 0; executed = 0 }

abbrev pub uncount : ChainEntry → ChainEntry
uncount entry = reset record entry {
  shape = record (entry.shape) {
    executions = entry.shape.executions - min entry.shape.executions entry.executed;
  };
}

-- A write to each of the entries of some pcs.
unfoldable pub change_each : Entries → List ℕ → (ChainEntry → ChainEntry) → Entries
change_each entries [] f = entries
change_each entries (pc ∷ pcs) f = change_each (change entries pc f) pcs f

-- The blocks that were entered after the first of all.
abbrev pub blocks_entered : {M : Type 0} → Loop M → ChainEntry → ℕ
blocks_entered loop entry =
    loop.chained + ran_chained loop.budget (slot_or loop.state entry.shape.budget_slot loop.budget)

unfoldable pub dirty_info : Registers → List ℕ → List ℕ
dirty_info registers [] = []
dirty_info registers (variable ∷ dirty) =
    variable ∷ registers.value variable ∷ dirty_info registers dirty

unfoldable pub touched_info : Entries → List ℕ → List ℕ
touched_info entries [] = []
touched_info entries (pc ∷ touched) =
    let rest = touched_info entries touched in
    elim (entry_at entries pc) [
      | none ↦ rest
      | some entry ↦ entry.id ∷ entry.runs ∷ entry.executed ∷ rest
    ]

unfoldable pub info : {M : Type 0} → Loop M → ChainEntry → List ℕ
unfolding dirty_info touched_info
info loop entry =
    entry.id
    ∷ blocks_entered loop entry
    ∷ (if entry.direct then 1 else 0)
    ∷ length loop.registers.dirty
    ∷ (dirty_info loop.registers loop.registers.dirty
        ++ (length loop.touched ∷ touched_info loop.entries loop.touched))

-- The end of a run, by how its loop ended.
unfoldable pub end_run : {M : Type 0} → Chain → Option (Outcome M) → Result M
unfolding info change_each
end_run chain none = runs_on
end_run chain (some (goes_on loop)) = runs_on
end_run chain (some dangles) = dangled
end_run chain (some (fails loop error)) =
    failed error record chain { entries = change_each loop.entries loop.touched uncount }
end_run chain (some (stops loop next)) = elim (entry_at loop.entries loop.current) [
  | none ↦ dangled
  | some entry ↦
      ended next loop.state (info loop entry) loop.memory
        record chain { entries = change_each loop.entries loop.touched reset }
]

abbrev pub no_registers : Registers
no_registers = record { value = λ _. 0; bound = λ _. 0; dirty = [] }

-- The loop's variables at its start.
abbrev pub start_loop : {M : Type 0} → Entries → ℕ → ℕ → List ℕ → Registers → M → Loop M
start_loop entries pc budget state registers memory = record {
  entries = entries;
  current = pc;
  first = true;
  touched = [];
  state = state;
  spare = [];
  budget = budget;
  chained = 0;
  registers = registers;
  memory = memory;
}

module _ {M : Type 0} (execute : ℕ → List ℕ → (ℕ → ℕ) → M → Ran M) where
  -- `bap_jit_run_chain`. It has as many rounds as its budget has blocks, and one.
  unfoldable pub run_chain : Chain → ℕ → List ℕ → M → ℕ → ℕ → ℕ → List ℕ → List ℕ → Result M
  unfolding end_run rounds bind
  run_chain chain program state memory first_id first_pc first_budget variables values =
      elim (entry_at chain.entries first_pc) [
        | none ↦ no_start
        | some entry ↦
            if not (entry.id == first_id) || not (entry.program == program)
            then no_start
            else if ltb (length state) entry.shape.slot_count
            then few_slots
            else let run = add64 chain.run 1 in
              let registers = bind no_registers variables values in
              end_run record chain { run = run }
                (rounds execute run (first_budget + 1)
                  (start_loop chain.entries first_pc first_budget state registers memory))
      ]
