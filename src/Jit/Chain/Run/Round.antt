-- ===== src/Jit/Chain/Run/Round.antt =====
-- native/bap_jit.cpp: the loop of `bap_jit_run_chain`, and what comes before and after it.
use bap.Common.{
  ℕ, zero, suc, ◌+◌, ◌-◌, ◌==◌, ltb, if◌then◌else◌, true, false, not, ◌&&◌, ◌||◌, List, [], ◌∷◌,
  ◌++◌, Option, none, some,
}
use bap.Jit.Chain.{no_slot, ChainEntry, entry_at, change}
use bap.Jit.Chain.Run.{
  leave_all, outputs_at, outputs_to_say, note_said, Ran, Loop, Outcome, goes_on, stops, fails,
  dangles, entry_of, no_entry, gone, target_of, remember, slot_or, ran_chained, count_run,
  are_bound, is_due, budget_for, next_state,
}

module _ {M : Type 0} (execute : ℕ → List ℕ → (ℕ → ℕ) → M → Ran M) (run : ℕ) where
  -- The loop once the program ran and was counted, before it goes on.
  abbrev pub counted : Loop M → ChainEntry → Ran M → ℕ → Loop M
  counted loop entry ran executed = record loop {
    entries =
        change
          (if entry.direct
            then change loop.entries loop.current (note_said run ran.next)
            else loop.entries)
          loop.current (count_run executed);
    first = false;
    touched = if entry.touched then loop.touched else loop.touched ++ (loop.current ∷ []);
    state = ran.slots;
    registers =
        if entry.direct
        then leave_all false ran.slots (record (loop.registers) { value = ran.values })
            (outputs_to_say run entry ran.next)
        else loop.registers;
    memory = ran.cells;
  }

  -- The end of a round, with the budget that is left and the target found.
  abbrev pub move : Loop M → ℕ → ℕ → ChainEntry → Outcome M
  move loop more pc target =
      let budget = budget_for target (loop.budget - more - 1) in
      goes_on record loop {
        entries = change loop.entries pc (λ e. record e { ready_in = run });
        current = pc;
        state = next_state target loop.registers budget loop.spare;
        spare = loop.state;
        budget = budget;
        chained = loop.chained + more + 1;
      }

  -- That a range goes to another: `more` is how many blocks of the budget it took.
  unfoldable pub enter : Loop M → ℕ → ChainEntry → ℕ → ℕ → ChainEntry → Outcome M
  unfolding next_state
  enter loop more entry next pc target =
      let loop' = record loop {
        registers =
            if entry.direct
            then loop.registers
            else leave_all true loop.state loop.registers (outputs_at entry next);
      } in
      if is_due target
      then stops loop next
      else if not (target.ready_in == run)
          && not (are_bound (loop'.registers.bound) target.shape.required)
      then stops loop' next
      else move loop' more pc target

  -- What a range goes to.
  unfoldable pub proceed : Loop M → ℕ → ChainEntry → ℕ → Outcome M
  unfolding enter target_of
  proceed loop more entry next = elim (target_of loop.entries entry next) [
    | no_entry ↦ stops loop next
    | gone ↦ dangles
    | entry_of pc ↦ elim (entry_at loop.entries pc) [
      | none ↦ dangles
      | some target ↦
          let entries = change loop.entries loop.current (remember next target.place) in
          elim (entry_at entries pc) [
            | none ↦ dangles
            | some target' ↦ enter record loop { entries = entries } more entry next pc target'
          ]
    ]
  ]

  -- A round once its program ran without an error.
  unfoldable pub finish : Loop M → ChainEntry → Ran M → Outcome M
  unfolding proceed
  finish loop entry ran =
      let effect = slot_or ran.slots entry.shape.effect_slot 0 in
      let left = slot_or ran.slots entry.shape.budget_slot loop.budget in
      let more = ran_chained loop.budget left in
      let loop' = counted loop entry ran ((if loop.first then 0 else 1) + more) in
      if not (effect == 1)
        || ran.lean_ran
        || entry.shape.budget_slot == no_slot
        || ltb (loop.budget - more) 1
      then stops loop' ran.next
      else proceed loop' more entry ran.next

  -- A round of the loop.
  unfoldable pub round : Loop M → Outcome M
  unfolding finish
  round loop = elim (entry_at loop.entries loop.current) [
    | none ↦ dangles
    | some entry ↦
        let ran = execute entry.program loop.state loop.registers.value loop.memory in
        elim ran.error [
          | some error ↦
              fails
                record loop {
                  state = ran.slots;
                  memory = ran.cells;
                  registers = record (loop.registers) {
                    value = if entry.direct then ran.values else loop.registers.value;
                  };
                }
                error
          | none ↦ finish loop entry ran
        ]
  ]

  -- The loop, for at most so many rounds: `none` where it isn't over by then.
  unfoldable pub rounds : ℕ → Loop M → Option (Outcome M)
  unfolding round
  rounds zero loop = none
  rounds (suc fuel) loop = elim (round loop) [
    | goes_on after ↦ rounds fuel after
    | stops after next ↦ some (stops after next)
    | fails after error ↦ some (fails after error)
    | dangles ↦ some dangles
  ]
