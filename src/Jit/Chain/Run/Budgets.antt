-- ===== src/Jit/Chain/Run/Budgets.antt =====
-- native/bap_jit.cpp: the loop of `bap_jit_run_chain` and its budget.
use bap.Common.{
  ℕ, zero, suc, ◌+◌, ◌-◌, ◌<◌, ◌≤◌, ◌≡◌, refl, List, Option, none, some, arith, inl, inr,
  Option-cases, get_or, subst,
}
use bap.Common.Word.{add64}
use bap.Jit.Chain.{ChainEntry, Chain, entry_at}
use bap.Jit.Chain.Run.{
  Ran, Loop, Outcome, goes_on, stops, fails, dangles, slot_or, ran_chained, budget_for, bind,
}
use bap.Jit.Chain.Run.Round.{round, rounds}
use bap.Jit.Chain.Run.Cases.{
  blocks_of, after_range, enter-elim, proceed-elim, finish-elim, round-elim, run_chain-elim,
}
use bap.Jit.Chain.Run.Ends.{
  Result, no_start, few_slots, failed, ended, dangled, runs_on, run_chain, end_run, start_loop,
  no_registers, info,
}

-- A loop that goes on has less of a budget, by at least the blocks that it notes to have entered.
unfoldable pub Spends : {M : Type 0} → Loop M → Outcome M → Type 0
Spends loop (goes_on after) =
    (after.budget < loop.budget) × (after.chained + after.budget ≤ loop.chained + loop.budget)
Spends loop (stops after next) = (after.budget ≡ loop.budget) × (after.chained ≡ loop.chained)
Spends loop (fails after error) = Unit
Spends loop dangles = Unit

pub budget_for-le : (target : ChainEntry) (budget : ℕ) → budget_for target budget ≤ budget
budget_for-le target budget = ground arith

module _ {M : Type 0} (execute : ℕ → List ℕ → (ℕ → ℕ) → M → Ran M) (run : ℕ) where
  pub round-Spends : (loop : Loop M) → Spends loop (round execute run loop)
  unfolding Spends
  round-Spends loop =
      round-elim execute run (Spends loop) loop tt (λ _ _ _ _. tt)
        (λ entry _ ran.
          finish-elim execute run (Spends loop) loop entry ran (refl, refl)
            (λ h.
              let after = after_range execute run loop entry ran in
              let more = blocks_of loop entry ran.slots in
              proceed-elim execute run (Spends loop) after more entry ran.next (refl, refl) tt
                (λ pc _ target _ _.
                  let le = budget_for-le target (loop.budget - more - 1) in
                  enter-elim execute run (Spends loop) _ more entry ran.next pc target (refl, refl)
                    (refl, refl) (omega arith, omega arith))))

  -- What the loop gives once it is over.
  pub IsOver : Loop M → Option (Outcome M) → Type 0
  IsOver loop none = ⊥
  IsOver loop (some (goes_on after)) = ⊥
  IsOver loop (some (stops after next)) = after.chained + after.budget ≤ loop.chained + loop.budget
  IsOver loop (some (fails after error)) = Unit
  IsOver loop (some dangles) = Unit

  IsOver-le :
      (loop after : Loop M) (o : Option (Outcome M))
      → after.chained + after.budget ≤ loop.chained + loop.budget
      → IsOver after o
      → IsOver loop o
  unfolding IsOver
  IsOver-le loop after none h k = elim k [ ]
  IsOver-le loop after (some (goes_on _)) h k = elim k [ ]
  IsOver-le loop after (some (stops end next)) h k = omega arith
  IsOver-le loop after (some (fails end error)) h k = tt
  IsOver-le loop after (some dangles) h k = tt

  -- A loop on as many rounds as its budget has blocks, and one, comes to its end.
  pub rounds-IsOver :
      (fuel : ℕ) (loop : Loop M) → loop.budget < fuel → IsOver loop (rounds execute run fuel loop)
  unfolding rounds IsOver Spends
  rounds-IsOver zero loop h = elim h [ ]
  rounds-IsOver (suc fuel) loop h =
      elim (round execute run loop)
          as (λ o. round execute run loop ≡ o → IsOver loop (rounds execute run (suc fuel) loop)) [
            | goes_on after ↦ λ e.
                let s = subst (Spends loop) e (round-Spends loop) in
                rw (rounds, e)
                  (IsOver-le loop after _ (s.1) (rounds-IsOver fuel after (omega (arith, s.0))))
            | stops after next ↦ λ e.
                let s = subst (Spends loop) e (round-Spends loop) in
                rw (rounds, e) (omega (arith, s))
            | fails after error ↦ λ e. rw (rounds, e) tt
            | dangles ↦ λ e. rw (rounds, e) tt
          ]
        refl

-- What a run gives by its budget: it came to an end, and entered no more blocks than the budget has.
unfoldable pub IsWithin : {M : Type 0} → ℕ → Result M → Type 0
IsWithin budget no_start = Unit
IsWithin budget few_slots = Unit
IsWithin budget (failed error chain) = Unit
IsWithin budget (ended next state info memory chain) = get_or info 1 0 ≤ budget
IsWithin budget dangled = Unit
IsWithin budget runs_on = ⊥

pub ran_chained-le : (budget left : ℕ) → ran_chained budget left ≤ budget
ran_chained-le budget left = ground arith

module _ {M : Type 0} (execute : ℕ → List ℕ → (ℕ → ℕ) → M → Ran M) where
  end_run-IsWithin :
      (run : ℕ) (chain : Chain) (loop : Loop M) (o : Option (Outcome M))
      → loop.chained ≡ 0
      → IsOver execute run loop o
      → IsWithin loop.budget (end_run chain o)
  unfolding end_run IsOver IsWithin info
  end_run-IsWithin run chain loop none z h = elim h [ ]
  end_run-IsWithin run chain loop (some (goes_on after)) z h = elim h [ ]
  end_run-IsWithin run chain loop (some (fails after error)) z h = tt
  end_run-IsWithin run chain loop (some dangles) z h = tt
  end_run-IsWithin run chain loop (some (stops after next)) z h =
      elim (Option-cases (entry_at after.entries after.current)) [
        | inl e ↦ rw (end_run, e) tt
        | inr (entry, e) ↦
            rw (end_run, e)
              (omega (
                arith,
                ran_chained-le after.budget
                    (slot_or after.state entry.shape.budget_slot after.budget),
              ))
      ]

  -- A run of a chain comes to its end, whatever the compiled programs do, and where it gives a result, the blocks that were entered after the
  -- first of all, the second of its numbers, are at most its budget.
  pub run_chain-IsWithin :
      (chain : Chain) (program : ℕ) (state : List ℕ) (memory : M)
      (first_id first_pc first_budget : ℕ) (variables values : List ℕ)
      → IsWithin first_budget (
          run_chain execute chain program state memory first_id first_pc first_budget variables
            values)
  unfolding IsWithin
  run_chain-IsWithin chain program state memory first_id first_pc first_budget variables values =
      run_chain-elim execute (IsWithin first_budget) chain program state memory first_id first_pc
        first_budget variables values tt tt
        (λ entry _ _.
          let run = add64 chain.run 1 in
          let loop =
            start_loop chain.entries first_pc first_budget state
              (bind no_registers variables values) memory in
          end_run-IsWithin run record chain { run = run } loop _ refl
            (rounds-IsOver execute run (first_budget + 1) loop (omega arith)))
