-- ===== src/Jit/Chain/Run/TakeBack.antt =====
-- native/bap_jit.cpp: what a run of a chain leaves in its entries, where it fails and where it doesn't.
use bap.Common.{
  ℕ, zero, suc, ◌+◌, ◌<◌, ◌≤◌, ◌≡◌, refl, ◌==◌, true, List, [], ◌∷◌, Option, none, some, arith,
  Bool-cases, inl, inr, ◌∙◌, Option-cases, ◌⊎◌, subst, sym,
}
use bap.Common.Word.{u64, add64}
use bap.Jit.Chain.{ChainEntry, Entries, Chain, entry_at, change}
use bap.Jit.Chain.Lookup.{entry_at-change}
use bap.Jit.Chain.Run.{Ran, Loop, Outcome, goes_on, stops, fails, dangles, bind}
use bap.Jit.Chain.Run.Ends.{
  Result, no_start, few_slots, failed, ended, dangled, runs_on, reset, uncount, change_each,
  start_loop, run_chain, end_run, no_registers,
}
use bap.Jit.Chain.Run.Round.{round, rounds}
use bap.Jit.Chain.Run.Cases.{run_chain-elim, Given}
use bap.Jit.Chain.Run.Budgets.{Spends, round-Spends}
use bap.Jit.Chain.Run.Counts.{total_executed, EndsCounted, round-EndsCounted}
use bap.Jit.Chain.Run.Told.{IsAtRest, has, Tells, IsTold, LeavesTold, Keeps, round-LeavesTold}

abbrev IsSame : ChainEntry → ChainEntry → Type 0
IsSame e0 e = (e.shape.executions ≡ e0.shape.executions) × IsAtRest e

abbrev IsMore : ChainEntry → ChainEntry → Type 0
IsMore e0 e = (e0.shape.executions ≤ e.shape.executions) × IsAtRest e

-- The entry of a pc after a run: at rest, and counted as often as it was before the run.
abbrev IsBack : Entries → ℕ → ChainEntry → Type 0
IsBack entries pc e0 = (e : ChainEntry) × (entry_at entries pc ≡ some e) × IsSame e0 e

-- The same of one that may be counted more often.
abbrev IsFurther : Entries → ℕ → ChainEntry → Type 0
IsFurther entries pc e0 = (e : ChainEntry) × (entry_at entries pc ≡ some e) × IsMore e0 e

-- What writes to the entries that were touched comes to for one entry, by what `f` keeps (`P`) and what it makes (`Q`).
change_each_lem :
    (P Q : ChainEntry → Type 0) (f : ChainEntry → ChainEntry)
    → ((e : ChainEntry) → P e → Q (f e))
    → ((e : ChainEntry) → Q e → Q (f e))
    → (entries : Entries) (pcs : List ℕ) (pc : ℕ) (e : ChainEntry) → entry_at entries pc ≡ some e
    → (P e × (has pcs pc ≡ true)) ⊎ Q e
    → (e' : ChainEntry) × (entry_at (change_each entries pcs f) pc ≡ some e') × Q e'
unfolding change_each has
change_each_lem P Q f make keep entries [] pc e h (inl (p, k)) = ground arith
change_each_lem P Q f make keep entries [] pc e h (inr q) = (e, h, q)
change_each_lem P Q f make keep entries (p ∷ pcs) pc e h c = elim (Bool-cases (p == pc)) [
  | inl k ↦
      change_each_lem P Q f make keep (change entries p f) pcs pc (f e)
        (entry_at-change entries p pc f ∙ rw (k, h) refl)
        (inr (elim c [ inl d ↦ make e (d.0) | inr q ↦ keep e q ]))
  | inr k ↦
      change_each_lem P Q f make keep (change entries p f) pcs pc e
        (entry_at-change entries p pc f ∙ rw (k, h) refl)
        (elim c [ inl d ↦ inl (d.0, ground (arith, d.1)) | inr q ↦ inr q ])
]

abbrev Counted : ChainEntry → ChainEntry → Type 0
Counted e0 x = x.shape.executions ≡ e0.shape.executions + x.executed

-- What is told is one of the touched entries, or at rest.
told-cases :
    (Q : ChainEntry → Type 0) (touched : List ℕ) (pc : ℕ) (e0 e : ChainEntry)
    → (Counted e0 e → IsAtRest e → Q e)
    → Tells touched pc e0 e
    → (Counted e0 e × (has touched pc ≡ true)) ⊎ Q e
told-cases Q touched pc e0 e rest t = elim t.2 [
  | inl flag ↦ inl (t.0, t.1 ∙ flag)
  | inr none_yet ↦ elim (Bool-cases e.touched) [
    | inl flag ↦ inl (t.0, t.1 ∙ flag)
    | inr flag ↦ inr (rest (t.0) (none_yet.0, none_yet.1, flag))
  ]
]

uncount-IsBack :
    (entries : Entries) (touched : List ℕ) (pc : ℕ) (e0 : ChainEntry)
    → IsTold entries touched pc e0
    → IsBack (change_each entries touched uncount) pc e0
uncount-IsBack entries touched pc e0 (e, h, t) =
    change_each_lem (Counted e0) (IsSame e0) uncount (λ x p. (omega (arith, p), (refl, refl, refl)))
      (λ x q. (omega (arith, q.0, q.1.0), (refl, refl, refl))) entries touched pc e h
      (told-cases (IsSame e0) touched pc e0 e (λ p r. (omega (arith, p, r.0), r)) t)

reset-IsFurther :
    (entries : Entries) (touched : List ℕ) (pc : ℕ) (e0 : ChainEntry)
    → IsTold entries touched pc e0
    → IsFurther (change_each entries touched reset) pc e0
reset-IsFurther entries touched pc e0 (e, h, t) =
    change_each_lem (Counted e0) (IsMore e0) reset (λ x p. (omega (arith, p), (refl, refl, refl)))
      (λ x q. (q.0, (refl, refl, refl))) entries touched pc e h
      (told-cases (IsMore e0) touched pc e0 e (λ p r. (omega (arith, p, r.0), r)) t)

-- What a run leaves of the entry of a pc: where it fails, as it was, and where it ends, counted at least as often, at rest both times.
unfoldable pub LeavesBack : {M : Type 0} → ℕ → ChainEntry → Result M → Type 0
LeavesBack pc e0 (failed error chain) = IsBack chain.entries pc e0
LeavesBack pc e0 (ended next state info memory chain) = IsFurther chain.entries pc e0
LeavesBack pc e0 no_start = Unit
LeavesBack pc e0 few_slots = Unit
LeavesBack pc e0 dangled = Unit
LeavesBack pc e0 runs_on = Unit

module _ {M : Type 0} (execute : ℕ → List ℕ → (ℕ → ℕ) → M → Ran M) (pc : ℕ) (e0 : ChainEntry) where
  rounds-LeavesTold :
      (run budget : ℕ) (fits : e0.shape.executions + budget < u64) (fuel : ℕ) (loop : Loop M)
      → Keeps execute run pc e0 budget fits loop
      → Given (LeavesTold pc e0) (rounds execute run fuel loop)
  unfolding rounds LeavesTold EndsCounted Spends
  rounds-LeavesTold run budget fits zero loop h = tt
  rounds-LeavesTold run budget fits (suc fuel) loop h =
      let told = round-LeavesTold execute run pc e0 budget fits loop h in
      elim (round execute run loop)
          as (λ o.
            round execute run loop ≡ o
            → Given (LeavesTold pc e0) (rounds execute run (suc fuel) loop)) [
              | goes_on after ↦ λ e.
                  let spent = subst (Spends loop) e (round-Spends execute run loop) in
                  rw (rounds, e)
                    (rounds-LeavesTold run budget fits fuel after (
                      subst (LeavesTold pc e0) e told,
                      subst EndsCounted e (round-EndsCounted execute run loop (h.1)),
                      omega (arith, spent, h.2),
                    ))
              | stops after next ↦ λ e. rw (rounds, e) (subst (LeavesTold pc e0) e told)
              | fails after error ↦ λ e. rw (rounds, e) (subst (LeavesTold pc e0) e told)
              | dangles ↦ λ e. rw (rounds, e) tt
            ]
        refl

  end_run-LeavesBack :
      (chain : Chain) (o : Option (Outcome M))
      → Given (LeavesTold pc e0) o
      → LeavesBack pc e0 (end_run chain o)
  unfolding end_run LeavesBack LeavesTold
  end_run-LeavesBack chain none h = tt
  end_run-LeavesBack chain (some (goes_on after)) h = tt
  end_run-LeavesBack chain (some dangles) h = tt
  end_run-LeavesBack chain (some (fails after error)) h =
      uncount-IsBack after.entries after.touched pc e0 h
  end_run-LeavesBack chain (some (stops after next)) h =
      elim (Option-cases (entry_at after.entries after.current)) [
        | inl e ↦ rw (end_run, e) tt
        | inr (entry, e) ↦ rw (end_run, e) (reset-IsFurther after.entries after.touched pc e0 h)
      ]

  -- With entries that counted nothing at its start, a run that fails leaves each entry counted as often as it was, and one that ends at
  -- least as often, and both leave it at rest, where its count and the budget are together within 64 bits.
  pub run_chain-LeavesBack :
      (chain : Chain) (program : ℕ) (state : List ℕ) (memory : M)
      (first_id first_pc first_budget : ℕ) (variables values : List ℕ)
      → entry_at chain.entries pc ≡ some e0
      → total_executed chain.entries ≡ 0
      → IsAtRest e0
      → e0.shape.executions + first_budget < u64
      → LeavesBack pc e0 (
          run_chain execute chain program state memory first_id first_pc first_budget variables
            values)
  unfolding LeavesBack LeavesTold has
  run_chain-LeavesBack chain program state memory first_id first_pc first_budget variables values at
        z rest fits =
      run_chain-elim execute (LeavesBack pc e0) chain program state memory first_id first_pc
        first_budget variables values tt tt
        (λ entry _ _.
          let run = add64 chain.run 1 in
          let loop =
            start_loop chain.entries first_pc first_budget state
              (bind no_registers variables values) memory in
          end_run-LeavesBack record chain { run = run } _
            (rounds-LeavesTold run first_budget fits (first_budget + 1) loop (
              (e0, at, (omega (arith, rest.0), sym rest.2, inr (rest.0, rest.1))),
              (omega (arith, z), omega (arith, fits)),
              omega arith,
            )))
