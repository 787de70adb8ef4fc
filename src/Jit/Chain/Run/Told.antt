-- ===== src/Jit/Chain/Run/Told.antt =====
-- native/bap_jit.cpp: what the loop of `bap_jit_run_chain` makes of the entry of a pc.
use bap.Common.{
  ℕ, ◌+◌, ◌<◌, ◌≤◌, ◌≡◌, refl, ◌==◌, if◌then◌else◌, Bool, true, false, ◌||◌, List, [], ◌∷◌, ◌++◌,
  some, arith, Bool-cases, inl, inr, ◌∙◌, ◌⊎◌, subst, sym, ap,
}
use bap.Common.Word.{u64}
use bap.Jit.Chain.{ChainEntry, Entries, entry_at, change}
use bap.Jit.Chain.Lookup.{entry_at-change, entry_at-change_kept}
use bap.Jit.Chain.Run.{
  Ran, Loop, Outcome, goes_on, stops, fails, dangles, slot_or, count_run, note_said, remember,
}
use bap.Jit.Chain.Run.Round.{round}
use bap.Jit.Chain.Run.Cases.{
  note_said-kept, blocks_of, after_range, remembered, enter-elim, proceed-elim, finish-elim,
  round-elim,
}
use bap.Jit.Chain.Run.Counts.{
  total_executed, executed-le, IsCounted, found_unique, total_executed-change_kept,
  note_said-executed,
}
use bap.Jit.Chain.Run.Budgets.{ran_chained-le}

-- What a run did of an entry is told and forgotten.
abbrev pub IsAtRest : ChainEntry → Type 0
IsAtRest e = (e.executed ≡ 0) × (e.runs ≡ 0) × (e.touched ≡ false)

unfoldable pub has : List ℕ → ℕ → Bool
has [] pc = false
has (p ∷ pcs) pc = p == pc || has pcs pc

has-append : (pcs : List ℕ) (q pc : ℕ) → has (pcs ++ (q ∷ [])) pc ≡ has pcs pc || q == pc
unfolding has
has-append [] q pc = ground arith
has-append (p ∷ pcs) q pc = ground (arith, has-append pcs q pc)

has-touch_same :
    (touched : List ℕ) (q pc : ℕ) (flag : Bool)
    → q == pc ≡ true
    → has touched pc ≡ flag
    → has (if flag then touched else touched ++ (q ∷ [])) pc ≡ true
has-touch_same touched q pc flag k h = ground (arith, has-append touched q pc)

has-touch_other :
    (touched : List ℕ) (q pc : ℕ) (flag : Bool)
    → q == pc ≡ false
    → has (if flag then touched else touched ++ (q ∷ [])) pc ≡ has touched pc
has-touch_other touched q pc flag k = ground (arith, has-append touched q pc)

-- What a loop makes of the entry of a pc, which was `e0` at its start.
abbrev pub Tells : List ℕ → ℕ → ChainEntry → ChainEntry → Type 0
Tells touched pc e0 e =
    (e.shape.executions ≡ e0.shape.executions + e.executed)
    × (has touched pc ≡ e.touched)
    × ((e.touched ≡ true) ⊎ ((e.executed ≡ 0) × (e.runs ≡ 0)))

abbrev pub IsTold : Entries → List ℕ → ℕ → ChainEntry → Type 0
IsTold entries touched pc e0 =
    (e : ChainEntry) × (entry_at entries pc ≡ some e) × Tells touched pc e0 e

abbrev pub counters : ChainEntry → ℕ × ℕ × ℕ × Bool
counters e = (e.shape.executions, e.executed, e.runs, e.touched)

IsTold-change :
    (entries : Entries) (touched : List ℕ) (pc q : ℕ) (e0 : ChainEntry)
    (f : ChainEntry → ChainEntry)
    → ((e : ChainEntry) → counters (f e) ≡ counters e)
    → IsTold entries touched pc e0
    → IsTold (change entries q f) touched pc e0
IsTold-change entries touched pc q e0 f keeps (e, h, t) =
    let (e', h', k) = entry_at-change_kept counters entries q pc f e keeps h in
    (
      e',
      h',
      subst
          (λ (c : ℕ × ℕ × ℕ × Bool).
            (c.0 ≡ e0.shape.executions + c.1)
            × (has touched pc ≡ c.3)
            × ((c.3 ≡ true) ⊎ ((c.1 ≡ 0) × (c.2 ≡ 0))))
          (sym k) t,
    )

note_said-counters : (run next : ℕ) (e : ChainEntry) → counters (note_said run next e) ≡ counters e
note_said-counters run next e = note_said-kept counters (λ _ _. refl) run next e

-- The entry that a round counts is told of from then on.
IsTold-count_run :
    (entries : Entries) (touched : List ℕ) (pc q n limit : ℕ) (e0 entry : ChainEntry)
    → entry_at entries q ≡ some entry
    → total_executed entries + n ≤ limit
    → e0.shape.executions + limit < u64
    → IsTold entries touched pc e0
    → IsTold
        (change entries q (count_run n))
        (if entry.touched then touched else touched ++ (q ∷ []))
        pc
        e0
IsTold-count_run entries touched pc q n limit e0 entry at le fits (e, h, t) =
    elim (Bool-cases (q == pc)) [
      | inl k ↦
          let q_pc : q ≡ pc = ground arith in
          let same : e ≡ entry = found_unique at (rw q_pc h) in
          let small = executed-le entries pc e h in
          (
            count_run n e,
            entry_at-change entries q pc (count_run n) ∙ rw (k, h) refl,
            (
              omega (arith, t.0, small),
              subst
                  (λ (x : ChainEntry).
                    has (if x.touched then touched else touched ++ (q ∷ [])) pc ≡ true)
                  same (has-touch_same touched q pc e.touched k (t.1)),
              inl refl,
            ),
          )
      | inr k ↦ (
        e,
        entry_at-change entries q pc (count_run n) ∙ rw (k, h) refl,
        (t.0, has-touch_other touched q pc entry.touched k ∙ t.1, t.2),
      )
    ]

-- How a round leaves the entry.
unfoldable pub LeavesTold : {M : Type 0} → ℕ → ChainEntry → Outcome M → Type 0
LeavesTold pc e0 (goes_on after) = IsTold after.entries after.touched pc e0
LeavesTold pc e0 (stops after next) = IsTold after.entries after.touched pc e0
LeavesTold pc e0 (fails after error) = IsTold after.entries after.touched pc e0
LeavesTold pc e0 dangles = Unit

module _ {M : Type 0} (execute : ℕ → List ℕ → (ℕ → ℕ) → M → Ran M) (run : ℕ) (pc : ℕ)
    (e0 : ChainEntry) (budget : ℕ) (fits : e0.shape.executions + budget < u64) where
  -- What the loop keeps, where all it counts is within the budget it started with.
  abbrev pub Keeps : Loop M → Type 0
  Keeps loop =
      IsTold loop.entries loop.touched pc e0
      × IsCounted loop
      × (loop.chained + loop.budget ≤ budget)

  after_range-IsTold :
      (loop : Loop M) (entry : ChainEntry) (ran : Ran M)
      → entry_at loop.entries loop.current ≡ some entry
      → Keeps loop
      → IsTold
          (after_range execute run loop entry ran).entries
          (after_range execute run loop entry ran).touched
          pc
          e0
  after_range-IsTold loop entry ran at h =
      let n = (if loop.first then 0 else 1) + blocks_of loop entry ran.slots in
      let say = note_said run ran.next in
      let le = ran_chained-le loop.budget (slot_or ran.slots entry.shape.budget_slot loop.budget) in
      elim (Bool-cases entry.direct) [
        | inr d ↦ rw d (
            IsTold-count_run loop.entries loop.touched pc loop.current n budget e0 entry at
              (omega (arith, h.1, h.2, le)) fits (h.0))
        | inl d ↦
            let said = change loop.entries loop.current say in
            let total =
              total_executed-change_kept loop.entries loop.current say
                (note_said-executed run ran.next) in
            let told =
              IsTold-count_run said loop.touched pc loop.current n budget e0 (say entry)
                (entry_at-change loop.entries loop.current loop.current say ∙ ground (arith, at))
                (omega (arith, h.1, h.2, le, total)) fits
                (IsTold-change loop.entries loop.touched pc loop.current e0 say
                  (note_said-counters run ran.next) (h.0)) in
            rw d (
              subst
                (λ (flag : Bool).
                  IsTold (change said loop.current (count_run n))
                    (if flag then loop.touched else loop.touched ++ (loop.current ∷ [])) pc e0)
                (ap (λ (c : ℕ × ℕ × ℕ × Bool). c.3) (note_said-counters run ran.next entry)) told)
      ]

  pub round-LeavesTold : (loop : Loop M) → Keeps loop → LeavesTold pc e0 (round execute run loop)
  unfolding LeavesTold
  round-LeavesTold loop h =
      round-elim execute run (LeavesTold pc e0) loop tt (λ after error e t. rw (e, t) (h.0))
        (λ entry e ran.
          let more = blocks_of loop entry ran.slots in
          let after = after_range execute run loop entry ran in
          let told = after_range-IsTold loop entry ran e h in
          finish-elim execute run (LeavesTold pc e0) loop entry ran told (λ lt.
            proceed-elim execute run (LeavesTold pc e0) after more entry ran.next told tt
              (λ q target target' _ _.
                let there = remembered execute run after ran.next target in
                let kept =
                  IsTold-change after.entries after.touched pc after.current e0
                    (remember ran.next target.place) (λ _. refl) told in
                enter-elim execute run (LeavesTold pc e0) there more entry ran.next q target' kept
                  kept
                  (IsTold-change there.entries there.touched pc q e0
                    (λ x. record x { ready_in = run }) (λ _. refl) kept))))
