-- ===== src/Jit/Chain/Run/Counts.antt =====
-- native/bap_jit.cpp: what `bap_jit_run_chain` counts of each range.
use bap.Common.{
  ℕ, ◌+◌, ◌-◌, ◌<◌, ◌≤◌, ◌≡◌, refl, ◌==◌, if◌then◌else◌, List, [], ◌∷◌, Option, none, some, arith,
  Bool-cases, inl, inr, ◌∙◌, subst, sym, ap,
}
use bap.Common.Word.{u64}
use bap.Jit.Chain.{ChainEntry, Entries, entry_at, change}
use bap.Jit.Chain.Lookup.{entry_at-change, entry_at-change_before}
use bap.Jit.Chain.Run.Ends.{blocks_entered, start_loop}
use bap.Jit.Chain.Run.Round.{round, rounds}
use bap.Jit.Chain.Run.Budgets.{budget_for-le, ran_chained-le}
use bap.Jit.Chain.Run.Cases.{
  Given, rounds-elim, note_said-kept, left_by, blocks_of, after_range, remembered, enter-elim,
  proceed-elim, finish-elim, round-elim,
}
use bap.Jit.Chain.Run.{
  Ran, Loop, Outcome, goes_on, stops, fails, dangles, slot_or, ran_chained, Registers, count_run,
  note_said, remember,
}

-- The sum of what the entries count as entered.
unfoldable pub total_executed : Entries → ℕ
total_executed [] = 0
total_executed ((p, e) ∷ entries) = e.executed + total_executed entries

pub total_executed-change_kept :
    (entries : Entries) (pc : ℕ) (f : ChainEntry → ChainEntry)
    → ((e : ChainEntry) → (f e).executed ≡ e.executed)
    → total_executed (change entries pc f) ≡ total_executed entries
unfolding total_executed change
total_executed-change_kept [] pc f h = refl
total_executed-change_kept ((p, e) ∷ entries) pc f h =
    ground (arith, h e, total_executed-change_kept entries pc f h)

pub executed-le :
    (entries : Entries) (pc : ℕ) (e : ChainEntry)
    → entry_at entries pc ≡ some e
    → e.executed ≤ total_executed entries
unfolding total_executed entry_at
executed-le [] pc e h = ground arith
executed-le ((p, e') ∷ entries) pc e h = ground (arith, executed-le entries pc e)

total_executed-count_run :
    (entries : Entries) (pc n : ℕ) (e : ChainEntry)
    → entry_at entries pc ≡ some e
    → total_executed entries + n < u64
    → total_executed (change entries pc (count_run n)) ≡ total_executed entries + n
unfolding total_executed change entry_at
total_executed-count_run [] pc n e h k = ground arith
total_executed-count_run ((p, e') ∷ entries) pc n e h k =
    ground (arith, total_executed-count_run entries pc n e)

pub note_said-executed :
    (run next : ℕ) (e : ChainEntry) → (note_said run next e).executed ≡ e.executed
note_said-executed run next e = note_said-kept (λ x. x.executed) (λ _ _. refl) run next e

note_said-budget_slot :
    (run next : ℕ) (e : ChainEntry) → (note_said run next e).shape.budget_slot ≡ e.shape.budget_slot
note_said-budget_slot run next e =
    note_said-kept (λ x. x.shape.budget_slot) (λ _ _. refl) run next e

-- The entry of a pc has its budget in a slot.
abbrev HasBudgetIn : Entries → ℕ → ℕ → Type 0
HasBudgetIn entries pc slot =
    (e : ChainEntry) → entry_at entries pc ≡ some e → e.shape.budget_slot ≡ slot

change-HasBudgetIn :
    (entries : Entries) (pc q slot : ℕ) (f : ChainEntry → ChainEntry)
    → ((e : ChainEntry) → (f e).shape.budget_slot ≡ e.shape.budget_slot)
    → HasBudgetIn entries q slot
    → HasBudgetIn (change entries pc f) q slot
change-HasBudgetIn entries pc q slot f keeps h e' k =
    let (e, l, m) = entry_at-change_before entries pc q f e' k in
    elim (Bool-cases (pc == q)) [
      | inl b ↦ ap (λ (x : ChainEntry). x.shape.budget_slot) m ∙ rw b (keeps e ∙ h e l)
      | inr b ↦ ap (λ (x : ChainEntry). x.shape.budget_slot) m ∙ rw b (h e l)
    ]

-- The entries count what the loop does, once `more` blocks are counted that the loop hasn't noted yet.
abbrev Settled : {M : Type 0} → ℕ → ℕ → Loop M → Type 0
Settled slot more loop =
    (total_executed loop.entries ≡ loop.chained + more) × HasBudgetIn loop.entries loop.current slot

count_run-HasBudgetIn :
    (entries : Entries) (pc n total slot : ℕ) (e : ChainEntry)
    → entry_at entries pc ≡ some e
    → total_executed entries ≡ total
    → total + n < u64
    → HasBudgetIn entries pc slot
    → (total_executed (change entries pc (count_run n)) ≡ total + n)
      × HasBudgetIn (change entries pc (count_run n)) pc slot
count_run-HasBudgetIn entries pc n total slot e h t k b = (
  total_executed-count_run entries pc n e h (omega arith) ∙ rw t refl,
  change-HasBudgetIn entries pc pc slot (count_run n) (λ _. refl) b,
)

-- Before a round, they lack the block that the range of the round starts with, unless it is the first.
abbrev pub IsCounted : {M : Type 0} → Loop M → Type 0
IsCounted loop =
    (total_executed loop.entries + (if loop.first then 0 else 1) ≡ loop.chained)
    × (loop.chained + loop.budget < u64)

unfoldable pub EndsCounted : {M : Type 0} → Outcome M → Type 0
EndsCounted (goes_on after) = IsCounted after
EndsCounted (stops after next) =
    (e : ChainEntry)
    → entry_at after.entries after.current ≡ some e
    → total_executed after.entries ≡ blocks_entered after e
EndsCounted (fails after error) = Unit
EndsCounted dangles = Unit

pub found_unique : {o : Option ChainEntry} {e e' : ChainEntry} → o ≡ some e → o ≡ some e' → e' ≡ e
found_unique {o} {e} h k =
    ap (λ (x : Option ChainEntry). elim x [ none ↦ e | some y ↦ y ]) (sym k ∙ h)

module _ {M : Type 0} (execute : ℕ → List ℕ → (ℕ → ℕ) → M → Ran M) (run : ℕ) where
  after_range-Settled :
      (loop : Loop M) (entry : ChainEntry) (ran : Ran M)
      → entry_at loop.entries loop.current ≡ some entry
      → IsCounted loop
      → Settled entry.shape.budget_slot
          (blocks_of loop entry ran.slots)
          (after_range execute run loop entry ran)
  after_range-Settled loop entry ran e h =
      let more = blocks_of loop entry ran.slots in
      let n = (if loop.first then 0 else 1) + more in
      let slot = entry.shape.budget_slot in
      let say = note_said run ran.next in
      let total = total_executed loop.entries in
      let le = ran_chained-le loop.budget (slot_or ran.slots slot loop.budget) in
      let sum : total + n ≡ loop.chained + more = omega (arith, h.0) in
      let fits : total + n < u64 = omega (arith, h.1, sum, le) in
      let has : HasBudgetIn loop.entries loop.current slot =
        λ e' k. ap (λ (x : ChainEntry). x.shape.budget_slot) (found_unique e k) in
      elim (Bool-cases entry.direct) [
        | inr d ↦
            let c =
              count_run-HasBudgetIn loop.entries loop.current n total slot entry e refl fits has in
            rw d (c.0 ∙ sum, c.1)
        | inl d ↦
            let c =
              count_run-HasBudgetIn (change loop.entries loop.current say) loop.current n total slot
                (say entry)
                (entry_at-change loop.entries loop.current loop.current say ∙ ground (arith, e))
                (total_executed-change_kept loop.entries loop.current say
                  (note_said-executed run ran.next))
                fits
                (change-HasBudgetIn loop.entries loop.current loop.current slot say
                  (note_said-budget_slot run ran.next) has) in
            rw d (c.0 ∙ sum, c.1)
      ]

  stops-EndsCounted :
      (loop : Loop M) (slot next : ℕ)
      → Settled slot (ran_chained loop.budget (slot_or loop.state slot loop.budget)) loop
      → EndsCounted (stops loop next)
  unfolding EndsCounted
  stops-EndsCounted loop slot next h e k = rw (h.1 e k) (h.0)

  pub round-EndsCounted : (loop : Loop M) → IsCounted loop → EndsCounted (round execute run loop)
  unfolding EndsCounted
  round-EndsCounted loop h =
      round-elim execute run EndsCounted loop tt (λ _ _ _ _. tt)
        (λ entry e ran.
          let slot = entry.shape.budget_slot in
          let more = blocks_of loop entry ran.slots in
          let after = after_range execute run loop entry ran in
          let settled = after_range-Settled loop entry ran e h in
          finish-elim execute run EndsCounted loop entry ran
            (stops-EndsCounted after slot ran.next settled)
            (λ lt.
              proceed-elim execute run EndsCounted after more entry ran.next
                (stops-EndsCounted after slot ran.next settled) tt
                (λ pc target target' _ _.
                  let there = remembered execute run after ran.next target in
                  let total =
                    total_executed-change_kept after.entries after.current
                      (remember ran.next target.place) (λ _. refl) in
                  let kept : Settled slot more there = (
                    total ∙ settled.0,
                    change-HasBudgetIn after.entries after.current after.current slot
                        (remember ran.next target.place) (λ _. refl) (settled.1),
                  ) in
                  enter-elim execute run EndsCounted there more entry ran.next pc target'
                    (stops-EndsCounted there slot ran.next kept)
                    (stops-EndsCounted (left_by there entry ran.next) slot ran.next kept)
                    (
                      ap (λ x. x + 1)
                          (total_executed-change_kept there.entries pc
                              (λ x. record x { ready_in = run }) (λ _. refl)
                            ∙ kept.0),
                      omega (arith, h.1, lt, budget_for-le target' (loop.budget - more - 1)),
                    ))))

  rounds-EndsCounted :
      (fuel : ℕ) (loop : Loop M) → IsCounted loop → Given EndsCounted (rounds execute run fuel loop)
  unfolding EndsCounted
  rounds-EndsCounted fuel loop h = rounds-elim execute run EndsCounted round-EndsCounted fuel loop h

  -- Where the loop of a run stops, with entries that counted nothing at its start and a budget of 64 bits, what the entries counted as entered
  -- comes to the blocks that the run says were entered after the first of all.
  pub rounds-blocks_entered :
      (fuel : ℕ) (entries : Entries) (pc budget : ℕ) (state : List ℕ) (registers : Registers)
      (memory : M) (after : Loop M) (next : ℕ) (e : ChainEntry)
      → total_executed entries ≡ 0
      → budget < u64
      → rounds execute run fuel (start_loop entries pc budget state registers memory)
        ≡ some (stops after next)
      → entry_at after.entries after.current ≡ some e
      → total_executed after.entries ≡ blocks_entered after e
  unfolding EndsCounted
  rounds-blocks_entered fuel entries pc budget state registers memory after next e z h r =
      subst (Given EndsCounted) r
        (rounds-EndsCounted fuel (start_loop entries pc budget state registers memory)
          (omega (arith, z), omega (arith, h)))
        e
