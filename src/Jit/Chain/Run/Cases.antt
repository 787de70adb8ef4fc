-- ===== src/Jit/Chain/Run/Cases.antt =====
-- native/bap_jit.cpp: the ways that a round of the loop of `bap_jit_run_chain` ends.
use bap.Common.{
  Option, none, zero, suc, subst, refl, ℕ, ◌+◌, ◌-◌, ◌<◌, ◌≤◌, ◌≡◌, refl, ◌==◌, ltb, if◌then◌else◌,
  true, not, ◌&&◌, ◌||◌, List, some, arith, Bool-cases, inl, inr, Option-cases, length,
}
use bap.Jit.Chain.{no_slot, ChainEntry, Chain, entry_at, change}
use bap.Jit.Chain.Run.{
  goes_on, note_said, checkpoint_at, Ran, Loop, Outcome, stops, fails, dangles, slot_or,
  ran_chained, target_of, entry_of, no_entry, gone, remember, is_due, are_bound, leave_all,
  outputs_at, bind,
}
use bap.Common.Word.{add64}
use bap.Jit.Chain.Run.Ends.{
  Result, no_start, few_slots, run_chain, end_run, start_loop, no_registers,
}
use bap.Jit.Chain.Run.Round.{counted, move, enter, proceed, finish, round, rounds}

-- What `written` notes of an entry is no other field of it.
pub note_said-kept :
    {A : Type 0} (field : ChainEntry → A)
    → ((e : ChainEntry) (run : ℕ) → field (record e { outputs_said = run }) ≡ field e)
    → (run next : ℕ) (e : ChainEntry) → field (note_said run next e) ≡ field e
unfolding note_said
note_said-kept field keeps run next e =
    elim (Option-cases (checkpoint_at e.shape.checkpoints next)) [
      | inl k ↦ rw (note_said, k) (keeps e run)
      | inr (outputs, k) ↦ rw (note_said, k) refl
    ]

-- The loop with the outputs of a range that isn't direct.
abbrev pub left_by : {M : Type 0} → Loop M → ChainEntry → ℕ → Loop M
left_by loop entry next = record loop {
  registers =
      if entry.direct
      then loop.registers
      else leave_all true loop.state loop.registers (outputs_at entry next);
}

-- The blocks that a range took of the budget, by its slots.
abbrev pub blocks_of : {M : Type 0} → Loop M → ChainEntry → List ℕ → ℕ
blocks_of loop entry slots =
    ran_chained loop.budget (slot_or slots entry.shape.budget_slot loop.budget)

module _ {M : Type 0} (execute : ℕ → List ℕ → (ℕ → ℕ) → M → Ran M) (run : ℕ) where
  -- The loop after a range, counted.
  abbrev pub after_range : Loop M → ChainEntry → Ran M → Loop M
  after_range loop entry ran =
      counted execute run loop entry ran
        ((if loop.first then 0 else 1) + blocks_of loop entry ran.slots)

  abbrev pub remembered : Loop M → ℕ → ChainEntry → Loop M
  remembered loop next target = record loop {
    entries = change loop.entries loop.current (remember next target.place);
  }

  pub enter-elim :
      (P : Outcome M → Type 0) (loop : Loop M) (more : ℕ) (entry : ChainEntry) (next pc : ℕ)
      (target : ChainEntry)
      → P (stops loop next)
      → P (stops (left_by loop entry next) next)
      → P (move execute run (left_by loop entry next) more pc target)
      → P (enter execute run loop more entry next pc target)
  unfolding enter
  enter-elim P loop more entry next pc target s l g = elim (Bool-cases (is_due target)) [
    | inl e ↦ rw e s
    | inr e ↦
        elim (Bool-cases (
          not (target.ready_in == run)
          && not (are_bound ((left_by loop entry next).registers.bound) target.shape.required))) [
            | inl k ↦ rw (e, k) l
            | inr k ↦ rw (e, k) g
          ]
  ]

  pub proceed-elim :
      (P : Outcome M → Type 0) (loop : Loop M) (more : ℕ) (entry : ChainEntry) (next : ℕ)
      → P (stops loop next)
      → P dangles
      → ((pc : ℕ) (target target' : ChainEntry)
          → entry_at loop.entries pc ≡ some target
          → entry_at ((remembered loop next target).entries) pc ≡ some target'
          → P (enter execute run (remembered loop next target) more entry next pc target'))
      → P (proceed execute run loop more entry next)
  unfolding proceed
  proceed-elim P loop more entry next s d g =
      elim (target_of loop.entries entry next)
          as (λ t.
            target_of loop.entries entry next ≡ t → P (proceed execute run loop more entry next)) [
              | no_entry ↦ λ e. rw (proceed, e) s
              | gone ↦ λ e. rw (proceed, e) d
              | entry_of pc ↦ λ e. elim (Option-cases (entry_at loop.entries pc)) [
                | inl k ↦ rw (proceed, e, k) d
                | inr (target, k) ↦
                    elim (Option-cases (entry_at ((remembered loop next target).entries) pc)) [
                      | inl l ↦ rw (proceed, e, k, l) d
                      | inr (target', l) ↦ rw (proceed, e, k, l) (g pc target target' k l)
                    ]
              ]
            ]
        refl

  pub finish-elim :
      (P : Outcome M → Type 0) (loop : Loop M) (entry : ChainEntry) (ran : Ran M)
      → P (stops (after_range loop entry ran) ran.next)
      → (blocks_of loop entry ran.slots < loop.budget
          → P (
              proceed execute run
                (after_range loop entry ran)
                (blocks_of loop entry ran.slots)
                entry
                ran.next))
      → P (finish execute run loop entry ran)
  unfolding finish
  finish-elim P loop entry ran s g =
      elim (Bool-cases (
        not (slot_or ran.slots entry.shape.effect_slot 0 == 1)
        || ran.lean_ran
        || entry.shape.budget_slot == no_slot
        || ltb (loop.budget - blocks_of loop entry ran.slots) 1)) [
          | inl e ↦ rw e s
          | inr e ↦ rw e (g (ground arith))
        ]

  -- A round by what its program gives.
  pub round_run-elim :
      (P : Outcome M → Type 0) (loop : Loop M)
      → P dangles
      → ((after : Loop M) (error : ℕ)
          → after.entries ≡ loop.entries
          → after.touched ≡ loop.touched
          → P (fails after error))
      → ((entry : ChainEntry)
          → entry_at loop.entries loop.current ≡ some entry
          → P (
              finish execute run loop entry
                (execute entry.program loop.state loop.registers.value loop.memory)))
      → P (round execute run loop)
  unfolding round
  round_run-elim P loop d f g = elim (Option-cases (entry_at loop.entries loop.current)) [
    | inl e ↦ rw (round, e) d
    | inr (entry, e) ↦
        let ran = execute entry.program loop.state loop.registers.value loop.memory in
        elim (Option-cases ran.error) [
          | inl k ↦ rw (round, e, k) (g entry e)
          | inr (error, k) ↦ rw (round, e, k) (f _ error refl refl)
        ]
  ]

  pub round-elim :
      (P : Outcome M → Type 0) (loop : Loop M)
      → P dangles
      → ((after : Loop M) (error : ℕ)
          → after.entries ≡ loop.entries
          → after.touched ≡ loop.touched
          → P (fails after error))
      → ((entry : ChainEntry)
          → entry_at loop.entries loop.current ≡ some entry
          → (ran : Ran M) → P (finish execute run loop entry ran))
      → P (round execute run loop)
  round-elim P loop d f g = round_run-elim P loop d f (λ entry e. g entry e _)

-- What holds of an outcome, if the loop is over.
abbrev pub Given : {M : Type 0} → (Outcome M → Type 0) → Option (Outcome M) → Type 0
Given P none = Unit
Given P (some o) = P o

-- What each round keeps holds at the end of the loop.
pub rounds-elim :
    {M : Type 0} (execute : ℕ → List ℕ → (ℕ → ℕ) → M → Ran M) (run : ℕ) (P : Outcome M → Type 0)
    → ((loop : Loop M) → P (goes_on loop) → P (round execute run loop))
    → (fuel : ℕ) (loop : Loop M) → P (goes_on loop)
    → Given P (rounds execute run fuel loop)
unfolding rounds
rounds-elim execute run P keep zero loop h = tt
rounds-elim execute run P keep (suc fuel) loop h =
    let step = keep loop h in
    elim (round execute run loop)
        as (λ o. round execute run loop ≡ o → Given P (rounds execute run (suc fuel) loop)) [
          | goes_on after ↦
              λ e. rw (rounds, e) (rounds-elim execute run P keep fuel after (subst P e step))
          | stops after next ↦ λ e. rw (rounds, e) (subst P e step)
          | fails after error ↦ λ e. rw (rounds, e) (subst P e step)
          | dangles ↦ λ e. rw (rounds, e) (subst P e step)
        ]
      refl

module _ {M : Type 0} (execute : ℕ → List ℕ → (ℕ → ℕ) → M → Ran M) where
  -- The ways that a run starts.
  pub run_chain-elim :
      (P : Result M → Type 0) (chain : Chain) (program : ℕ) (state : List ℕ) (memory : M)
      (first_id first_pc first_budget : ℕ) (variables values : List ℕ)
      → P no_start
      → P few_slots
      → ((entry : ChainEntry)
          → entry_at chain.entries first_pc ≡ some entry
          → entry.shape.slot_count ≤ length state
          → P (
              end_run
                record chain { run = add64 chain.run 1 }
                (rounds execute (add64 chain.run 1) (first_budget + 1) (
                  start_loop chain.entries first_pc first_budget state
                    (bind no_registers variables values)
                    memory))))
      → P (
          run_chain execute chain program state memory first_id first_pc first_budget variables
            values)
  unfolding run_chain
  run_chain-elim P chain program state memory first_id first_pc first_budget variables values n f
        g =
      elim (Option-cases (entry_at chain.entries first_pc)) [
        | inl e ↦ rw (run_chain, e) n
        | inr (entry, e) ↦
            elim (Bool-cases (not (entry.id == first_id) || not (entry.program == program))) [
              | inl k ↦ rw (run_chain, e, k) n
              | inr k ↦ elim (Bool-cases (ltb (length state) entry.shape.slot_count)) [
                | inl l ↦ rw (run_chain, e, k, l) f
                | inr l ↦ rw (run_chain, e, k, l) (g entry e (ground arith))
              ]
            ]
      ]
