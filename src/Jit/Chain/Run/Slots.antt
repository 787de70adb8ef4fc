-- ===== src/Jit/Chain/Run/Slots.antt =====
-- native/bap_jit.cpp: the slots that a round of `bap_jit_run_chain` starts with.
use bap.Common.{
  ℕ, zero, suc, ◌+◌, ◌-◌, ◌≤◌, ◌≡◌, refl, ◌==◌, if◌then◌else◌, Bool, true, List, [], ◌∷◌, some,
  arith, Bool-cases, inl, inr, ◌∙◌, ap, length,
}
use bap.Jit.Chain.{ChainEntry, Entries, entry_at, change}
use bap.Jit.Chain.Lookup.{entry_at-change_kept}
use bap.Jit.Chain.Links.{kept-change_before}
use bap.Jit.Chain.Valid.{entry_fits}
use bap.Jit.Chain.Run.{
  Ran, Loop, Outcome, goes_on, stops, fails, dangles, Registers, resize, set_slot, clear_slots,
  fill_slots, next_state, set_slot_if, remember, count_run, note_said, budget_for,
}
use bap.Jit.Chain.Run.Round.{round}
use bap.Jit.Chain.Run.Cases.{
  note_said-kept, blocks_of, left_by, after_range, remembered, enter-elim, proceed-elim,
  finish-elim, round_run-elim,
}

pub length-set_slot :
    (state : List ℕ) (slot value : ℕ) → length (set_slot state slot value) ≡ length state
unfolding set_slot
length-set_slot [] slot value = refl
length-set_slot (x ∷ state) zero value = refl
length-set_slot (x ∷ state) (suc slot) value = ap suc (length-set_slot state slot value)

length-resize : (state : List ℕ) (n : ℕ) → length (resize state n) ≡ n
unfolding resize
length-resize state zero = refl
length-resize [] (suc n) = ap suc (length-resize [] n)
length-resize (x ∷ state) (suc n) = ap suc (length-resize state n)

length-clear_slots :
    (state : List ℕ) (slots : List ℕ) → length (clear_slots state slots) ≡ length state
unfolding clear_slots
length-clear_slots state [] = refl
length-clear_slots state (slot ∷ slots) =
    length-clear_slots (set_slot state slot 0) slots ∙ length-set_slot state slot 0

length-fill_slots :
    (state : List ℕ) (registers : Registers) (layout : List (ℕ × ℕ))
    → length (fill_slots state registers layout) ≡ length state
unfolding fill_slots
length-fill_slots state registers [] = refl
length-fill_slots state registers ((variable, slot) ∷ layout) =
    elim (Bool-cases (registers.bound variable == 0)) [
      | inl k ↦ rw (fill_slots, k) (length-fill_slots state registers layout)
      | inr k ↦
          rw (fill_slots, k)
            (length-fill_slots (set_slot state slot (registers.value variable)) registers layout
              ∙ length-set_slot state slot (registers.value variable))
    ]

length-set_slot_if :
    (state : List ℕ) (slot value : ℕ) → length (set_slot_if state slot value) ≡ length state
length-set_slot_if state slot value = ground (arith, length-set_slot state slot value)

-- A range starts with as many slots as it has.
length-next_state :
    (target : ChainEntry) (registers : Registers) (budget : ℕ) (spare : List ℕ)
    → length (next_state target registers budget spare) ≡ target.shape.slot_count
unfolding next_state
length-next_state target registers budget spare =
    let empty = resize spare target.shape.slot_count in
    let cleared = clear_slots empty target.shape.zeroed in
    let filled =
      if target.direct then cleared else fill_slots cleared registers target.shape.layout in
    let budgeted = set_slot_if filled target.shape.budget_slot budget in
    length-set_slot_if budgeted target.shape.observed_slot 0
    ∙ length-set_slot_if filled target.shape.budget_slot budget
    ∙ elim (Bool-cases target.direct) [
      | inl k ↦ rw k refl
      | inr k ↦ rw k (length-fill_slots cleared registers target.shape.layout)
    ]
    ∙ length-clear_slots empty target.shape.zeroed
    ∙ length-resize spare target.shape.slot_count

-- What a range is by its slots: how many it has, and that it uses no other.
unfoldable pub slots_of : ChainEntry → ℕ × Bool
unfolding entry_fits
slots_of e = (e.shape.slot_count, entry_fits e.shape e.flagged)

abbrev pub AllFit : Entries → Type 0
AllFit entries = (pc : ℕ) (e : ChainEntry) → entry_at entries pc ≡ some e → (slots_of e).1 ≡ true

-- All entries fit, and there are at least as many slots as the entry of the round has.
abbrev pub IsRoomy : Entries → ℕ → ℕ → Type 0
IsRoomy entries pc size =
    AllFit entries × ((e : ChainEntry) × (entry_at entries pc ≡ some e) × ((slots_of e).0 ≤ size))

change-AllFit :
    (entries : Entries) (q : ℕ) (f : ChainEntry → ChainEntry)
    → ((e : ChainEntry) → slots_of (f e) ≡ slots_of e)
    → AllFit entries
    → AllFit (change entries q f)
change-AllFit entries q f keeps h pc e' k =
    let (e, at, same) = kept-change_before slots_of entries q pc f e' keeps k in
    ap (λ (x : ℕ × Bool). x.1) same ∙ h pc e at

change-IsRoomy :
    (entries : Entries) (q pc size : ℕ) (f : ChainEntry → ChainEntry)
    → ((e : ChainEntry) → slots_of (f e) ≡ slots_of e)
    → IsRoomy entries pc size
    → IsRoomy (change entries q f) pc size
change-IsRoomy entries q pc size f keeps (h, (e, at, le)) =
    let (e', at', same) = entry_at-change_kept slots_of entries q pc f e keeps at in
    (change-AllFit entries q f keeps h, (e', at', rw same le))

note_said-slots_of : (run next : ℕ) (e : ChainEntry) → slots_of (note_said run next e) ≡ slots_of e
unfolding slots_of
note_said-slots_of run next e = note_said-kept slots_of (λ _ _. refl) run next e

-- What a round leaves where it goes on.
unfoldable pub KeepsRoomy : {M : Type 0} → Outcome M → Type 0
KeepsRoomy (goes_on after) = IsRoomy after.entries after.current (length after.state)
KeepsRoomy (stops after next) = IsRoomy after.entries after.current (length after.state)
KeepsRoomy (fails after error) = Unit
KeepsRoomy dangles = Unit

module _ {M : Type 0} (execute : ℕ → List ℕ → (ℕ → ℕ) → M → Ran M) (run : ℕ) where
  after_range-IsRoomy :
      (loop : Loop M) (entry : ChainEntry) (ran : Ran M)
      → IsRoomy loop.entries loop.current (length ran.slots)
      → IsRoomy (after_range execute run loop entry ran).entries loop.current (length ran.slots)
  unfolding slots_of
  after_range-IsRoomy loop entry ran h =
      let n = (if loop.first then 0 else 1) + blocks_of loop entry ran.slots in
      elim (Bool-cases entry.direct) [
        | inr d ↦ rw d (
            change-IsRoomy loop.entries loop.current loop.current (length ran.slots) (count_run n)
              (λ _. refl) h)
        | inl d ↦
            let said =
              change-IsRoomy loop.entries loop.current loop.current (length ran.slots)
                (note_said run ran.next) (note_said-slots_of run ran.next) h in
            rw d (
              change-IsRoomy (change loop.entries loop.current (note_said run ran.next))
                loop.current loop.current (length ran.slots) (count_run n) (λ _. refl) said)
      ]

  -- Where each entry of a chain uses no slot that it doesn't have, and there are as many slots as the range of a round has, it is so of the
  -- next round too, and where the loop stops, if a program leaves as many slots as it was given.
  pub round-KeepsRoomy :
      (loop : Loop M)
      → ((program : ℕ) (slots : List ℕ) (values : ℕ → ℕ) (memory : M)
          → length (execute program slots values memory).slots ≡ length slots)
      → IsRoomy loop.entries loop.current (length loop.state)
      → KeepsRoomy (round execute run loop)
  unfolding KeepsRoomy slots_of
  round-KeepsRoomy loop same h =
      round_run-elim execute run KeepsRoomy loop tt (λ _ _ _ _. tt)
        (λ entry _.
          let ran = execute entry.program loop.state loop.registers.value loop.memory in
          let more = blocks_of loop entry ran.slots in
          let after = after_range execute run loop entry ran in
          let size : length ran.slots ≡ length loop.state =
            same entry.program loop.state loop.registers.value loop.memory in
          let roomy = after_range-IsRoomy loop entry ran (rw size h) in
          finish-elim execute run KeepsRoomy loop entry ran roomy (λ _.
            proceed-elim execute run KeepsRoomy after more entry ran.next roomy tt
              (λ pc target target' _ at.
                let there = remembered execute run after ran.next target in
                let kept =
                  change-IsRoomy after.entries after.current after.current (length ran.slots)
                    (remember ran.next target.place) (λ _. refl) roomy in
                enter-elim execute run KeepsRoomy there more entry ran.next pc target' kept kept (
                  let regs = (left_by there entry ran.next).registers in
                  let budget = budget_for target' (loop.budget - more - 1) in
                  change-IsRoomy there.entries pc pc
                    (length (next_state target' regs budget loop.spare))
                    (λ x. record x { ready_in = run }) (λ _. refl)
                    (
                      kept.0,
                      (
                        target',
                        at,
                        omega (arith, length-next_state target' regs budget loop.spare),
                      ),
                    )))))
