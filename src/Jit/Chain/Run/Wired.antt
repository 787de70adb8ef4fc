-- ===== src/Jit/Chain/Run/Wired.antt =====
-- native/bap_jit.cpp: a run of a chain follows no pointer to an entry that is gone.
use bap.Common.{
  ℕ, ◌+◌, ◌≡◌, refl, if◌then◌else◌, List, [], ◌∷◌, Option, none, some, Bool-cases, inl, inr, ◌∙◌,
  Option-cases, ap, sym,
}
use bap.Common.Word.{add64}
use bap.Jit.Chain.{ChainEntry, Entries, Chain, entry_at, change}
use bap.Jit.Chain.Lookup.{entry_at-change_kept}
use bap.Jit.Chain.Links.{
  links, target_of-links, IsWired, AreBelow, target_of-look_up, change-IsWired, change-AreBelow,
  remember-IsWired,
}
use bap.Jit.Chain.Run.{
  Ran, Loop, Outcome, goes_on, stops, fails, dangles, bind, count_run, note_said, remember,
  entry_of, no_entry, target_of, look_up,
}
use bap.Jit.Chain.Run.Ends.{
  Result, no_start, few_slots, failed, ended, dangled, runs_on, reset, uncount, change_each,
  start_loop, run_chain, end_run, no_registers,
}
use bap.Jit.Chain.Run.Round.{round, rounds, proceed, enter}
use bap.Jit.Chain.Run.Cases.{
  Given, rounds-elim, note_said-kept, blocks_of, after_range, remembered, enter-elim, finish-elim,
  run_chain-elim,
}

-- Entries that are wired and below a bound, with one at a pc.
abbrev IsSafe : ℕ → Entries → ℕ → Type 0
IsSafe bound entries pc =
    IsWired entries × AreBelow bound entries × ((e : ChainEntry) × (entry_at entries pc ≡ some e))

change-IsSafe :
    (bound : ℕ) (entries : Entries) (pc q : ℕ) (f : ChainEntry → ChainEntry)
    → ((e : ChainEntry) → links (f e) ≡ links e)
    → IsSafe bound entries pc
    → IsSafe bound (change entries q f) pc
change-IsSafe bound entries pc q f keeps (w, b, (e, h)) =
    let (e', h', _) = entry_at-change_kept links entries q pc f e keeps h in
    (
      change-IsWired entries q f keeps w,
      change-AreBelow entries q bound f (λ x. ap (λ (y : ℕ × ℕ × Option ℕ). y.0) (keeps x)) b,
      (e', h'),
    )

note_said-links : (run next : ℕ) (e : ChainEntry) → links (note_said run next e) ≡ links e
note_said-links run next e = note_said-kept links (λ _ _. refl) run next e

-- An outcome whose entries are safe, and which doesn't dangle.
unfoldable pub EndsSafe : {M : Type 0} → ℕ → Outcome M → Type 0
EndsSafe bound (goes_on after) = IsSafe bound after.entries after.current
EndsSafe bound (stops after next) = IsSafe bound after.entries after.current
EndsSafe bound (fails after error) = IsSafe bound after.entries after.current
EndsSafe bound dangles = ⊥

module _ {M : Type 0} (execute : ℕ → List ℕ → (ℕ → ℕ) → M → Ran M) (run bound : ℕ) where
  after_range-IsSafe :
      (loop : Loop M) (entry : ChainEntry) (ran : Ran M)
      → IsSafe bound loop.entries loop.current
      → IsSafe bound (after_range execute run loop entry ran).entries loop.current
  after_range-IsSafe loop entry ran h =
      let n = (if loop.first then 0 else 1) + blocks_of loop entry ran.slots in
      elim (Bool-cases entry.direct) [
        | inr d ↦
            rw d (
              change-IsSafe bound loop.entries loop.current loop.current (count_run n) (λ _. refl)
                h)
        | inl d ↦
            let said =
              change-IsSafe bound loop.entries loop.current loop.current (note_said run ran.next)
                (note_said-links run ran.next) h in
            rw d (
              change-IsSafe bound (change loop.entries loop.current (note_said run ran.next))
                loop.current loop.current (count_run n) (λ _. refl) said)
      ]

  after_range-links :
      (loop : Loop M) (entry : ChainEntry) (ran : Ran M)
      → entry_at loop.entries loop.current ≡ some entry
      → (e : ChainEntry) × (entry_at (after_range execute run loop entry ran).entries loop.current
          ≡ some e)
        × (links e ≡ links entry)
  after_range-links loop entry ran h =
      let n = (if loop.first then 0 else 1) + blocks_of loop entry ran.slots in
      elim (Bool-cases entry.direct) [
        | inr d ↦ rw d (
            entry_at-change_kept links loop.entries loop.current loop.current (count_run n) entry
              (λ _. refl) h)
        | inl d ↦
            let say = note_said run ran.next in
            let (e, at, same) =
              entry_at-change_kept links loop.entries loop.current loop.current say entry
                (note_said-links run ran.next) h in
            let (e', at', same') =
              entry_at-change_kept links (change loop.entries loop.current say) loop.current
                loop.current (count_run n) e (λ _. refl) at in
            rw d (e', at', same' ∙ same)
      ]

  enter-EndsSafe :
      (loop : Loop M) (more : ℕ) (entry target : ChainEntry) (next : ℕ)
      → IsSafe bound loop.entries loop.current
      → entry_at loop.entries next ≡ some target
      → EndsSafe bound (enter execute run loop more entry next next target)
  unfolding EndsSafe
  enter-EndsSafe loop more entry target next h at =
      let ready : ChainEntry → ChainEntry = λ x. record x { ready_in = run } in
      enter-elim execute run (EndsSafe bound) loop more entry next next target h h
        (change-IsSafe bound loop.entries next next ready (λ _. refl) (h.0, h.1, (target, at)))

  -- The entry that a range goes on from is found as it was, but for what a round counts.
  proceed-EndsSafe :
      (loop : Loop M) (more : ℕ) (entry e : ChainEntry) (next : ℕ)
      → IsSafe bound loop.entries loop.current
      → entry_at loop.entries loop.current ≡ some e
      → links e ≡ links entry
      → EndsSafe bound (proceed execute run loop more entry next)
  unfolding EndsSafe look_up proceed
  proceed-EndsSafe loop more entry e next h at same =
      let found_so : target_of loop.entries entry next ≡ look_up loop.entries next =
        target_of-links loop.entries entry e next (sym same)
        ∙ target_of-look_up loop.entries loop.current e next (h.0) at in
      elim (Option-cases (entry_at loop.entries next)) [
        | inl k ↦
            let none_there : target_of loop.entries entry next ≡ no_entry =
              found_so ∙ rw (look_up, k) refl in
            rw (proceed, none_there) h
        | inr (target, k) ↦
            let there : target_of loop.entries entry next ≡ entry_of next =
              found_so ∙ rw (look_up, k) refl in
            let memory = remember next target.place in
            let (target', k', _) =
              entry_at-change_kept (λ x. x.place) loop.entries loop.current next memory target
                (λ _. refl) k in
            let (e', at', _) =
              entry_at-change_kept (λ x. x.place) loop.entries loop.current loop.current memory e
                (λ _. refl) at in
            rw (proceed, there, k, k')
              (enter-EndsSafe (remembered execute run loop next target) more entry target' next
                (
                  remember-IsWired loop.entries loop.current next target k (h.0),
                  change-AreBelow loop.entries loop.current bound memory (λ _. refl) (h.1),
                  (e', at'),
                )
                k')
      ]

  round-EndsSafe :
      (loop : Loop M)
      → IsSafe bound loop.entries loop.current
      → EndsSafe bound (round execute run loop)
  unfolding EndsSafe round
  round-EndsSafe loop h =
      let (entry, at) = h.2 in
      let ran = execute entry.program loop.state loop.registers.value loop.memory in
      elim (Option-cases ran.error) [
        | inr (error, k) ↦ rw (round, at, k) h
        | inl k ↦
            let after = after_range execute run loop entry ran in
            let safe = after_range-IsSafe loop entry ran h in
            let (e, at', same) = after_range-links loop entry ran at in
            rw (round, at, k)
              (finish-elim execute run (EndsSafe bound) loop entry ran safe (λ _.
                proceed-EndsSafe after (blocks_of loop entry ran.slots) entry e ran.next safe at'
                  same))
      ]

  rounds-EndsSafe :
      (fuel : ℕ) (loop : Loop M)
      → IsSafe bound loop.entries loop.current
      → Given (EndsSafe bound) (rounds execute run fuel loop)
  unfolding EndsSafe
  rounds-EndsSafe fuel loop h = rounds-elim execute run (EndsSafe bound) round-EndsSafe fuel loop h

-- A chain whose entries are wired, in places before the one that is free.
abbrev pub IsSound : Chain → Type 0
IsSound chain = IsWired chain.entries × AreBelow chain.free_place chain.entries

-- That a run followed no pointer to an entry that is gone, and left the chain sound.
unfoldable pub IsSoundAfter : {M : Type 0} → Result M → Type 0
IsSoundAfter (failed error chain) = IsSound chain
IsSoundAfter (ended next state info memory chain) = IsSound chain
IsSoundAfter no_start = Unit
IsSoundAfter few_slots = Unit
IsSoundAfter dangled = ⊥
IsSoundAfter runs_on = Unit

change_each-IsSafe :
    (bound : ℕ) (entries : Entries) (pc : ℕ) (pcs : List ℕ) (f : ChainEntry → ChainEntry)
    → ((e : ChainEntry) → links (f e) ≡ links e)
    → IsSafe bound entries pc
    → IsSafe bound (change_each entries pcs f) pc
unfolding change_each
change_each-IsSafe bound entries pc [] f keeps h = h
change_each-IsSafe bound entries pc (q ∷ pcs) f keeps h =
    change_each-IsSafe bound (change entries q f) pc pcs f keeps
      (change-IsSafe bound entries pc q f keeps h)

module _ {M : Type 0} (execute : ℕ → List ℕ → (ℕ → ℕ) → M → Ran M) where
  end_run-IsSoundAfter :
      (run : ℕ) (chain : Chain) (o : Option (Outcome M))
      → Given (EndsSafe chain.free_place) o
      → IsSoundAfter (end_run chain o)
  unfolding end_run EndsSafe IsSoundAfter
  end_run-IsSoundAfter run chain none h = tt
  end_run-IsSoundAfter run chain (some (goes_on after)) h = tt
  end_run-IsSoundAfter run chain (some dangles) h = h
  end_run-IsSoundAfter run chain (some (fails after error)) h =
      let s =
        change_each-IsSafe chain.free_place after.entries after.current after.touched uncount
          (λ _. refl) h in
      (s.0, s.1)
  end_run-IsSoundAfter run chain (some (stops after next)) h =
      let (e, at) = h.2 in
      let s =
        change_each-IsSafe chain.free_place after.entries after.current after.touched reset
          (λ _. refl) h in
      rw (end_run, at) (s.0, s.1)

  -- A run of a chain whose entries point to one another or nowhere follows no pointer to an entry that is gone, and leaves its entries so,
  -- whether it fails or not.
  pub run_chain-IsSoundAfter :
      (chain : Chain) (program : ℕ) (state : List ℕ) (memory : M)
      (first_id first_pc first_budget : ℕ) (variables values : List ℕ)
      → IsSound chain
      → IsSoundAfter (
          run_chain execute chain program state memory first_id first_pc first_budget variables
            values)
  unfolding IsSoundAfter
  run_chain-IsSoundAfter chain program state memory first_id first_pc first_budget variables values
        h =
      run_chain-elim execute IsSoundAfter chain program state memory first_id first_pc first_budget
        variables values tt tt
        (λ entry at _.
          let run = add64 chain.run 1 in
          let loop =
            start_loop chain.entries first_pc first_budget state
              (bind no_registers variables values) memory in
          end_run-IsSoundAfter run record chain { run = run } _
            (rounds-EndsSafe execute run chain.free_place (first_budget + 1) loop
              (h.0, h.1, (entry, at))))
