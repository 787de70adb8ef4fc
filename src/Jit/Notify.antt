-- ===== src/Jit/Notify.antt =====
-- native/bap_jit.cpp: the observers of memory and of code, as a run calls them, by calls and in compiled code. What the observers do is the
-- program's that runs the code, and they are parameters, with a world that they change.
pub mod Quiet
pub mod Inline
pub mod Sound
pub mod Compiled
use bap.Common.{
  ℕ, zero, suc, ◌+◌, ◌-◌, ◌==◌, leb, if◌then◌else◌, Bool, true, false, not, ◌&&◌, ◌||◌, Option,
  none, some, ◌⊎◌, inl, inr,
}
use bap.Common.Word.{add64}
use bap.Jit.Filter.{Range, Ranges, quiet_range}

-- What a run fails with: an error of an observer, or that of a site that waited.
pub data Failure (E : Type 0) : Type 0 where
  raised : E → Failure E
  site_waited : Failure E

-- What of `BapCells` the observers go by. `observer` and `code_observer` are whether they are not null; `quiet_read` and `quiet_write` are
-- `quietFirst` and `quietLast` for reads and for writes.
pub record Watch (W E : Type 0) : Type 0 where
  pub world : W
  pub observer : Bool
  pub code_observer : Bool
  pub error : Option (Failure E)
  pub quiet_sites : Bool
  pub lean_ran : Bool
  pub pending_site : Bool
  pub pending_pc : ℕ
  pub quiet_read : ℕ × ℕ
  pub quiet_write : ℕ × ℕ

abbrev pub nothing_quiet : ℕ × ℕ
nothing_quiet = (1, 0)

module _ {W E : Type 0} where
  -- `forgetQuiet`.
  abbrev pub forget_quiet : Watch W E → Watch W E
  forget_quiet w = record w { quiet_read = nothing_quiet; quiet_write = nothing_quiet }

  abbrev pub has_error : Watch W E → Bool
  has_error w = elim w.error [ none ↦ false | some e ↦ true ]

  -- `failCells`, but for the pages that a run remembers.
  abbrev pub fail_cells : Watch W E → Failure E → Watch W E
  fail_cells w e = forget_quiet (record w { error = some e })

  abbrev pub quiet_of : Watch W E → Bool → ℕ × ℕ
  quiet_of w write = if write then w.quiet_write else w.quiet_read

  abbrev pub set_quiet : Watch W E → Bool → ℕ × ℕ → Watch W E
  set_quiet w true range = record w { quiet_write = range }
  set_quiet w false range = record w { quiet_read = range }

-- The ranges of the filter, or that there is none; the observer of code, which fails or gives whether to stop; and that of memory, which may
-- fail.
module _ {W E : Type 0} (filter : W → Option Ranges) (observe_code : W → ℕ → (E ⊎ ℕ) × W)
    (observe : W → Bool → ℕ → ℕ → ℕ → Option E × W) where
  -- `callCodeObserver`.
  unfoldable pub call_code_observer : Watch W E → ℕ → ℕ × Watch W E
  call_code_observer w pc =
      let (answer, world) = observe_code w.world pc in
      let called = record (forget_quiet w) { world = world } in
      elim answer [ inl e ↦ (1, fail_cells called (raised e)) | inr stop ↦ (stop, called) ]

  -- The call of the observer of memory.
  unfoldable pub call_observer : Watch W E → Bool → ℕ → ℕ → ℕ → Watch W E
  call_observer w write address size value =
      let (answer, world) = observe w.world write address size value in
      let called = record (forget_quiet w) { world = world; lean_ran = true } in
      elim answer [ some e ↦ fail_cells called (raised e) | none ↦ called ]

  -- What `bap_jit_memory_notify` does of an access that isn't quiet.
  unfoldable pub notify_observer : Watch W E → Bool → ℕ → ℕ → ℕ → Watch W E
  unfolding call_code_observer call_observer
  notify_observer w write address size value =
      if w.pending_site
      then (let (stop, after) =
            call_code_observer (record w { pending_site = false; lean_ran = true }) w.pending_pc in
          if stop == 0
          then call_observer after write address size value
          else if has_error after
          then after
          else fail_cells after site_waited)
      else call_observer w write address size value

  -- `quietRange` of the filter, if there is one.
  abbrev pub find_quiet : W → ℕ → ℕ → Bool → Option Range
  find_quiet world address size write = elim (filter world) [
    | none ↦ none
    | some ranges ↦ quiet_range ranges address size write
  ]

  -- `bap_jit_memory_notify`.
  unfoldable pub memory_notify : Watch W E → Bool → ℕ → ℕ → ℕ → Watch W E
  unfolding notify_observer
  memory_notify w write address size value =
      if not w.observer || has_error w then w else elim (find_quiet w.world address size write) [
        | some range ↦ set_quiet w write (range.first, range.last)
        | none ↦ notify_observer w write address size value
      ]

  -- `bap_jit_code_notify`.
  unfoldable pub code_notify : Watch W E → ℕ → ℕ × Watch W E
  unfolding call_code_observer
  code_notify w pc =
      if not w.code_observer || has_error w
      then (if has_error w then 1 else 0, w)
      else if w.quiet_sites && not w.lean_ran
      then (0, record w { pending_site = true; pending_pc = pc })
      else call_code_observer w pc

  -- `notifyAccess`: compiled code, which calls only where the access isn't in the last range that was quiet.
  unfoldable pub notify_access : Watch W E → Bool → ℕ → ℕ → ℕ → Watch W E
  unfolding memory_notify
  notify_access w write base size value =
      let (first, last) = quiet_of w write in
      let end = add64 base (size - 1) in
      if leb first base && leb end last && leb base end
      then w
      else memory_notify w write base size value

  -- The compiled code of a code site: whether the run stops there.
  unfoldable pub code_site : Watch W E → ℕ → Bool × Watch W E
  unfolding code_notify
  code_site w pc =
      let fine = not (has_error w) in
      let waits = w.quiet_sites && not w.lean_ran in
      if fine && not w.code_observer
      then (false, w)
      else if fine && waits
      then (false, record w { pending_site = true; pending_pc = pc })
      else (let (stop, after) = code_notify w pc in (not (stop == 0), after))
