-- ===== src/Jit/Runs.antt =====
-- native/bap_jit.cpp: the runs of one program. What it is compiled to is a parameter, `execute`: it takes the slots and what it reaches through
-- `BapCells`, and gives where it goes, what it leaves of both, and its error, if there is one. The observers are part of it.
pub mod Changes
pub mod Stores
pub mod Steps
pub mod Told
use bap.Common.{
  ℕ, zero, suc, ◌+◌, ◌*◌, ◌==◌, ltb, if◌then◌else◌, Bool, true, false, not, List, [], ◌∷◌, ◌++◌,
  Option, none, some, length,
}
use bap.Paged.Memory.{Memory}
use bap.Paged.Step.{note_step, step_active}
use bap.Jit.StoreLog.{LogPage, StoreLog, empty}
use bap.Jit.Access.{Cells}
use bap.Jit.Object.{pair_up}

-- What of a `Program` a run goes by.
pub record Compiled : Type 0 where
  pub max_slot : ℕ
  pub memory_stores : ℕ

-- What a program leaves.
pub record Left : Type 0 where
  pub next : ℕ
  pub slots : List ℕ
  pub cells : Cells
  pub error : Option ℕ

-- The bits of a page that are set from `offset` on, of `count`: where the bytes are, with their values.
unfoldable pub page_changes : LogPage → ℕ → ℕ → ℕ → List (ℕ × ℕ)
page_changes page number offset zero = []
page_changes page number offset (suc count) =
    let rest = page_changes page number (offset + 1) count in
    if page.written offset then (number * 4096 + offset, page.values offset) ∷ rest else rest

-- `StoreLog::forEach`: what its action is called with, where the map goes through its pages by these numbers.
unfoldable pub changes_of : StoreLog → List ℕ → List (ℕ × ℕ)
changes_of log [] = []
changes_of log (number ∷ numbers) =
    let rest = changes_of log numbers in
    elim (log.pages number) [ none ↦ rest | some page ↦ page_changes page number 0 4096 ++ rest ]

-- `noteStep` of each byte.
unfoldable pub note_changes : Memory → List (ℕ × ℕ) → Memory
note_changes m [] = m
note_changes m ((address, value) ∷ changes) = note_changes (note_step m address 1) changes

-- What a run of a program gives, with what `A` it gives of its memory. One that fails leaves its memory in `failure`.
pub data Run (A B : Type 0) : Type 0 where
  few_slots : Run A B
  unequal_arrays : Run A B
  failure : ℕ → B → Run A B
  success : ℕ → List ℕ → A → Run A B

abbrev pub no_cells : Cells
no_cells = record { items = []; capacity = 0; pages = none; changes = none; failed = false }

abbrev pub log_of_cells : Left → StoreLog
log_of_cells left = elim left.cells.changes [ none ↦ empty | some log ↦ log ]

-- The memory that a program leaves of one.
abbrev pub memory_after : Memory → Left → Memory
memory_after m left = elim left.cells.pages [ none ↦ m | some m' ↦ m' ]

-- The memory after a run, with what it wrote noted for the step that is open, if one is.
abbrev pub noted_memory : (StoreLog → List ℕ) → Memory → Left → Memory
noted_memory numbers m left =
    let m' = memory_after m left in
    let log = log_of_cells left in
    if step_active m' then note_changes m' (changes_of log (numbers log)) else m'

abbrev pub object_cells : Memory → Cells
object_cells m = record {
  items = [];
  capacity = 0;
  pages = some m;
  changes = some empty;
  failed = false;
}

module _ (execute : List ℕ → Cells → Left) where
  -- `bap_jit_run`.
  unfoldable pub run_slots : Compiled → List ℕ → Run Unit Unit
  run_slots program state =
      let left = execute state no_cells in
      if ltb (length state) program.max_slot then few_slots else success left.next left.slots tt

  -- `bap_jit_run_memory_code`, where a vector that is to have room for some cells has it for as many as `reserve` says.
  unfoldable pub run_cells : (ℕ → ℕ) → Compiled → List ℕ → List ℕ → List ℕ → Run (List (ℕ × ℕ)) Unit
  run_cells reserve program state addresses values =
      let cells : Cells = record {
        items = pair_up addresses values;
        capacity = reserve (length addresses + program.memory_stores);
        pages = none;
        changes = none;
        failed = false;
      } in
      let left = execute state cells in
      if ltb (length state) program.max_slot
      then few_slots
      else if not (length addresses == length values)
      then unequal_arrays
      else elim left.error [
        | some error ↦ failure error tt
        | none ↦ success left.next left.slots left.cells.items
      ]

  -- `runMemoryObject`, where `numbers` is the order of the pages of a log. It gives what it wrote and the memory.
  unfoldable pub run_object :
      (StoreLog → List ℕ) → Compiled → List ℕ → Memory → Run (List (ℕ × ℕ) × Memory) Memory
  unfolding note_changes changes_of
  run_object numbers program state m =
      let left = execute state (object_cells m) in
      let after = noted_memory numbers m left in
      if ltb (length state) program.max_slot then few_slots else elim left.error [
        | some error ↦ failure error after
        | none ↦
            let log = log_of_cells left in
            success left.next left.slots (changes_of log (numbers log), after)
      ]
