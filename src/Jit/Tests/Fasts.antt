-- ===== src/Jit/Tests/Fasts.antt =====
-- native/bap_jit.cpp: compiled accesses and runs on concrete inputs.
use bap.Common.{
  ℕ, ◌≡◌, refl, ◌==◌, Bool, true, false, List, [], ◌∷◌, some, arith, Bool-cases, inl, inr,
}
use bap.Paged.Memory.{Memory, empty}
use bap.Paged.Access.{store}
use bap.Paged.Step.{begin_step}
use bap.Paged.Step.Log.{begin_step-IsTracked}
use bap.Jit.StoreLog.{StoreLog, note, note_aligned}
use bap.Jit.Access.{Cells, load_bytes, store_bytes, memory_note}
use bap.Jit.Fast.{FastCells, fast_load, fast_store}
use bap.Jit.Fast.Coherent.{IsCoherent, IsSame}
use bap.Jit.Fast.Loads.{fast_load_lem}
use bap.Jit.Fast.Writes.{fast_store_lem}
use bap.Jit.Runs.{Left, run_object, object_cells, log_of_cells}
use bap.Jit.Runs.Changes.{KeepsTracked, IsOrder, has_number, run_object-KeepsTracked}
use bap.Jit.Runs.Stores.{run_stores, run_stores-Records}
use bap.Jit.Runs.Steps.{Change, written, zeroed, ran, change_by_all}

-- Cells on a memory, with no page remembered.
abbrev new_cells : FastCells
new_cells = record {
  cells = object_cells (store empty 4096 (1 ∷ 2 ∷ 3 ∷ 4 ∷ []));
  page_entries = λ i. record { tag = 0; page = 0 };
}

new_cells-IsCoherent : IsCoherent new_cells
new_cells-IsCoherent i = inl refl

-- The page of the first load is remembered for the next.
abbrev warm_cells : FastCells
warm_cells = (fast_load new_cells 4096 4 true).1

warm_cells-IsCoherent : IsCoherent warm_cells
warm_cells-IsCoherent = (fast_load_lem new_cells 4096 4 true (omega arith) new_cells-IsCoherent).2

fast_load_lem_example :
    ((fast_load warm_cells 4098 2 true).0 ≡ load_bytes warm_cells.cells 4098 2 true)
    × IsSame warm_cells.cells ((fast_load warm_cells 4098 2 true).1.cells)
    × IsCoherent (fast_load warm_cells 4098 2 true).1
fast_load_lem_example = fast_load_lem warm_cells 4098 2 true (omega arith) warm_cells-IsCoherent

fast_store_lem_example :
    IsSame
      (store_bytes warm_cells.cells 4100 4 true 66051)
      ((fast_store warm_cells 4100 4 true 66051).cells)
    × IsCoherent (fast_store warm_cells 4100 4 true 66051)
fast_store_lem_example =
    fast_store_lem 4100 4 true 66051 (omega arith) (omega arith) warm_cells warm_cells-IsCoherent

abbrev some_stores : List (ℕ × ℕ × Bool × ℕ)
some_stores = (4100, 4, false, 7) ∷ []

-- A program that stores and then fails.
abbrev failing : List ℕ → Cells → Left
failing slots cells = record {
  next = 0;
  slots = slots;
  cells = run_stores cells some_stores;
  error = some 3;
}

abbrev stepped : Memory
stepped = begin_step empty

abbrev one_page : StoreLog → List ℕ
one_page log = 1 ∷ []

one_page-IsOrder : (m : Memory) → IsOrder (log_of_cells (failing [] (object_cells m))) (1 ∷ [])
unfolding run_stores store_bytes memory_note note note_aligned has_number
one_page-IsOrder m = (
  λ n page h. elim (Bool-cases (n == 1)) [ inl k ↦ ground arith | inr k ↦ ground arith ],
  (omega arith, tt),
)

run_object-KeepsTracked_example :
    KeepsTracked empty
      (run_object failing one_page record { max_slot = 0; memory_stores = 4 } [] stepped)
run_object-KeepsTracked_example =
    run_object-KeepsTracked failing one_page record { max_slot = 0; memory_stores = 4 } [] empty
      stepped (begin_step-IsTracked empty)
      (run_stores-Records stepped some_stores 0 [] (some 3) (omega arith, omega arith, tt))
      (one_page-IsOrder stepped)

-- Two bytes that are written, a write that is refused, a program that stores and fails, and half of a page that is zeroed.
abbrev some_changes : List Change
some_changes =
    written (4097 ∷ 4098 ∷ []) (5 ∷ 6 ∷ [])
    ∷ written (9 ∷ []) []
    ∷ ran failing record { max_slot = 0; memory_stores = 4 } []
    ∷ zeroed 4098 6143
    ∷ []

abbrev changed : Memory
changed = change_by_all one_page (begin_step empty) some_changes
