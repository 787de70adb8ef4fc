-- ===== src/Jit/Runs/Steps.antt =====
-- native/bap_jit.cpp: a step of a memory object from its begin to what it tells of, whatever is done to the memory between.
use bap.Common.{ℕ, ◌<◌, Bool, false, List, [], ◌∷◌, none, some, leb, ◌&&◌, ◌||◌}
use bap.Common.Word.{u64}
use bap.Paged.Memory.{Memory}
use bap.Paged.WriteAll.Pairs.{AreAddresses}
use bap.Paged.ZeroRange.{zero_range}
use bap.Jit.StoreLog.{StoreLog}
use bap.Jit.Access.{Cells}
use bap.Jit.Object.{pair_up, write}
use bap.Jit.Runs.{
  Compiled, Left, Run, few_slots, unequal_arrays, failure, success, run_object, object_cells,
  log_of_cells, changes_of,
}
use bap.Jit.Runs.Changes.{is_changed, Records, IsOrder}

-- What is done to a memory object in a step: `bap_jit_memory_write`, `bap_jit_memory_zero`, or a run of a program on it.
pub data Change : Type 0 where
  written : List ℕ → List ℕ → Change
  zeroed : ℕ → ℕ → Change
  ran : (List ℕ → Cells → Left) → Compiled → List ℕ → Change

-- The memory that a run leaves, which it does not touch where it refuses to start.
unfoldable pub left_by : Memory → Run (List (ℕ × ℕ) × Memory) Memory → Memory
left_by m few_slots = m
left_by m unequal_arrays = m
left_by m (failure error after) = after
left_by m (success next slots (changes, after)) = after

module _ (numbers : StoreLog → List ℕ) where
  unfoldable pub change_by : Memory → Change → Memory
  unfolding write left_by
  change_by m (written addresses values) = elim (write m addresses values) [
    | none ↦ m
    | some after ↦ after
  ]
  change_by m (zeroed first last) = zero_range m first last
  change_by m (ran execute program state) = left_by m (run_object execute numbers program state m)

  unfoldable pub change_by_all : Memory → List Change → Memory
  change_by_all m [] = m
  change_by_all m (change ∷ changes) = change_by_all (change_by m change) changes

  -- Addresses are those of 64 bits. What compiled code changes of a memory, it logs, and the map of its log goes through all its pages.
  abbrev pub IsPossible : Change → Type 0
  IsPossible (written addresses values) = AreAddresses (pair_up addresses values)
  IsPossible (zeroed first last) = last < u64
  IsPossible (ran execute program state) =
      (m : Memory)
      → Records m (execute state (object_cells m))
        × IsOrder (log_of_cells (execute state (object_cells m)))
            (numbers (log_of_cells (execute state (object_cells m))))

  abbrev pub ArePossible : List Change → Type 0
  ArePossible [] = Unit
  ArePossible (change ∷ changes) = IsPossible change × ArePossible changes

  -- The changes that a run of a program tells of.
  abbrev pub changes_by : Memory → (List ℕ → Cells → Left) → List ℕ → List (ℕ × ℕ)
  changes_by m execute state =
      let log = log_of_cells (execute state (object_cells m)) in changes_of log (numbers log)

  -- Whether a change of a memory may be one of the byte at `x`: it is among the addresses written, in the range zeroed, or among the changes
  -- of the run.
  unfoldable pub reaches : Memory → Change → ℕ → Bool
  reaches m (written addresses values) x = is_changed (pair_up addresses values) x
  reaches m (zeroed first last) x = leb first x && leb x last
  reaches m (ran execute program state) x = is_changed (changes_by m execute state) x

  unfoldable pub one_reaches : Memory → List Change → ℕ → Bool
  one_reaches m [] x = false
  one_reaches m (change ∷ changes) x =
      reaches m change x || one_reaches (change_by m change) changes x
