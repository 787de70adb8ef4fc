-- ===== src/Paged/Step.antt =====
-- native/paged_memory.h: what has been written since a step began. `stepLock` is held for the whole of each of these.
pub mod Addresses
pub mod Log
use bap.Common.{
  ℕ, zero, suc, ◌+◌, ◌%◌, ◌^◌, ◌<◌, ◌≤◌, List, [], ◌∷◌, ◌++◌, ◌==◌, leb, ltb, if◌then◌else◌, length,
  Bool, true, false, not, ◌||◌, Option, some, none,
}
use bap.Common.Word.{u64, add64}
use bap.Paged.Memory.{Memory}

abbrev pub step_limit : ℕ
step_limit = 2 ^ 22

-- `beginStep`: both branches on the capacity leave no writes.
unfoldable pub begin_step : Memory → Memory
begin_step m = record m { step_writes = []; step_overflowed = false; step_open = true }

-- `endStep`.
unfoldable pub end_step : Memory → Memory
end_step m = record m { step_open = false; step_writes = []; step_overflowed = false }

-- `stepActive`.
abbrev pub step_active : Memory → Bool
step_active m = m.step_open

-- `noteStep`: `size` is kept in a `uint8_t`.
unfoldable pub note_step : Memory → ℕ → ℕ → Memory
note_step m address size =
    if not (step_active m)
    then m
    else if m.step_overflowed
    then m
    else if leb step_limit (length m.step_writes)
    then record m { step_overflowed = true; step_writes = [] }
    else record m { step_writes = m.step_writes ++ (address, size % 256) ∷ [] }

-- The addresses of one write, `count` of them from the one at `index` on.
abbrev pub addresses_of : ℕ → ℕ → ℕ → List ℕ
addresses_of address index zero = []
addresses_of address index (suc count) =
    add64 address index ∷ addresses_of address (index + 1) count

unfoldable pub all_addresses : List (ℕ × ℕ) → List ℕ
all_addresses [] = []
all_addresses ((address, size) ∷ writes) = addresses_of address 0 size ++ all_addresses writes

-- `std::sort`.
unfoldable pub insert : ℕ → List ℕ → List ℕ
insert x [] = x ∷ []
insert x (y ∷ ys) = if leb x y then x ∷ y ∷ ys else y ∷ insert x ys

unfoldable pub sort : List ℕ → List ℕ
unfolding insert
sort [] = []
sort (x ∷ xs) = insert x (sort xs)

-- `std::unique`: of elements in a row that are equal, the first.
unfoldable pub unique : List ℕ → List ℕ
unique [] = []
unique (x ∷ []) = x ∷ []
unique (x ∷ y ∷ ys) = let rest = unique (y ∷ ys) in if x == y then rest else x ∷ rest

-- `stepAddresses`, which adds to the vector that it is given: `none` where it returns false.
unfoldable pub step_addresses : Memory → List ℕ → Option (List ℕ)
unfolding all_addresses sort unique
step_addresses m addresses =
    if m.step_overflowed || not m.step_open
    then none
    else some (unique (sort (addresses ++ all_addresses m.step_writes)))
