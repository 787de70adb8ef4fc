-- ===== src/Jit/Access.antt =====
-- native/bap_jit.cpp: the loads and stores of compiled code, on the pages of a memory or on a list of cells.
pub mod CellList
pub mod RoundTrip
use bap.Common.{
  ℕ, zero, suc, ◌+◌, ◌-◌, ◌*◌, ◌%◌, ◌/◌, ◌^◌, ◌<◌, ◌≤◌, List, [], ◌∷◌, ◌++◌, ◌==◌, leb, ltb,
  if◌then◌else◌, Bool, true, false, not, ◌&&◌, ◌||◌, Option, none, some, get_or, length,
}
use bap.Common.Word.{u64, add64}
use bap.Paged.Memory.{Memory}
use bap.Paged.Access.{load, store}
use bap.Jit.StoreLog.{StoreLog, note, byte_of}

-- What of `BapCells` an access goes by: `items` as addresses with their values, of which there is room for `capacity`; `pages` and `changes`
-- or null; and whether there is an error.
pub record Cells : Type 0 where
  pub items : List (ℕ × ℕ)
  pub capacity : ℕ
  pub pages : Option Memory
  pub changes : Option StoreLog
  pub failed : Bool

-- `loadByte`.
unfoldable pub load_byte : List (ℕ × ℕ) → ℕ → ℕ
load_byte [] address = 0
load_byte ((a, value) ∷ items) address = if a == address then value else load_byte items address

unfoldable pub holds : List (ℕ × ℕ) → ℕ → Bool
holds [] address = false
holds ((a, value) ∷ items) address = a == address || holds items address

unfoldable pub replace : List (ℕ × ℕ) → ℕ → ℕ → List (ℕ × ℕ)
replace [] address value = []
replace ((a, v) ∷ items) address value =
    if a == address then (a, value) ∷ items else (a, v) ∷ replace items address value

-- `storeByte`: over the first cell of the address, else in a new one where there is room.
unfoldable pub store_byte : ℕ → List (ℕ × ℕ) → ℕ → ℕ → List (ℕ × ℕ)
store_byte capacity items address value =
    if holds items address
    then replace items address value
    else if ltb (length items) capacity
    then items ++ (address, value) ∷ []
    else items

-- The bytes of `size` that `loadByte` gives from `index` on, `left` of them.
unfoldable pub load_cells : List (ℕ × ℕ) → ℕ → ℕ → ℕ → List ℕ
load_cells items address index zero = []
load_cells items address index (suc left) =
    load_byte items (add64 address index) ∷ load_cells items address (index + 1) left

unfoldable pub store_cells : ℕ → List (ℕ × ℕ) → ℕ → ℕ → List ℕ → List (ℕ × ℕ)
store_cells capacity items address index [] = items
store_cells capacity items address index (b ∷ bytes) =
    store_cells capacity (store_byte capacity items (add64 address index) b) address (index + 1)
      bytes

-- The bytes of a value as they go to memory, from `index` on, `left` of them.
unfoldable pub split : ℕ → Bool → ℕ → ℕ → ℕ → List ℕ
split size big_endian value index zero = []
split size big_endian value index (suc left) =
    byte_of size big_endian value index ∷ split size big_endian value (index + 1) left

-- The value of bytes from memory. Each has bits of its own, so that the `|` of them is a sum.
unfoldable pub join : ℕ → Bool → ℕ → List ℕ → ℕ
join size big_endian index [] = 0
join size big_endian index (b ∷ bytes) =
    b * 2 ^ ((if big_endian then size - 1 - index else index) * 8)
    + join size big_endian (index + 1) bytes

-- `bap_jit_memory_load_bytes`.
unfoldable pub load_bytes : Cells → ℕ → ℕ → Bool → ℕ
load_bytes cells address size big_endian =
    if cells.failed
    then 0
    else join size big_endian 0 (elim cells.pages [
      | some m ↦ load m address size
      | none ↦ load_cells cells.items address 0 size
    ])

-- `bap_jit_memory_note`.
unfoldable pub memory_note : Cells → ℕ → ℕ → Bool → ℕ → Cells
memory_note cells address size big_endian value = elim cells.changes [
  | none ↦ cells
  | some log ↦ record cells { changes = some (note log address size big_endian value) }
]

-- `bap_jit_memory_store_bytes`.
unfoldable pub store_bytes : Cells → ℕ → ℕ → Bool → ℕ → Cells
store_bytes cells address size big_endian value =
    let bytes = split size big_endian value 0 size in
    let stored : Cells = elim cells.pages [
      | some m ↦ record cells { pages = some (store m address bytes) }
      | none ↦ record cells { items = store_cells cells.capacity cells.items address 0 bytes }
    ] in
    if cells.failed then cells else memory_note stored address size big_endian value
