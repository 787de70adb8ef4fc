-- ===== src/Jit/Fast.antt =====
-- native/bap_jit.cpp: what `compileOps` compiles a load or a store of a memory to, with the pages that a run remembers. A pointer to a page is
-- the number of the page, a number in memory its bytes as they stand there, and the host is one that has the least byte first.
pub mod Orders
pub mod Coherent
pub mod Loads
pub mod Kept
pub mod Writes
use bap.Common.{
  ℕ, zero, suc, ◌+◌, ◌-◌, ◌*◌, ◌/◌, ◌%◌, ◌^◌, ◌==◌, leb, if◌then◌else◌, Bool, true, false, not,
  ◌&&◌, ◌||◌, List, [], ◌∷◌, ◌++◌, Option, none, some,
}
use bap.Common.Word.{add64}
use bap.Paged.Memory.{Memory, find, ensure, write_page}
use bap.Paged.Word.{read_bytes, write_bytes}
use bap.Jit.Access.{Cells, join, split, load_bytes, memory_note, store_bytes}

-- `BapPageEntry`.
pub record PageEntry : Type 0 where
  pub tag : ℕ
  pub page : ℕ

-- `BapCells` with its `pageEntries`.
pub record FastCells : Type 0 where
  pub cells : Cells
  pub page_entries : ℕ → PageEntry

-- `pageEntryCount`.
abbrev pub page_entry_count : ℕ
page_entry_count = 64

-- The page of an address, made for a store where it isn't there, once there are pages and no error.
abbrev pub page_for : Memory → ℕ → Bool → Memory
page_for m address write = if write then ensure m address else m

abbrev pub remember_page : FastCells → Memory → ℕ → FastCells
remember_page fast m number = record {
  cells = record (fast.cells) { pages = some m };
  page_entries = λ i.
      if i == number % page_entry_count
      then record { tag = number + 1; page = number }
      else fast.page_entries i;
}

-- `bap_jit_memory_page`.
unfoldable pub memory_page : FastCells → ℕ → Bool → Option ℕ × FastCells
memory_page fast address write = elim fast.cells.pages [
  | none ↦ (none, fast)
  | some m ↦
      if fast.cells.failed
      then (none, fast)
      else elim (find (page_for m address write) address) as (λ _. Option ℕ × FastCells) [
        | none ↦ (
          none,
          record fast { cells = record (fast.cells) { pages = some (page_for m address write) } },
        )
        | some page ↦
            (some (address / 4096), remember_page fast (page_for m address write) (address / 4096))
      ]
]

-- `hasInstruction`.
abbrev pub has_instruction : ℕ → Bool
has_instruction size = size == 1 || size == 2 || size == 4 || size == 8

-- `pageForAccess`: the page in hand, or none where the access goes the slow way.
unfoldable pub page_for_access : FastCells → ℕ → ℕ → Bool → Option ℕ × FastCells
unfolding memory_page
page_for_access fast base size write =
    let number = base / 4096 in
    let entry = fast.page_entries (number % page_entry_count) in
    if not (base % size == 0)
    then (none, fast)
    else if entry.tag == add64 number 1
    then (some entry.page, fast)
    else memory_page fast base write

unfoldable pub reverse : List ℕ → List ℕ
reverse [] = []
reverse (x ∷ xs) = reverse xs ++ (x ∷ [])

-- `swapped`.
abbrev pub swapped : ℕ → Bool → List ℕ → List ℕ
swapped size big_endian bytes = if size == 1 || not big_endian then bytes else reverse bytes

-- The bytes at an address of a page in hand.
abbrev pub page_bytes : FastCells → ℕ → ℕ → ℕ → List ℕ
page_bytes fast page offset size = elim fast.cells.pages [
  | none ↦ []
  | some m ↦ elim (find m (page * 4096)) [ none ↦ [] | some p ↦ read_bytes p offset size ]
]

-- A memory load.
unfoldable pub fast_load : FastCells → ℕ → ℕ → Bool → ℕ × FastCells
unfolding page_for_access reverse
fast_load fast base size big_endian =
    let (page, after) = page_for_access fast base size false in
    if not (has_instruction size)
    then (load_bytes fast.cells base size big_endian, fast)
    else elim page as (λ _. ℕ × FastCells) [
      | none ↦ (load_bytes after.cells base size big_endian, after)
      | some number ↦ (
        join size false 0 (swapped size big_endian (page_bytes after number (base % 4096) size)),
        after,
      )
    ]

-- A write to a page in hand.
abbrev pub write_in_page : FastCells → ℕ → ℕ → List ℕ → Cells
write_in_page fast page offset bytes = elim fast.cells.pages [
  | none ↦ fast.cells
  | some m ↦ record (fast.cells) {
    pages = some (write_page m (page * 4096) (λ p. write_bytes p offset bytes));
  }
]

-- A memory store.
unfoldable pub fast_store : FastCells → ℕ → ℕ → Bool → ℕ → FastCells
unfolding page_for_access reverse
fast_store fast base size big_endian value =
    let (page, after) = page_for_access fast base size true in
    if not (has_instruction size)
    then record fast { cells = store_bytes fast.cells base size big_endian value }
    else elim page [
      | none ↦ record after { cells = store_bytes after.cells base size big_endian value }
      | some number ↦
          let bytes = swapped size big_endian (split size false value 0 size) in
          record after {
            cells =
                memory_note (write_in_page after number (base % 4096) bytes) base size big_endian
                  value;
          }
    ]
