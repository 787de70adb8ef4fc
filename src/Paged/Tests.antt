-- ===== src/Paged/Tests.antt =====
-- native/paged_memory.h: the memory on concrete inputs.
use bap.Common.{
  ℕ, ◌-◌, ◌^◌, ◌<◌, ◌≡◌, refl, List, [], ◌∷◌, true, false, some, none, arith, ◌⊎◌, ◌%◌, ◌==◌,
  if◌then◌else◌,
}
use bap.Common.Word.{u64}
use bap.Paged.Table.{Page, zero_page, page_size}
use bap.Paged.Memory.{Memory, empty, byte, find}
use bap.Paged.Access.{load, store, bytes_from}
use bap.Paged.Access.Load.{load_lem}
use bap.Paged.Access.Store.{byte-store, load-store}
use bap.Paged.Step.{begin_step, step_addresses}
use bap.Paged.Step.Addresses.{contains, covered, IsAscending, step_addresses_lem}
use bap.Paged.Step.Log.{IsTracked, begin_step-IsTracked}
use bap.Paged.WriteAll.{write_all}
use bap.Paged.WriteAll.Pairs.{AreAddresses, byte-write_all, write_all-IsTracked}
use bap.Paged.Fill.{fill}
use bap.Paged.Fill.Bytes.{byte-fill}
use bap.Paged.Pages.{pages}
use bap.Paged.Pages.Order
use bap.Paged.Pages.Order.{page_at}
use bap.Paged.Pages.Visit.{pages_lem}
use bap.Paged.ZeroRange.{zero_range}
use bap.Paged.ZeroRange.Range.{byte-zero_range, zero_range-IsTracked}
use bap.Paged.Copy.{copy_from, byte-copy_from}
use bap.Paged.Trim.{trim, byte-trim}

-- The last address but one, from which an access of more than two bytes goes on at 0.
abbrev near_end : ℕ
near_end = 2 ^ 64 - 2

-- Three bytes across two words of one page.
abbrev some_bytes : Memory
some_bytes = store empty 4101 (7 ∷ 8 ∷ 9 ∷ 10 ∷ [])

-- A step that is open, with one write.
abbrev in_step : Memory
in_step = record (begin_step some_bytes) { step_writes = (4101, 4) ∷ [] }

-- Pairs of which two go on from each other and the last writes an address again.
abbrev some_pairs : List (ℕ × ℕ)
some_pairs = (4096, 1) ∷ (4097, 2) ∷ (4096, 3) ∷ []

some_pairs_small : AreAddresses some_pairs
some_pairs_small = (omega arith, (omega arith, (omega arith, tt)))

byte-store_example : byte (store some_bytes near_end (1 ∷ 2 ∷ 3 ∷ [])) 0 ≡ 3
byte-store_example =
    byte-store some_bytes near_end (1 ∷ 2 ∷ 3 ∷ []) 0 (omega arith) (omega arith) (omega arith)

load-store_example : load (store some_bytes near_end (1 ∷ 2 ∷ 3 ∷ [])) near_end 3 ≡ 1 ∷ 2 ∷ 3 ∷ []
load-store_example = load-store some_bytes near_end (1 ∷ 2 ∷ 3 ∷ []) (omega arith) (omega arith)

load_lem_example : load some_bytes 4103 3 ≡ bytes_from some_bytes 4103 0 3
load_lem_example = load_lem some_bytes 4103 3

byte-write_all_example : byte (write_all some_bytes some_pairs) 4096 ≡ 3
byte-write_all_example = byte-write_all some_bytes some_pairs 4096 (omega arith) some_pairs_small

byte-zero_range_example : byte (zero_range some_bytes 4102 9000) 4103 ≡ 0
byte-zero_range_example = byte-zero_range some_bytes 4102 9000 4103 (omega arith) (omega arith)

byte-fill_example : byte (fill some_bytes 4095 (0 ∷ 5 ∷ 6 ∷ [])) 4097 ≡ 6
byte-fill_example =
    byte-fill some_bytes 4095 (0 ∷ 5 ∷ 6 ∷ []) 4097 (omega arith) (omega arith) (omega arith)

step_addresses_lem_example :
    ((false ≡ true) × (step_addresses in_step [] ≡ none))
    ⊎ ((xs : List ℕ) × (false ≡ false)
        × (step_addresses in_step [] ≡ some xs)
        × IsAscending 0 xs
        × ((x : ℕ) → x < u64 → contains xs x ≡ covered ((4101, 4) ∷ []) x))
unfolding begin_step
step_addresses_lem_example = step_addresses_lem in_step (omega arith, omega arith, tt)

write_all-IsTracked_example : IsTracked some_bytes (write_all (begin_step some_bytes) some_pairs)
write_all-IsTracked_example =
    write_all-IsTracked some_bytes (begin_step some_bytes) some_pairs some_pairs_small
      (begin_step-IsTracked some_bytes)

zero_range-IsTracked_example : IsTracked some_bytes (zero_range (begin_step some_bytes) 4102 9000)
zero_range-IsTracked_example =
    zero_range-IsTracked some_bytes (begin_step some_bytes) 4102 9000 (omega arith)
      (begin_step-IsTracked some_bytes)

pages_lem_example :
    Order.IsAscending 0 u64 (pages some_bytes)
    × ((x : ℕ)
        → x < u64
        → page_at (pages some_bytes) x ≡ (if x % page_size == 0 then find some_bytes x else none))
pages_lem_example = pages_lem some_bytes

-- A memory with a page where the other has one too, and with one more.
abbrev other_bytes : Memory
other_bytes = store empty 8190 (8 ∷ 9 ∷ 10 ∷ [])

byte-copy_from_example :
    byte (copy_from some_bytes other_bytes) 8191
    ≡ elim (find other_bytes 8191) [ none ↦ byte some_bytes 8191 | some p ↦ p (8191 % page_size) ]
byte-copy_from_example = byte-copy_from some_bytes other_bytes 8191 (omega arith)

-- Pages that the host gives back as zeros.
abbrev give_back : Page → Page
give_back p = zero_page

byte-trim_example : byte (trim give_back 4096 some_bytes 0 (2 ^ 64 - 1)) 4101 ≡ byte some_bytes 4101
byte-trim_example =
    byte-trim give_back 4096 some_bytes 0 (2 ^ 64 - 1) 4101 (λ p i. refl) (omega arith)
