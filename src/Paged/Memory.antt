-- ===== src/Paged/Memory.antt =====
-- native/paged_memory.h: the state of a `PagedMemory`, and what it holds at each address.
use bap.Common.{
  ℕ, ◌/◌, ◌%◌, ◌^◌, ◌<◌, ◌≡◌, Bool, false, Option, none, some, List, [], arith, ◌==◌, if◌then◌else◌,
  eq→==, ◌∙◌,
}
use bap.Common.Word.{u64}
use bap.Paged.Table
use bap.Paged.Table.{Table, Page, page_size, page_bits, zero_page, same_path, index_at}

abbrev pub levels : ℕ
levels = 4

-- The table of pages, and what has been written since a step began: an address and a number of bytes each, in the order of the writes.
pub record Memory : Type 0 where
  pub root : Table levels
  pub step_open : Bool
  pub step_writes : List (ℕ × ℕ)
  pub step_overflowed : Bool

-- `PagedMemory()`.
abbrev pub empty : Memory
empty = record { root = λ _. none; step_open = false; step_writes = []; step_overflowed = false }

-- `find`: the page of an address, or null.
unfoldable pub find : Memory → ℕ → Option Page
find m address = Table.find levels m.root address

-- `ensure`, of one thread.
unfoldable pub ensure : Memory → ℕ → Memory
ensure m address = record m { root = Table.ensure levels m.root address }

unfoldable pub write_page : Memory → ℕ → (Page → Page) → Memory
write_page m address f = record m { root = Table.write_page levels m.root address f }

-- What a memory holds at an address: the byte of its page, and 0 where there is none.
unfoldable pub byte : Memory → ℕ → ℕ
byte m address = elim (find m address) [ none ↦ 0 | some p ↦ p (address % page_size) ]

-- `address >> pageBits`.
abbrev pub page_number : ℕ → ℕ
page_number address = address / page_size

page_of_indices :
    (a b : ℕ)
    → a < u64
    → b < u64
    → a / 2 ^ 12 % 2 ^ 13 ≡ b / 2 ^ 12 % 2 ^ 13
    → a / 2 ^ 25 % 2 ^ 13 ≡ b / 2 ^ 25 % 2 ^ 13
    → a / 2 ^ 38 % 2 ^ 13 ≡ b / 2 ^ 38 % 2 ^ 13
    → a / 2 ^ 51 % 2 ^ 13 ≡ b / 2 ^ 51 % 2 ^ 13
    → a / 2 ^ 12 ≡ b / 2 ^ 12
page_of_indices a b ha hb h0 h1 h2 h3 = omega arith

indices_of_page :
    (a b : ℕ)
    → a / 2 ^ 12 ≡ b / 2 ^ 12
    → (a / 2 ^ 25 % 2 ^ 13 ≡ b / 2 ^ 25 % 2 ^ 13)
      × (a / 2 ^ 38 % 2 ^ 13 ≡ b / 2 ^ 38 % 2 ^ 13)
      × (a / 2 ^ 51 % 2 ^ 13 ≡ b / 2 ^ 51 % 2 ^ 13)
indices_of_page a b h = omega arith

-- The entries that an address goes through are those of its page number, as an address has 64 bits.
same_path-eq :
    (a b : ℕ) → a < u64 → b < u64 → same_path levels a b ≡ (page_number b == page_number a)
unfolding index_at
same_path-eq a b ha hb = ground (arith, page_of_indices a b ha hb, indices_of_page a b)

pub find-ensure :
    (m : Memory) (a b : ℕ)
    → a < u64
    → b < u64
    → find (ensure m a) b ≡ elim (find m b) [
      | some p ↦ some p
      | none ↦ if page_number b == page_number a then some zero_page else none
    ]
unfolding find ensure
find-ensure m a b ha hb =
    ground (arith, same_path-eq a b ha hb, Table.find-ensure levels m.root a b)

pub find-write_page :
    (m : Memory) (a b : ℕ) (f : Page → Page)
    → a < u64
    → b < u64
    → find (write_page m a f) b ≡ elim (find m b) [
      | some p ↦ some (if page_number b == page_number a then f p else p)
      | none ↦ none
    ]
unfolding find write_page
find-write_page m a b f ha hb =
    ground (arith, same_path-eq a b ha hb, Table.find-write_page levels m.root a b f)

-- A page that is made reads as what was there before: zeros.
pub byte-ensure : (m : Memory) (a b : ℕ) → a < u64 → b < u64 → byte (ensure m a) b ≡ byte m b
unfolding byte
byte-ensure m a b ha hb = ground (arith, find-ensure m a b ha hb)

-- Two addresses of one page find the same page.
pub find_congr :
    (m : Memory) (a b : ℕ) → a < u64 → b < u64 → page_number b ≡ page_number a → find m b ≡ find m a
unfolding find
find_congr m a b ha hb h = Table.find_congr levels m.root a b (same_path-eq a b ha hb ∙ eq→== _ _ h)
