-- ===== src/Jit/Filter.antt =====
-- native/bap_jit.cpp: `MemoryFilter`, the ranges where the memory observer would do nothing.
pub mod Insert
pub mod Covers
use bap.Common.{
  ℕ, zero, suc, ◌+◌, ◌-◌, ◌%◌, ◌/◌, ◌<◌, ◌≤◌, List, [], ◌∷◌, ◌==◌, leb, ltb, if◌then◌else◌, Bool,
  true, false, not, ◌&&◌, ◌||◌, Option, none, some,
}
use bap.Common.Word.{u64, add64}

pub record Range : Type 0 where
  pub first : ℕ
  pub last : ℕ
  pub read_quiet : Bool
  pub write_quiet : Bool

-- `ranges`, a `std::map` by the first address: its entries in order.
abbrev pub Ranges : Type 0
Ranges = List Range

-- `upper_bound`: the first entry whose key is above `address`, if any.
unfoldable pub upper_bound : Ranges → ℕ → Option Range
upper_bound [] address = none
upper_bound (r ∷ rest) address = if ltb address r.first then some r else upper_bound rest address

-- `std::prev` of `upper_bound`: the last entry before it, and none where `upper_bound` is the beginning.
unfoldable pub before_bound : Ranges → ℕ → Option Range
before_bound [] address = none
before_bound (r ∷ rest) address =
    if ltb address r.first
    then none
    else elim (before_bound rest address) [ none ↦ some r | some q ↦ some q ]

-- `emplace`, which changes nothing where the key is there.
unfoldable pub emplace : Range → Ranges → Ranges
emplace r [] = r ∷ []
emplace r (q ∷ rest) =
    if ltb r.first q.first
    then r ∷ q ∷ rest
    else if r.first == q.first
    then q ∷ rest
    else q ∷ emplace r rest

-- `erase` of a key.
unfoldable pub erase : ℕ → Ranges → Ranges
erase key [] = []
erase key (q ∷ rest) = if q.first == key then rest else q ∷ erase key rest

abbrev pub quiet_for : Range → Bool → Bool
quiet_for r write = if write then r.write_quiet else r.read_quiet

-- `quietRange`. `address + size - 1` is of 64 bits.
unfoldable pub quiet_range : Ranges → ℕ → ℕ → Bool → Option Range
quiet_range ranges address size write =
    let last = (address + size + u64 - 1) % u64 in
    if size == 0
    then none
    else if ltb last address
    then none
    else elim (before_bound ranges address) [
      | none ↦ none
      | some range ↦ if leb last range.last && quiet_for range write then some range else none
    ]

-- `insert`: `none` where it returns false.
unfoldable pub insert : Ranges → Range → Option Ranges
insert ranges range =
    let after_clear = elim (upper_bound ranges range.first) as (λ _. Bool) [
      | none ↦ true
      | some q ↦ ltb range.last q.first
    ] in
    let before_clear = elim (before_bound ranges range.first) as (λ _. Bool) [
      | none ↦ true
      | some q ↦ ltb q.last range.first
    ] in
    if ltb range.last range.first
    then none
    else if not after_clear
    then none
    else if not before_clear
    then none
    else some (emplace range ranges)

unfoldable pub insert_all : Ranges → List Range → Option Ranges
insert_all ranges [] = some ranges
insert_all ranges (r ∷ rest) = elim (insert ranges r) [
  | none ↦ none
  | some more ↦ insert_all more rest
]

-- `bap_jit_memory_filter_create`, of ranges that stand in arrays of one length.
unfoldable pub filter_create : List Range → Option Ranges
filter_create given = insert_all [] given

unfoldable pub erase_all : List ℕ → Ranges → Ranges
erase_all [] ranges = ranges
erase_all (key ∷ keys) ranges = erase_all keys (erase key ranges)

-- `bap_jit_memory_filter_update`: `none` where it returns false.
unfoldable pub filter_update : Ranges → List ℕ → List Range → Option Ranges
filter_update ranges removed given = insert_all (erase_all removed ranges) given
