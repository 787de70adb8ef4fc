-- ===== src/Paged/Step/Addresses.antt =====
-- The addresses that a step tells of: each one written, once, in order.
use bap.Common.{
  ℕ, zero, suc, ◌+◌, ◌<◌, ◌≤◌, ◌≡◌, refl, List, [], ◌∷◌, ◌++◌, ◌==◌, leb, ltb, Bool, true, false,
  not, ◌||◌, ◌&&◌, some, none, arith, ◌∙◌, Bool-cases, inl, inr, ◌⊎◌,
}
use bap.Common.Word.{u64}
use bap.Paged.Memory.{Memory}
use bap.Paged.Access.{distance}
use bap.Paged.Step.{addresses_of, all_addresses, insert, sort, unique, step_addresses}

pub contains : List ℕ → ℕ → Bool
contains [] x = false
contains (y ∷ ys) x = y == x || contains ys x

-- `x` is one of the bytes that the writes told of.
abbrev pub covered : List (ℕ × ℕ) → ℕ → Bool
covered [] x = false
covered ((address, size) ∷ writes) x = ltb (distance address x) size || covered writes x

-- Each element is less than the next, and none less than `least`.
abbrev pub IsAscending : ℕ → List ℕ → Type 0
IsAscending least [] = Unit
IsAscending least (x ∷ xs) = (least ≤ x) × IsAscending (suc x) xs

abbrev IsSorted : ℕ → List ℕ → Type 0
IsSorted least [] = Unit
IsSorted least (x ∷ xs) = (least ≤ x) × IsSorted x xs

contains-append : (xs ys : List ℕ) (x : ℕ) → contains (xs ++ ys) x ≡ contains xs x || contains ys x
unfolding contains
contains-append [] ys x = refl
contains-append (y ∷ xs) ys x = ground (arith, contains-append xs ys x)

contains-insert : (y : ℕ) (xs : List ℕ) (x : ℕ) → contains (insert y xs) x ≡ y == x || contains xs x
unfolding contains insert
contains-insert y [] x = refl
contains-insert y (z ∷ xs) x = ground (arith, contains-insert y xs x)

contains-sort : (xs : List ℕ) (x : ℕ) → contains (sort xs) x ≡ contains xs x
unfolding contains sort
contains-sort [] x = refl
contains-sort (y ∷ xs) x = ground (arith, contains-insert y (sort xs) x, contains-sort xs x)

contains-unique : (xs : List ℕ) (x : ℕ) → contains (unique xs) x ≡ contains xs x
unfolding contains unique
contains-unique [] x = refl
contains-unique (y ∷ []) x = refl
contains-unique (y ∷ z ∷ xs) x = ground (arith, contains-unique (z ∷ xs) x)

insert-IsSorted :
    (least y : ℕ) (xs : List ℕ) → least ≤ y → IsSorted least xs → IsSorted least (insert y xs)
unfolding insert
insert-IsSorted least y [] h s = (h, tt)
insert-IsSorted least y (z ∷ xs) h s = elim (Bool-cases (leb y z)) [
  | inl e ↦ rw e (h, (ground arith, s.1))
  | inr e ↦ rw e (s.0, insert-IsSorted z y xs (ground arith) s.1)
]

sort-IsSorted : (xs : List ℕ) → IsSorted 0 (sort xs)
unfolding sort
sort-IsSorted [] = tt
sort-IsSorted (x ∷ xs) = insert-IsSorted 0 x (sort xs) (omega arith) (sort-IsSorted xs)

unique-IsAscending : (least : ℕ) (xs : List ℕ) → IsSorted least xs → IsAscending least (unique xs)
unfolding unique
unique-IsAscending least [] s = tt
unique-IsAscending least (x ∷ []) s = (s.0, tt)
unique-IsAscending least (x ∷ y ∷ xs) s = elim (Bool-cases (x == y)) [
  | inl e ↦ rw e (unique-IsAscending least (y ∷ xs) (ground arith, s.1.1))
  | inr e ↦ rw e (s.0, unique-IsAscending (suc x) (y ∷ xs) (ground arith, s.1.1))
]

contains-addresses_of :
    (address index count x : ℕ)
    → address < u64
    → x < u64
    → index + count ≤ u64
    → contains (addresses_of address index count) x
      ≡ (leb index (distance address x) && ltb (distance address x) (index + count))
unfolding contains
contains-addresses_of address index zero x ha hx h = ground arith
contains-addresses_of address index (suc count) x ha hx h =
    ground (arith, contains-addresses_of address (index + 1) count x ha hx)

-- Every write of the log starts at an address and has at most 255 bytes.
abbrev pub AreWrites : List (ℕ × ℕ) → Type 0
AreWrites [] = Unit
AreWrites ((address, size) ∷ writes) = (address < u64) × (size < 256) × AreWrites writes

contains-all_addresses :
    (writes : List (ℕ × ℕ)) (x : ℕ)
    → x < u64
    → AreWrites writes
    → contains (all_addresses writes) x ≡ covered writes x
unfolding contains all_addresses
contains-all_addresses [] x hx h = refl
contains-all_addresses ((address, size) ∷ writes) x hx h = ground (
  arith,
  contains-append (addresses_of address 0 size) (all_addresses writes) x,
  contains-addresses_of address 0 size x h.0 hx,
  contains-all_addresses writes x hx h.2,
)

-- `stepAddresses` fails when there were too many writes or no step is open; else it gives each address that is in a write of the step, and
-- no other, each once and in ascending order.
pub step_addresses_lem :
    (m : Memory)
    → AreWrites m.step_writes
    → ((m.step_overflowed || not m.step_open ≡ true) × (step_addresses m [] ≡ none))
      ⊎ ((xs : List ℕ) × (m.step_overflowed || not m.step_open ≡ false)
          × (step_addresses m [] ≡ some xs)
          × IsAscending 0 xs
          × ((x : ℕ) → x < u64 → contains xs x ≡ covered m.step_writes x))
unfolding step_addresses
step_addresses_lem m h = elim (Bool-cases (m.step_overflowed || not m.step_open)) [
  | inl e ↦ inl (e, rw e)
  | inr e ↦
      let sorted = sort (all_addresses m.step_writes) in
      inr (
        unique sorted,
        e,
        rw e,
        unique-IsAscending 0 sorted (sort-IsSorted (all_addresses m.step_writes)),
        λ x hx.
            contains-unique sorted x
            ∙ contains-sort (all_addresses m.step_writes) x
            ∙ contains-all_addresses m.step_writes x hx h,
      )
]
