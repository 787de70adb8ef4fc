-- ===== src/Jit/Filter/Covers.antt =====
-- native/bap_jit.cpp: what a `MemoryFilter` lets through, as it is created, asked and updated.
use bap.Common.{
  ℕ, suc, ◌+◌, ◌-◌, ◌%◌, ◌<◌, ◌≤◌, ◌≡◌, refl, List, [], ◌∷◌, ◌==◌, leb, ltb, Bool, true, false,
  ◌&&◌, ◌||◌, none, some, arith, Option-cases, Bool-cases, inl, inr, subst, ap,
}
use mathlib.Core.Option.{some-injective}
use bap.Common.Word.{u64}
use bap.Jit.Filter.{
  Range, Ranges, before_bound, emplace, erase, quiet_for, quiet_range, insert, insert_all,
  filter_create, erase_all, filter_update,
}
use bap.Jit.Filter.Insert.{AreApart, any_overlaps, before_bound_in, insert_lem}

-- Some range has all of the bytes from `address` to `last`, and is quiet for the kind of access.
unfoldable pub covers : Ranges → ℕ → ℕ → Bool → Bool
covers [] address last write = false
covers (r ∷ rest) address last write =
    (leb r.first address && leb last r.last && quiet_for r write) || covers rest address last write

covers_below :
    (low : ℕ) (ranges : Ranges) (address last : ℕ) (write : Bool)
    → AreApart low ranges
    → address < low
    → covers ranges address last write ≡ false
unfolding covers
covers_below low [] address last write a h = refl
covers_below low (r ∷ ranges) address last write a h =
    ground (arith, covers_below (suc r.last) ranges address last write a.2)

before_bound-covers :
    (low : ℕ) (ranges : Ranges) (address last : ℕ) (write : Bool)
    → AreApart low ranges
    → address ≤ last
    → elim (before_bound ranges address) as (λ _. Bool) [
      | none ↦ false
      | some r ↦ leb last r.last && quiet_for r write
    ]
      ≡ covers ranges address last write
unfolding before_bound covers
before_bound-covers low [] address last write a h = refl
before_bound-covers low (r ∷ ranges) address last write a h =
    elim (Option-cases (before_bound ranges address)) [
      | inl n ↦ ground (
        arith,
        n,
        before_bound-covers (suc r.last) ranges address last write a.2 h,
        covers_below (suc r.last) ranges address last write a.2,
      )
      | inr (p, n) ↦ ground (
        arith,
        n,
        before_bound-covers (suc r.last) ranges address last write a.2 h,
        covers_below (suc r.last) ranges address last write a.2,
        before_bound_in (suc r.last) ranges address p a.2 n,
      )
    ]

-- `quietRange` finds a range just when the access is of a byte or more, doesn't go past the end of the address space, and lies with all of
-- its bytes within one range that is quiet for its kind.
pub quiet_range_lem :
    (ranges : Ranges) (address size : ℕ) (write : Bool)
    → AreApart 0 ranges
    → address < u64
    → size < u64
    → (elim (quiet_range ranges address size write) as (λ _. Bool) [ none ↦ false | some r ↦ true ])
      ≡ (ltb 0 size && leb (address + size) u64 && covers ranges address (address + size - 1) write)
unfolding quiet_range
quiet_range_lem ranges address size write a ha hs =
    ground (arith, before_bound-covers 0 ranges address ((address + size + u64 - 1) % u64) write a)

emplace-covers :
    (low : ℕ) (ranges : Ranges) (r : Range) (address last : ℕ) (write : Bool)
    → r.first ≤ r.last
    → AreApart low ranges
    → any_overlaps r ranges ≡ false
    → covers (emplace r ranges) address last write ≡ covers (r ∷ ranges) address last write
unfolding emplace covers any_overlaps
emplace-covers low [] r address last write h a o = refl
emplace-covers low (q ∷ ranges) r address last write h a o =
    ground (arith, emplace-covers (suc q.last) ranges r address last write h a.2)

inserted :
    (ranges out more : Ranges) (given : List Range) (r : Range)
    → insert ranges r ≡ some more
    → insert_all ranges (r ∷ given) ≡ some out
    → insert_all more given ≡ some out
unfolding insert_all
inserted ranges out more given r s e = ground (arith, s)

insert_all-none :
    (ranges : Ranges) (given : List Range) (r : Range)
    → insert ranges r ≡ none
    → insert_all ranges (r ∷ given) ≡ none
unfolding insert_all
insert_all-none ranges given r n = rw (n, insert_all)

insert_all-AreApart :
    (given ranges out : Ranges)
    → AreApart 0 ranges
    → insert_all ranges given ≡ some out
    → AreApart 0 out
insert_all-AreApart [] ranges out a e =
    unfold insert_all in subst (AreApart 0) (some-injective ranges out e) a
insert_all-AreApart (r ∷ given) ranges out a e = elim (insert_lem ranges r a) [
  | inl (n, o) ↦ absurd (cc (insert_all-none ranges given r n))
  | inr (s, o, k) ↦
      insert_all-AreApart given (emplace r ranges) out k (inserted ranges out _ given r s e)
]

insert_all-covers :
    (given ranges out : Ranges) (address last : ℕ) (write : Bool)
    → AreApart 0 ranges
    → insert_all ranges given ≡ some out
    → covers out address last write
      ≡ covers ranges address last write || covers given address last write
unfolding covers
insert_all-covers [] ranges out address last write a e =
    unfold insert_all in
    ground (arith, ap (λ (l : Ranges). covers l address last write) (some-injective ranges out e))
insert_all-covers (r ∷ given) ranges out address last write a e = elim (insert_lem ranges r a) [
  | inl (n, o) ↦ absurd (cc (insert_all-none ranges given r n))
  | inr (s, o, k) ↦ ground (
    arith,
    insert_all-covers given (emplace r ranges) out address last write k
        (inserted ranges out _ given r s e),
    emplace-covers 0 ranges r address last write (ground arith) a (ground arith),
  )
]

AreApart-lower :
    (low low' : ℕ) (ranges : Ranges) → low ≤ low' → AreApart low' ranges → AreApart low ranges
AreApart-lower low low' [] h a = tt
AreApart-lower low low' (r ∷ ranges) h a = (omega arith, a.1, a.2)

erase-AreApart :
    (low key : ℕ) (ranges : Ranges) → AreApart low ranges → AreApart low (erase key ranges)
unfolding erase
erase-AreApart low key [] a = tt
erase-AreApart low key (r ∷ ranges) a = elim (Bool-cases (r.first == key)) [
  | inl e ↦ rw e (AreApart-lower low (suc r.last) ranges (omega arith) a.2)
  | inr e ↦ rw e (a.0, a.1, erase-AreApart (suc r.last) key ranges a.2)
]

erase_all-AreApart :
    (keys : List ℕ) (ranges : Ranges) → AreApart 0 ranges → AreApart 0 (erase_all keys ranges)
unfolding erase_all
erase_all-AreApart [] ranges a = a
erase_all-AreApart (key ∷ keys) ranges a =
    erase_all-AreApart keys (erase key ranges) (erase-AreApart 0 key ranges a)

-- A filter that is created has its ranges apart, and covers an access just when one of the ranges given does.
pub filter_create_lem :
    (given out : Ranges) (address last : ℕ) (write : Bool)
    → filter_create given ≡ some out
    → AreApart 0 out × (covers out address last write ≡ covers given address last write)
unfolding filter_create covers
filter_create_lem given out address last write e =
    (insert_all-AreApart given [] out tt e, insert_all-covers given [] out address last write tt e)

-- An update that succeeds keeps the ranges apart.
pub filter_update-AreApart :
    (ranges out : Ranges) (removed : List ℕ) (given : List Range)
    → AreApart 0 ranges
    → filter_update ranges removed given ≡ some out
    → AreApart 0 out
unfolding filter_update
filter_update-AreApart ranges out removed given a e =
    insert_all-AreApart given (erase_all removed ranges) out (erase_all-AreApart removed ranges a) e
