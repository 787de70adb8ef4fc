-- ===== src/Jit/Notify/Quiet.antt =====
-- native/bap_jit.cpp: that compiled code leaves out a call of the observer of memory changes nothing.
use bap.Common.{
  ℕ, ◌+◌, ◌-◌, ◌<◌, ◌≤◌, ◌≡◌, refl, leb, ltb, Bool, true, false, ◌&&◌, Option, none, some, ◌⊎◌, inl,
  inr, arith, Option-cases, [], ◌∷◌,
}
use bap.Common.Word.{u64, add64}
use bap.Jit.Filter.{Range, Ranges, before_bound, quiet_for, quiet_range}
use bap.Jit.Filter.Insert.{AreApart}
use bap.Jit.Filter.Covers.{covers, quiet_range_lem}
use bap.Jit.Notify.{Watch, forget_quiet, quiet_of, find_quiet}

covers_within :
    (ranges : Ranges) (first last a b : ℕ) (write : Bool)
    → covers ranges first last write ≡ true
    → first ≤ a
    → b ≤ last
    → covers ranges a b write ≡ true
unfolding covers
covers_within [] first last a b write h l r = absurd (cc)
covers_within (q ∷ ranges) first last a b write h l r =
    ground (arith, covers_within ranges first last a b write)

before_bound-covers_self :
    (ranges : Ranges) (address : ℕ) (r : Range) (write : Bool)
    → before_bound ranges address ≡ some r
    → quiet_for r write ≡ true
    → covers ranges r.first r.last write ≡ true
unfolding before_bound covers
before_bound-covers_self [] address r write e q = absurd (cc)
before_bound-covers_self (p ∷ ranges) address r write e q =
    elim (Option-cases (before_bound ranges address)) [
      | inl n ↦ ground (arith, n)
      | inr (s, n) ↦ ground (arith, n, before_bound-covers_self ranges address s write n)
    ]

quiet_range-covers :
    (ranges : Ranges) (address size : ℕ) (write : Bool) (r : Range)
    → quiet_range ranges address size write ≡ some r
    → covers ranges r.first r.last write ≡ true
unfolding quiet_range
quiet_range-covers ranges address size write r e =
    elim (Option-cases (before_bound ranges address)) [
      | inl n ↦ absurd (ground (arith, n))
      | inr (q, n) ↦ ground (arith, n, before_bound-covers_self ranges address q write n)
    ]

module _ {W E : Type 0} (filter : W → Option Ranges) (observe_code : W → ℕ → (E ⊎ ℕ) × W)
    (observe : W → Bool → ℕ → ℕ → ℕ → Option E × W) where
  abbrev pub quiet_there : W → ℕ → ℕ → Bool → Bool
  quiet_there world first last write = elim (filter world) as (λ _. Bool) [
    | none ↦ false
    | some ranges ↦ covers ranges first last write
  ]

  -- What a run remembers to be quiet is nothing, or within what the filter lets through.
  abbrev pub IsSound : Watch W E → Type 0
  IsSound w =
      (write : Bool)
      → (ltb (quiet_of w write).1 (quiet_of w write).0 ≡ true)
        ⊎ (quiet_there w.world (quiet_of w write).0 (quiet_of w write).1 write ≡ true)

  -- The ranges of every filter are apart.
  abbrev pub FiltersApart : Type 0
  FiltersApart = (world : W) (ranges : Ranges) → filter world ≡ some ranges → AreApart 0 ranges

  pub forget_quiet-IsSound : (w : Watch W E) → IsSound (forget_quiet w)
  forget_quiet-IsSound w true = inl refl
  forget_quiet-IsSound w false = inl refl

  pub find_quiet-quiet_there :
      (world : W) (address size : ℕ) (write : Bool) (r : Range)
      → find_quiet filter observe_code observe world address size write ≡ some r
      → quiet_there world r.first r.last write ≡ true
  find_quiet-quiet_there world address size write r e = elim (Option-cases (filter world)) [
    | inl n ↦ absurd (ground (arith, n))
    | inr (ranges, n) ↦ ground (arith, n, quiet_range-covers ranges address size write r)
  ]

  -- An access within what is quiet is one that the filter finds.
  pub quiet_there-find_quiet :
      (world : W) (first last base size : ℕ) (write : Bool)
      → FiltersApart
      → base < u64
      → 0 < size
      → size < u64
      → quiet_there world first last write ≡ true
      → leb first base && leb (add64 base (size - 1)) last && leb base (add64 base (size - 1))
        ≡ true
      → (r : Range) × (find_quiet filter observe_code observe world base size write ≡ some r)
  quiet_there-find_quiet world first last base size write apart hb hs hz q h =
      elim (Option-cases (filter world)) [
        | inl n ↦ absurd (ground (arith, n))
        | inr (ranges, n) ↦ elim (Option-cases (quiet_range ranges base size write)) [
          | inl e ↦ absurd (
              ground (
                arith,
                n,
                e,
                quiet_range_lem ranges base size write (apart world ranges n) hb hz,
                covers_within ranges first last base (base + size - 1) write,
              ))
          | inr (r, e) ↦ (r, ground (arith, n, e))
        ]
      ]
