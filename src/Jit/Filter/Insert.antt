-- ===== src/Jit/Filter/Insert.antt =====
-- native/bap_jit.cpp: `MemoryFilter::insert` keeps the ranges apart.
use bap.Common.{
  ℕ, suc, ◌<◌, ◌≤◌, ◌≡◌, refl, [], ◌∷◌, ◌==◌, leb, ltb, Bool, true, false, not, ◌&&◌, ◌||◌, none,
  some, arith, Option-cases, Bool-cases, inl, inr, ◌⊎◌,
}
use bap.Jit.Filter.{Range, Ranges, upper_bound, before_bound, emplace, insert}

-- In order, none empty, and each after the end of the one before it; the first is not below `low`.
abbrev pub AreApart : ℕ → Ranges → Type 0
AreApart low [] = Unit
AreApart low (r ∷ rest) = (low ≤ r.first) × (r.first ≤ r.last) × AreApart (suc r.last) rest

abbrev pub overlaps : Range → Range → Bool
overlaps r q = leb r.first q.last && leb q.first r.last

unfoldable pub any_overlaps : Range → Ranges → Bool
any_overlaps r [] = false
any_overlaps r (q ∷ rest) = overlaps r q || any_overlaps r rest

pub before_bound_in :
    (low : ℕ) (ranges : Ranges) (address : ℕ) (q : Range)
    → AreApart low ranges
    → before_bound ranges address ≡ some q
    → (low ≤ q.first) × (q.first ≤ address) × (q.first ≤ q.last)
unfolding before_bound
before_bound_in low [] address q a e = absurd (cc)
before_bound_in low (r ∷ ranges) address q a e = elim (Option-cases (before_bound ranges address)) [
  | inl n ↦ ground (arith, n)
  | inr (p, n) ↦ ground (arith, n, before_bound_in (suc r.last) ranges address p a.2 n)
]

before_bound-none :
    (low : ℕ) (ranges : Ranges) (address : ℕ)
    → AreApart low ranges
    → address < low
    → before_bound ranges address ≡ none
unfolding before_bound
before_bound-none low [] address a h = refl
before_bound-none low (r ∷ ranges) address a h = ground arith

module _ (r : Range) (h : r.first ≤ r.last) where
  any_overlaps_below :
      (low : ℕ) (ranges : Ranges)
      → AreApart low ranges
      → r.last < low
      → any_overlaps r ranges ≡ false
  unfolding any_overlaps
  any_overlaps_below low [] a l = refl
  any_overlaps_below low (q ∷ ranges) a l =
      ground (arith, any_overlaps_below (suc q.last) ranges a.2)

  -- Apart from the range after it and from that before it, a range overlaps none.
  insert-overlaps :
      (low : ℕ) (ranges : Ranges)
      → AreApart low ranges
      → (elim (upper_bound ranges r.first) as (λ _. Bool) [
        | none ↦ true
        | some q ↦ ltb r.last q.first
      ])
          && (elim (before_bound ranges r.first) as (λ _. Bool) [
            | none ↦ true
            | some q ↦ ltb q.last r.first
          ])
        ≡ not (any_overlaps r ranges)
  unfolding upper_bound before_bound any_overlaps
  insert-overlaps low [] a = refl
  insert-overlaps low (q ∷ ranges) a = elim (Option-cases (before_bound ranges r.first)) [
    | inl n ↦ ground (
      arith,
      n,
      insert-overlaps (suc q.last) ranges a.2,
      any_overlaps_below (suc q.last) ranges a.2,
    )
    | inr (p, n) ↦ ground (
      arith,
      n,
      insert-overlaps (suc q.last) ranges a.2,
      any_overlaps_below (suc q.last) ranges a.2,
      before_bound_in (suc q.last) ranges r.first p a.2 n,
    )
  ]

  emplace-AreApart :
      (low : ℕ) (ranges : Ranges)
      → AreApart low ranges
      → low ≤ r.first
      → any_overlaps r ranges ≡ false
      → AreApart low (emplace r ranges)
  unfolding emplace any_overlaps
  emplace-AreApart low [] a l o = (l, h, tt)
  emplace-AreApart low (q ∷ ranges) a l o = elim (Bool-cases (ltb r.first q.first)) [
    | inl e ↦ rw e (l, h, (ground arith, a.1, a.2))
    | inr e ↦ elim (Bool-cases (r.first == q.first)) [
      | inl s ↦ rw (e, s) a
      | inr s ↦
          rw (e, s)
            (a.0, a.1, emplace-AreApart (suc q.last) ranges a.2 (ground arith) (ground arith))
    ]
  ]

-- `insert` puts a range in just when it isn't empty and overlaps none of those there, and they stay apart.
pub insert_lem :
    (ranges : Ranges) (r : Range)
    → AreApart 0 ranges
    → ((insert ranges r ≡ none) × (ltb r.last r.first || any_overlaps r ranges ≡ true))
      ⊎ ((insert ranges r ≡ some (emplace r ranges))
          × (ltb r.last r.first || any_overlaps r ranges ≡ false)
          × AreApart 0 (emplace r ranges))
unfolding insert
insert_lem ranges r a = elim (Bool-cases (ltb r.last r.first)) [
  | inl e ↦ inl (rw e, rw e)
  | inr e ↦ elim (Bool-cases (any_overlaps r ranges)) [
    | inl o ↦ inl (ground (arith, e, o, insert-overlaps r (ground arith) 0 ranges a), ground arith)
    | inr o ↦ inr (
      ground (arith, e, o, insert-overlaps r (ground arith) 0 ranges a),
      ground arith,
      emplace-AreApart r (ground arith) 0 ranges a (omega arith) o,
    )
  ]
]
