-- ===== src/Jit/Chain/Lookup.antt =====
-- native/bap_jit.cpp: what is found in a chain's entries after they change.
use bap.Common.{
  ℕ, ◌≡◌, refl, ◌==◌, if◌then◌else◌, [], ◌∷◌, Option, none, some, arith, Bool-cases, inl, inr, ◌∙◌,
  Option-cases,
}
use bap.Jit.Chain.{ChainEntry, Entries, entry_at, change, change_all}

-- `Option.map` by clauses, for what is found of an entry.
abbrev pub found : (ChainEntry → ChainEntry) → Option ChainEntry → Option ChainEntry
found f none = none
found f (some e) = some (f e)

pub entry_at-change :
    (entries : Entries) (pc q : ℕ) (f : ChainEntry → ChainEntry)
    → entry_at (change entries pc f) q
      ≡ (if pc == q then found f (entry_at entries q) else entry_at entries q)
unfolding entry_at change
entry_at-change [] pc q f = ground arith
entry_at-change ((p, e) ∷ entries) pc q f = ground (arith, entry_at-change entries pc q f)

pub entry_at-change_all :
    (entries : Entries) (q : ℕ) (f : ChainEntry → ChainEntry)
    → entry_at (change_all entries f) q ≡ found f (entry_at entries q)
unfolding entry_at change_all
entry_at-change_all [] q f = refl
entry_at-change_all ((p, e) ∷ entries) q f = ground (arith, entry_at-change_all entries q f)

-- What a function keeps of each entry is kept of the one that is found.
pub entry_at-change_kept {ℓ} :
    {A : Type ℓ} (field : ChainEntry → A) (entries : Entries) (pc q : ℕ)
    (f : ChainEntry → ChainEntry) (e : ChainEntry)
    → ((x : ChainEntry) → field (f x) ≡ field x)
    → entry_at entries q ≡ some e
    → (e' : ChainEntry) × (entry_at (change entries pc f) q ≡ some e') × (field e' ≡ field e)
entry_at-change_kept field entries pc q f e keeps h = elim (Bool-cases (pc == q)) [
  | inl k ↦ (f e, entry_at-change entries pc q f ∙ rw (k, h) refl, keeps e)
  | inr k ↦ (e, entry_at-change entries pc q f ∙ rw (k, h) refl, refl)
]

-- Where one is found after a change, one was found before it.
pub entry_at-change_before :
    (entries : Entries) (pc q : ℕ) (f : ChainEntry → ChainEntry) (e' : ChainEntry)
    → entry_at (change entries pc f) q ≡ some e'
    → (e : ChainEntry) × (entry_at entries q ≡ some e) × (e' ≡ (if pc == q then f e else e))
entry_at-change_before entries pc q f e' h = elim (Option-cases (entry_at entries q)) [
  | inl k ↦ ground (arith, entry_at-change entries pc q f)
  | inr (e, k) ↦ (e, k, ground (arith, entry_at-change entries pc q f))
]
