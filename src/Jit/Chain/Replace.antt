-- ===== src/Jit/Chain/Replace.antt =====
-- native/bap_jit.cpp: `bap_jit_chain_add` where there is an entry already.
use bap.Common.{
  ℕ, ◌+◌, ◌<◌, ◌≡◌, refl, ◌==◌, false, not, ◌||◌, List, [], ◌∷◌, Option, none, some, arith,
  Bool-cases, inl, inr, ◌∙◌, Option-cases, ap, sym, subst,
}
use bap.Jit.Chain.{Code, ChainEntry, Entries, Chain, entry_at, change_all, erase}
use bap.Jit.Chain.Lookup.{found, entry_at-change_all}
use bap.Jit.Chain.Run.{pc_in}
use bap.Jit.Chain.Run.Wired.{IsSound}
use bap.Jit.Chain.Add.{add, without, new_entry, forget_target, is_sound, is_empty, decode}

pub entry_at-erase :
    (entries : Entries) (pc q : ℕ)
    → pc == q ≡ false
    → entry_at (erase entries pc) q ≡ entry_at entries q
unfolding entry_at erase
entry_at-erase [] pc q h = refl
entry_at-erase ((p, e) ∷ entries) pc q h = ground (arith, entry_at-erase entries pc q h)

pc_in-erase :
    (entries : Entries) (pc q place : ℕ)
    → pc == q ≡ false
    → pc_in entries place ≡ some q
    → pc_in (erase entries pc) place ≡ some q
unfolding pc_in erase
pc_in-erase [] pc q place h k = k
pc_in-erase ((p, e) ∷ entries) pc q place h k = ground (arith, pc_in-erase entries pc q place h)

pc_in-change_all :
    (entries : Entries) (place : ℕ) (f : ChainEntry → ChainEntry)
    → ((e : ChainEntry) → (f e).place ≡ e.place)
    → pc_in (change_all entries f) place ≡ pc_in entries place
unfolding pc_in change_all
pc_in-change_all [] place f h = refl
pc_in-change_all ((p, e) ∷ entries) place f h =
    ground (arith, h e, pc_in-change_all entries place f h)

-- Entries that are right but for the one at a pc, to which none points.
abbrev AreRight : ℕ → ℕ → Entries → Type 0
AreRight bound pc rest =
    (q : ℕ) (e : ChainEntry)
    → pc == q ≡ false
    → entry_at rest q ≡ some e
    → (e.place < bound)
      × (pc_in rest e.place ≡ some q)
      × ((place : ℕ)
          → e.last_target ≡ some place
          → (t : ChainEntry) × (entry_at rest e.last_next ≡ some t)
            × (t.place ≡ place)
            × (pc == e.last_next ≡ false))

-- With a new entry at that pc, which points nowhere, they are all right.
put_lem :
    (chain : Chain) (rest : Entries) (pc : ℕ) (new : ChainEntry)
    → new.place ≡ chain.free_place
    → new.last_target ≡ none
    → AreRight chain.free_place pc rest
    → IsSound record chain { entries = (pc, new) ∷ rest; free_place = chain.free_place + 1 }
unfolding entry_at pc_in
put_lem chain rest pc new here nowhere right = (
  (
    λ q place e h l. elim (Bool-cases (pc == q)) [
      | inl k ↦ ground (arith, nowhere)
      | inr k ↦
          let (t, at, p, other) = (right q e k (ground arith)).2 place l in (t, rw other at, p)
    ],
    λ q e h. elim (Bool-cases (pc == q)) [
      | inl k ↦ ground (arith, here)
      | inr k ↦ let r = right q e k (ground arith) in ground (arith, r.0, r.1, here)
    ],
  ),
  λ q e h. elim (Bool-cases (pc == q)) [
    | inl k ↦ ground (arith, here)
    | inr k ↦ let r = right q e k (ground arith) in omega (arith, r.0)
  ],
)

some≢none : {e : ChainEntry} {o : Option ChainEntry} → o ≡ some e → o ≡ none → ⊥
some≢none h k = ground arith

entries-AreRight :
    (chain : Chain) (pc : ℕ)
    → IsSound chain
    → entry_at chain.entries pc ≡ none
    → AreRight chain.free_place pc chain.entries
entries-AreRight chain pc ((linked, placed), below) none_there q e k at = (
  below q e at,
  placed q e at,
  λ place l.
      let (t, there, p) = linked q place e at l in
      (
        t,
        there,
        p,
        elim (Bool-cases (pc == e.last_next)) [
          | inr other ↦ other
          | inl same ↦
              let to : pc ≡ e.last_next = ground arith in
              absurd (some≢none there (sym (ap (entry_at chain.entries) to) ∙ none_there))
        ],
      ),
)

-- An entry is found as it was, without where it points to, once another goes.
found-erase :
    (entries : Entries) (pc q : ℕ) (e : ChainEntry)
    → pc == q ≡ false
    → entry_at (erase (change_all entries forget_target) pc) q ≡ some e
    → (e0 : ChainEntry) × (entry_at entries q ≡ some e0) × (e ≡ forget_target e0)
found-erase entries pc q e k h =
    let one : found forget_target (entry_at entries q) ≡ some e =
      sym (
        entry_at-erase (change_all entries forget_target) pc q k
        ∙ entry_at-change_all entries q forget_target)
      ∙ h in
    elim (Option-cases (entry_at entries q)) [
      | inl l ↦ ground arith
      | inr (e0, l) ↦ (e0, l, ground arith)
    ]

erase-AreRight :
    (chain : Chain) (pc : ℕ)
    → IsSound chain
    → AreRight chain.free_place pc (erase (change_all chain.entries forget_target) pc)
erase-AreRight chain pc ((linked, placed), below) q e k h =
    let (e0, at, same) = found-erase chain.entries pc q e k h in
    let place_of : e.place ≡ e0.place = ap (λ (x : ChainEntry). x.place) same in
    let nowhere : e.last_target ≡ none = ap (λ (x : ChainEntry). x.last_target) same in
    (
      rw place_of (below q e0 at),
      rw place_of (
          pc_in-erase (change_all chain.entries forget_target) pc q e0.place k
            (pc_in-change_all chain.entries e0.place forget_target (λ _. refl) ∙ placed q e0 at)),
      λ place l. ground (arith, nowhere),
    )

without-AreRight :
    (chain : Chain) (pc : ℕ)
    → IsSound chain
    → AreRight chain.free_place pc (without chain.entries pc)
unfolding without
without-AreRight chain pc h = elim (Option-cases (entry_at chain.entries pc)) [
  | inl none_there ↦
      let same : without chain.entries pc ≡ chain.entries = rw (without, none_there) refl in
      subst (AreRight chain.free_place pc) (sym same) (entries-AreRight chain pc h none_there)
  | inr (old, there) ↦
      let same : without chain.entries pc ≡ erase (change_all chain.entries forget_target) pc =
        rw (without, there) refl in
      subst (AreRight chain.free_place pc) (sym same) (erase-AreRight chain pc h)
]

-- What of an `add` there is to say: `none`, or a chain that is sound.
unfoldable pub IsSoundIf : Option Chain → Type 0
IsSoundIf none = Unit
IsSoundIf (some chain) = IsSound chain

-- `bap_jit_chain_add` leaves the entries of a chain pointing to one another or nowhere, also where it puts one in the place of another.
pub add-IsSound :
    (chain : Chain) (pc id : ℕ) (code : Code) (numbers : List ℕ)
    → IsSound chain
    → IsSoundIf (add chain pc id code numbers)
unfolding add IsSoundIf
add-IsSound chain pc id code numbers h =
    let shape = (decode numbers).0 in
    let r = (decode numbers).1 in
    elim (Bool-cases (r.bad || not (is_empty r.rest) || not (is_sound shape code))) [
      | inl k ↦ rw (add, k) tt
      | inr k ↦
          rw (add, k)
            (put_lem chain (without chain.entries pc) pc (new_entry chain.free_place id code shape)
              refl refl (without-AreRight chain pc h))
    ]
