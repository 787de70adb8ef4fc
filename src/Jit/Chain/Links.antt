-- ===== src/Jit/Chain/Links.antt =====
-- native/bap_jit.cpp: where the entries of a chain point to, which `bap_jit_chain_add` and the other operations keep right.
use bap.Common.{
  ℕ, ◌<◌, ◌≡◌, refl, ◌==◌, if◌then◌else◌, [], ◌∷◌, Option, none, some, arith, Bool-cases, inl, inr,
  ◌∙◌, Option-cases, ap, sym,
}
use bap.Jit.Chain.{ChainEntry, Entries, Chain, entry_at, change, optimizing, optimize_after}
use bap.Jit.Chain.Lookup.{entry_at-change_kept, entry_at-change_before}
use bap.Jit.Chain.Run.{pc_in, Target, look_up, follow, target_of, remember}

abbrev pub links : ChainEntry → ℕ × ℕ × Option ℕ
links e = (e.place, e.last_next, e.last_target)

-- Where an entry went last there is the entry that it points to.
abbrev pub IsLinked : Entries → Type 0
IsLinked entries =
    (pc place : ℕ) (e : ChainEntry)
    → entry_at entries pc ≡ some e
    → e.last_target ≡ some place
    → (t : ChainEntry) × (entry_at entries e.last_next ≡ some t) × (t.place ≡ place)

-- No two entries are in one place.
abbrev pub ArePlaced : Entries → Type 0
ArePlaced entries =
    (pc : ℕ) (e : ChainEntry) → entry_at entries pc ≡ some e → pc_in entries e.place ≡ some pc

abbrev pub AreBelow : ℕ → Entries → Type 0
AreBelow bound entries = (pc : ℕ) (e : ChainEntry) → entry_at entries pc ≡ some e → e.place < bound

-- A chain whose entries point to one another or nowhere.
abbrev pub IsWired : Entries → Type 0
IsWired entries = IsLinked entries × ArePlaced entries

-- What a pointer of a wired chain leads to is what a search finds.
pub target_of-look_up :
    (entries : Entries) (pc : ℕ) (e : ChainEntry) (next : ℕ)
    → IsWired entries
    → entry_at entries pc ≡ some e
    → target_of entries e next ≡ look_up entries next
unfolding target_of look_up follow
target_of-look_up entries pc e next w h = elim (Bool-cases (e.last_next == next)) [
  | inr k ↦ rw (target_of, k) refl
  | inl k ↦ elim (Option-cases e.last_target) [
    | inl l ↦ rw (target_of, k, l) refl
    | inr (place, l) ↦
        let (t, there, same) = w.0 pc place e h l in
        let n : e.last_next ≡ next = ground arith in
        let at_next : entry_at entries next ≡ some t = rw (sym n) there in
        let by_place : pc_in entries place ≡ some next = rw (sym same) (w.1 next t at_next) in
        rw (target_of, k, l) (rw (follow, look_up, by_place, at_next) refl)
  ]
]

pub pc_in-change_kept :
    (entries : Entries) (q place : ℕ) (f : ChainEntry → ChainEntry)
    → ((e : ChainEntry) → (f e).place ≡ e.place)
    → pc_in (change entries q f) place ≡ pc_in entries place
unfolding pc_in change
pc_in-change_kept [] q place f h = refl
pc_in-change_kept ((p, e) ∷ entries) q place f h =
    ground (arith, h e, pc_in-change_kept entries q place f h)

abbrev field_or : {A : Type 0} → (ChainEntry → A) → A → Option ChainEntry → A
field_or field other none = other
field_or field other (some e) = field e

-- What is found after a change that keeps a field has the field of what was found.
pub kept-change_before :
    {A : Type 0} (field : ChainEntry → A) (entries : Entries) (q pc : ℕ)
    (f : ChainEntry → ChainEntry) (e' : ChainEntry)
    → ((x : ChainEntry) → field (f x) ≡ field x)
    → entry_at (change entries q f) pc ≡ some e'
    → (e : ChainEntry) × (entry_at entries pc ≡ some e) × (field e' ≡ field e)
kept-change_before field entries q pc f e' keeps h =
    let (e, k, same) = entry_at-change_before entries q pc f e' h in
    elim (Bool-cases (q == pc)) [
      | inl b ↦ (e, k, ap field same ∙ rw b (keeps e))
      | inr b ↦ (e, k, ap field same ∙ rw b refl)
    ]

pub change-ArePlaced :
    (entries : Entries) (q : ℕ) (f : ChainEntry → ChainEntry)
    → ((e : ChainEntry) → (f e).place ≡ e.place)
    → ArePlaced entries
    → ArePlaced (change entries q f)
change-ArePlaced entries q f keeps h pc e' k =
    let (e, l, same) = kept-change_before (λ x. x.place) entries q pc f e' keeps k in
    pc_in-change_kept entries q e'.place f keeps ∙ rw same (h pc e l)

pub change-AreBelow :
    (entries : Entries) (q bound : ℕ) (f : ChainEntry → ChainEntry)
    → ((e : ChainEntry) → (f e).place ≡ e.place)
    → AreBelow bound entries
    → AreBelow bound (change entries q f)
change-AreBelow entries q bound f keeps h pc e' k =
    let (e, l, same) = kept-change_before (λ x. x.place) entries q pc f e' keeps k in
    rw same (h pc e l)

-- What is at a pc is there after a change that keeps places.
place_after :
    (entries : Entries) (q pc to place : ℕ) (f : ChainEntry → ChainEntry) (t : ChainEntry)
    → ((e : ChainEntry) → (f e).place ≡ e.place)
    → entry_at entries pc ≡ some t
    → t.place ≡ place
    → to ≡ pc
    → (t' : ChainEntry) × (entry_at (change entries q f) to ≡ some t') × (t'.place ≡ place)
place_after entries q pc to place f t keeps h s same =
    let (t', there, p) = entry_at-change_kept (λ x. x.place) entries q pc f t keeps h in
    (t', ap (entry_at (change entries q f)) same ∙ there, p ∙ s)

-- A change of what isn't about places keeps a chain wired.
pub change-IsWired :
    (entries : Entries) (q : ℕ) (f : ChainEntry → ChainEntry)
    → ((e : ChainEntry) → links (f e) ≡ links e)
    → IsWired entries
    → IsWired (change entries q f)
change-IsWired entries q f keeps w = (
  λ pc place e' k l.
      let (e, m, same) = kept-change_before links entries q pc f e' keeps k in
      let (t, there, p) = w.0 pc place e m (sym (ap (λ (x : ℕ × ℕ × Option ℕ). x.2) same) ∙ l) in
      place_after entries q e.last_next e'.last_next place f t
        (λ x. ap (λ (y : ℕ × ℕ × Option ℕ). y.0) (keeps x)) there p
        (ap (λ (x : ℕ × ℕ × Option ℕ). x.1) same),
  change-ArePlaced entries q f (λ x. ap (λ (y : ℕ × ℕ × Option ℕ). y.0) (keeps x)) (w.1),
)

some-inj : {a b : ℕ} → some a ≡ some b → a ≡ b
some-inj {a} {b} h = ap (λ (o : Option ℕ). elim o [ none ↦ a | some x ↦ x ]) h

-- So does the memory of where an entry went.
pub remember-IsWired :
    (entries : Entries) (q next : ℕ) (target : ChainEntry)
    → entry_at entries next ≡ some target
    → IsWired entries
    → IsWired (change entries q (remember next target.place))
remember-IsWired entries q next target h w =
    let f = remember next target.place in
    (
      λ pc place e' k l.
          let (e, m, same) = entry_at-change_before entries q pc f e' k in
          elim (Bool-cases (q == pc)) [
            | inl b ↦
                let made : e' ≡ f e = same ∙ rw b refl in
                place_after entries q next e'.last_next place f target (λ _. refl) h
                  (some-inj (sym (ap (λ (x : ChainEntry). x.last_target) made) ∙ l))
                  (ap (λ (x : ChainEntry). x.last_next) made)
            | inr b ↦
                let kept : e' ≡ e = same ∙ rw b refl in
                let (t, there, p) =
                  w.0 pc place e m (sym (ap (λ (x : ChainEntry). x.last_target) kept) ∙ l) in
                place_after entries q e.last_next e'.last_next place f t (λ _. refl) there p
                  (ap (λ (x : ChainEntry). x.last_next) kept)
          ],
      change-ArePlaced entries q f (λ _. refl) (w.1),
    )

-- `bap_jit_chain_optimizing` keeps it.
pub optimizing-IsWired :
    (chain : Chain) (pc more : ℕ)
    → IsWired chain.entries
    → IsWired (optimizing chain pc more).entries
unfolding optimizing
optimizing-IsWired chain pc more w =
    change-IsWired chain.entries pc (optimize_after more) (λ _. refl) w

-- Where an entry goes is by its links.
pub target_of-links :
    (entries : Entries) (e e' : ChainEntry) (next : ℕ)
    → links e ≡ links e'
    → target_of entries e next ≡ target_of entries e' next
unfolding target_of
target_of-links entries e e' next same =
    ap
      (λ (l : ℕ × ℕ × Option ℕ).
        if l.1 == next
        then elim l.2 as (λ _. Target) [
          | none ↦ look_up entries next
          | some place ↦ follow entries place
        ]
        else look_up entries next)
      same
