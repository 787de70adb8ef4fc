-- ===== src/Jit/Runs/Changes.antt =====
-- native/bap_jit.cpp: what a run tells a step of.
use bap.Common.{
  ℕ, zero, suc, ◌+◌, ◌*◌, ◌/◌, ◌%◌, ◌^◌, ◌<◌, ◌≤◌, ◌≡◌, refl, ◌==◌, ltb, Bool, true, false, ◌||◌,
  List, [], ◌∷◌, ◌++◌, none, some, length, arith, Bool-cases, Option-cases, inl, inr, ◌∙◌, sym, ap,
}
use bap.Common.Word.{u64}
use bap.Paged.Memory.{Memory, byte}
use bap.Paged.WriteAll.Pairs.{AreAddresses}
use bap.Jit.Object.Create.{AreAddresses-append}
use bap.Paged.Step.{note_step, step_active}
use bap.Paged.Step.Addresses.{AreWrites}
use bap.Paged.Step.Log.{
  IsTracked, known, known-note_step, byte-note_step, note_step-active, note_step-AreWrites,
}
use bap.Jit.StoreLog.{LogPage, StoreLog, logged}
use bap.Jit.Access.{Cells}
use bap.Jit.Runs.{
  Compiled, Left, Run, few_slots, unequal_arrays, failure, success, page_changes, changes_of,
  note_changes, run_object, log_of_cells, memory_after, object_cells,
}

-- Whether a change is of an address.
unfoldable pub is_changed : List (ℕ × ℕ) → ℕ → Bool
is_changed [] x = false
is_changed ((address, value) ∷ changes) x = address == x || is_changed changes x

is_changed-append :
    (xs ys : List (ℕ × ℕ)) (x : ℕ) → is_changed (xs ++ ys) x ≡ is_changed xs x || is_changed ys x
unfolding is_changed
is_changed-append [] ys x = refl
is_changed-append ((a, v) ∷ xs) ys x = ground (arith, is_changed-append xs ys x)

or_true : (a b : Bool) → b ≡ true → a || b ≡ true
or_true true b h = refl
or_true false b h = h

or_left : (a b : Bool) → a ≡ true → a || b ≡ true
or_left a b h = ground arith

true≢false : true ≡ false → ⊥
true≢false h = ground arith

abbrev AreNumbers : List ℕ → Type 0
AreNumbers [] = Unit
AreNumbers (n ∷ numbers) = (n < 2 ^ 52) × AreNumbers numbers

unfoldable pub has_number : List ℕ → ℕ → Bool
has_number [] n = false
has_number (m ∷ numbers) n = m == n || has_number numbers n

is_changed-page_changes :
    (page : LogPage) (number offset count x : ℕ)
    → x / 4096 ≡ number
    → offset ≤ x % 4096
    → x % 4096 < offset + count
    → page.written (x % 4096) ≡ true
    → is_changed (page_changes page number offset count) x ≡ true
unfolding is_changed page_changes
is_changed-page_changes page number offset zero x n l h w = absurd (omega arith)
is_changed-page_changes page number offset (suc count) x n l h w =
    let rest = page_changes page number (offset + 1) count in
    elim (Bool-cases (offset == x % 4096)) [
      | inl e ↦
          let here : offset ≡ x % 4096 = ground arith in
          let written : page.written offset ≡ true = rw here w in
          let at : number * 4096 + offset == x ≡ true = ground arith in
          rw (page_changes, written) (rw (is_changed, at) refl)
      | inr e ↦
          let later =
            is_changed-page_changes page number (offset + 1) count x n (ground arith) (omega arith)
              w in
          elim (Bool-cases (page.written offset)) [
            | inl k ↦ rw (page_changes, k) (or_true _ _ later)
            | inr k ↦ rw (page_changes, k) later
          ]
    ]

is_changed-changes_of :
    (log : StoreLog) (numbers : List ℕ) (page : LogPage) (x : ℕ)
    → log.pages (x / 4096) ≡ some page
    → has_number numbers (x / 4096) ≡ true
    → page.written (x % 4096) ≡ true
    → is_changed (changes_of log numbers) x ≡ true
unfolding changes_of has_number
is_changed-changes_of log [] page x p h w = ground arith
is_changed-changes_of log (number ∷ numbers) page x p h w = elim (Bool-cases (number == x / 4096)) [
  | inl e ↦
      let same : number ≡ x / 4096 = ground arith in
      let at : log.pages number ≡ some page = ap log.pages same ∙ p in
      rw (changes_of, at)
        (is_changed-append (page_changes page number 0 4096) (changes_of log numbers) x
          ∙ or_left _ _ (
              is_changed-page_changes page number 0 4096 x (sym same) (omega arith) (omega arith)
                w))
  | inr e ↦
      let later = is_changed-changes_of log numbers page x p (ground arith) w in
      elim (Option-cases (log.pages number)) [
        | inl k ↦ rw (changes_of, k) later
        | inr (other, k) ↦
            rw (changes_of, k)
              (is_changed-append (page_changes other number 0 4096) (changes_of log numbers) x
                ∙ or_true _ _ later)
      ]
]

-- An order of the pages of a log has each of them, and only numbers that pages have.
abbrev pub IsOrder : StoreLog → List ℕ → Type 0
IsOrder log numbers =
    ((n : ℕ) (page : LogPage) → log.pages n ≡ some page → has_number numbers n ≡ true)
    × AreNumbers numbers

-- A byte that is none of the changes of a log isn't logged.
logged-changes_of :
    (log : StoreLog) (numbers : List ℕ) (x : ℕ)
    → IsOrder log numbers
    → is_changed (changes_of log numbers) x ≡ false
    → logged log x ≡ none
unfolding logged
logged-changes_of log numbers x h k = elim (Option-cases (log.pages (x / 4096))) [
  | inl e ↦ ground (arith, e)
  | inr (page, e) ↦ elim (Bool-cases (page.written (x % 4096))) [
    | inr w ↦ ground (arith, e, w)
    | inl w ↦ absurd (
        true≢false (sym (is_changed-changes_of log numbers page x e (h.0 (x / 4096) page e) w) ∙ k))
  ]
]

page_changes-AreAddresses :
    (page : LogPage) (number offset count : ℕ)
    → number < 2 ^ 52
    → offset + count ≤ 4096
    → AreAddresses (page_changes page number offset count)
unfolding page_changes
page_changes-AreAddresses page number offset zero hn h = tt
page_changes-AreAddresses page number offset (suc count) hn h =
    let rest = page_changes-AreAddresses page number (offset + 1) count hn (omega arith) in
    elim (Bool-cases (page.written offset)) [
      | inl k ↦ rw (page_changes, k) (omega arith, rest)
      | inr k ↦ rw (page_changes, k) rest
    ]

pub changes_of-AreAddresses :
    (log : StoreLog) (numbers : List ℕ) → AreNumbers numbers → AreAddresses (changes_of log numbers)
unfolding changes_of
changes_of-AreAddresses log [] h = tt
changes_of-AreAddresses log (number ∷ numbers) h =
    let rest = changes_of-AreAddresses log numbers h.1 in
    elim (Option-cases (log.pages number)) [
      | inl k ↦ rw (changes_of, k) rest
      | inr (page, k) ↦
          rw (changes_of, k)
            (AreAddresses-append (page_changes page number 0 4096) (changes_of log numbers)
              (page_changes-AreAddresses page number 0 4096 (h.0) (omega arith)) rest)
    ]

-- What is not known to a step after changes were noted was not known before, and is none of them.
known-note_changes :
    (m : Memory) (changes : List (ℕ × ℕ)) (x : ℕ)
    → m.step_open ≡ true
    → x < u64
    → AreAddresses changes
    → known (note_changes m changes) x ≡ false
    → (known m x ≡ false) × (is_changed changes x ≡ false)
unfolding note_changes is_changed
known-note_changes m [] x o hx ha h = (h, refl)
known-note_changes m ((a, v) ∷ changes) x o hx ha h =
    let (before, others) =
      known-note_changes (note_step m a 1) changes x (note_step-active m a 1 ∙ o) hx ha.1 h in
    let (earlier, apart) = known-note_step m a 1 x (omega arith) o before in
    (earlier, ground (arith, others, apart))

note_changes_lem :
    (m : Memory) (changes : List (ℕ × ℕ))
    → AreAddresses changes
    → AreWrites m.step_writes
    → ((note_changes m changes).step_open ≡ m.step_open)
      × AreWrites ((note_changes m changes).step_writes)
      × ((x : ℕ) → byte (note_changes m changes) x ≡ byte m x)
unfolding note_changes
note_changes_lem m [] ha hw = (refl, hw, λ x. refl)
note_changes_lem m ((a, v) ∷ changes) ha hw =
    let (o, w, b) =
      note_changes_lem (note_step m a 1) changes ha.1 (note_step-AreWrites m a 1 (ha.0) hw) in
    (o ∙ note_step-active m a 1, w, λ x. b x ∙ byte-note_step m a 1 x)

-- What a program leaves of a memory: each byte that it changed is in its log of stores, and it did nothing to the step.
pub record Records (m : Memory) (left : Left) : Type 0 where
  pub bytes :
      (x : ℕ)
      → x < u64
      → logged (log_of_cells left) x ≡ none
      → byte (memory_after m left) x ≡ byte m x
  pub step_open : (memory_after m left).step_open ≡ m.step_open
  pub step_writes : (memory_after m left).step_writes ≡ m.step_writes
  pub step_overflowed : (memory_after m left).step_overflowed ≡ m.step_overflowed

-- The memory that a run leaves, whether it fails or not, if it ran, has lost no write.
unfoldable pub KeepsTracked : {A : Type 0} → Memory → Run (A × Memory) Memory → Type 0
KeepsTracked start few_slots = Unit
KeepsTracked start unequal_arrays = Unit
KeepsTracked start (failure error m) = IsTracked start m
KeepsTracked start (success next slots (changes, m)) = IsTracked start m

noted-IsTracked :
    (start m m' : Memory) (changes : List (ℕ × ℕ))
    → IsTracked start m
    → m'.step_open ≡ m.step_open
    → m'.step_writes ≡ m.step_writes
    → m'.step_overflowed ≡ m.step_overflowed
    → AreAddresses changes
    → ((x : ℕ) → x < u64 → is_changed changes x ≡ false → byte m' x ≡ byte m x)
    → IsTracked start (note_changes m' changes)
noted-IsTracked start m m' changes t eo ew ev ha h =
    let (o, w, b) = note_changes_lem m' changes ha (rw ew t.writes) in
    record {
      active = o ∙ eo ∙ t.active;
      writes = w;
      tracked = λ x hx k.
          let (before, apart) = known-note_changes m' changes x (eo ∙ t.active) hx ha k in
          b x ∙ h x hx apart ∙ t.tracked x hx (rw (ew, ev) at before);
    }

module _ (execute : List ℕ → Cells → Left) (numbers : StoreLog → List ℕ) where
  -- A run on a memory with an open step leaves no write out of the step, whether it fails or not, if compiled code logs each byte that it
  -- changes and the map of the log goes through all its pages.
  pub run_object-KeepsTracked :
      (program : Compiled) (state : List ℕ) (start m : Memory)
      → IsTracked start m
      → Records m (execute state (object_cells m))
      → IsOrder
          (log_of_cells (execute state (object_cells m)))
          (numbers (log_of_cells (execute state (object_cells m))))
      → KeepsTracked start (run_object execute numbers program state m)
  unfolding run_object KeepsTracked
  run_object-KeepsTracked program state start m t r o =
      let left = execute state (object_cells m) in
      let log = log_of_cells left in
      let changes = changes_of log (numbers log) in
      let after = memory_after m left in
      let noted : IsTracked start (note_changes after changes) =
        noted-IsTracked start m after changes t r.step_open r.step_writes r.step_overflowed
          (changes_of-AreAddresses log (numbers log) o.1)
          (λ x hx k. r.bytes x hx (logged-changes_of log (numbers log) x o k)) in
      let open_step : step_active after ≡ true = r.step_open ∙ t.active in
      elim (Bool-cases (ltb (length state) program.max_slot)) [
        | inl k ↦ rw (run_object, k) tt
        | inr k ↦ elim (Option-cases left.error) [
          | inl e ↦ rw (run_object, k, e, open_step) noted
          | inr (error, e) ↦ rw (run_object, k, e, open_step) noted
        ]
      ]
