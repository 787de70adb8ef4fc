-- ===== src/Jit/Runs/Stores.antt =====
-- native/bap_jit.cpp: the stores of compiled code to a memory log each byte that they change.
use bap.Common.{
  ℕ, zero, suc, ◌+◌, ◌<◌, ◌≤◌, ◌≡◌, refl, ltb, Bool, true, false, List, [], ◌∷◌, Option, none, some,
  length, take, drop, arith, Bool-cases, inl, inr, ◌∙◌, sym, ap, subst,
}
use bap.Common.Word.{u64, add64}
use bap.Paged.Memory.{Memory, byte}
use bap.Paged.Access.{distance, store, store_loop, chunk}
use bap.Paged.Access.Store.{byte-store}
use bap.Paged.Word.{store_in_word}
use bap.Paged.WriteAll.Pairs.{store_in_word-step}
use bap.Jit.StoreLog.{StoreLog, logged, note, empty}
use bap.Jit.StoreLog.Note.{logged-note}
use bap.Jit.Access.{Cells, split, store_bytes, memory_note}
use bap.Jit.Access.RoundTrip.{length-split}
use bap.Jit.Runs.{Left, log_of_cells, memory_after, object_cells}
use bap.Jit.Runs.Changes.{Records}

-- The cells of a run on a memory, by what they have of it: its bytes but for those that are logged, and its step.
pub record IsLogged (m : Memory) (cells : Cells) : Type 0 where
  pub after : Memory
  pub log : StoreLog
  pub pages : cells.pages ≡ some after
  pub changes : cells.changes ≡ some log
  pub bytes : (x : ℕ) → x < u64 → logged log x ≡ none → byte after x ≡ byte m x
  pub step_open : after.step_open ≡ m.step_open
  pub step_writes : after.step_writes ≡ m.step_writes
  pub step_overflowed : after.step_overflowed ≡ m.step_overflowed

store_loop-step :
    (fuel : ℕ) (m : Memory) (address done : ℕ) (bytes : List ℕ)
    → ((store_loop fuel m address done bytes).step_open ≡ m.step_open)
      × ((store_loop fuel m address done bytes).step_writes ≡ m.step_writes)
      × ((store_loop fuel m address done bytes).step_overflowed ≡ m.step_overflowed)
unfolding store_loop
store_loop-step zero m address done bytes = (refl, refl, refl)
store_loop-step (suc fuel) m address done [] = (refl, refl, refl)
store_loop-step (suc fuel) m address done (b ∷ bytes) =
    let at = add64 address done in
    let count = chunk at (length (b ∷ bytes)) in
    let m' = store_in_word m at (take count (b ∷ bytes)) in
    let (o, w, v) = store_in_word-step m at (take count (b ∷ bytes)) in
    let (o', w', v') = store_loop-step fuel m' address (done + count) (drop count (b ∷ bytes)) in
    (o' ∙ o, w' ∙ w, v' ∙ v)

store-step :
    (m : Memory) (address : ℕ) (bytes : List ℕ)
    → ((store m address bytes).step_open ≡ m.step_open)
      × ((store m address bytes).step_writes ≡ m.step_writes)
      × ((store m address bytes).step_overflowed ≡ m.step_overflowed)
unfolding store
store-step m address bytes = store_loop-step (length bytes) m address 0 bytes

never_logged :
    (o : Option ℕ) → (elim o as (λ _. Bool) [ none ↦ false | some a ↦ true ]) ≡ true → o ≡ none → ⊥
never_logged none h k = ground arith
never_logged (some a) h k = ground arith

-- A store keeps all that is changed logged.
store_bytes-IsLogged :
    (m : Memory) (cells : Cells) (address size : ℕ) (big_endian : Bool) (value : ℕ)
    → address < u64
    → size ≤ u64
    → IsLogged m cells
    → IsLogged m (store_bytes cells address size big_endian value)
unfolding store_bytes memory_note
store_bytes-IsLogged m cells address size big_endian value ha hs h =
    elim (Bool-cases cells.failed) [
      | inl k ↦
          let same : store_bytes cells address size big_endian value ≡ cells = ground (arith, k) in
          subst (IsLogged m) (sym same) h
      | inr k ↦
          let bytes = split size big_endian value 0 size in
          let log' = note h.log address size big_endian value in
          let step = store-step h.after address bytes in
          let count = length-split size big_endian value 0 size in
          record {
            after = store h.after address bytes;
            log = log';
            pages = ground (arith, k, h.pages, h.changes);
            changes = ground (arith, k, h.pages, h.changes);
            bytes = λ x hx n.
                let said = logged-note h.log address size big_endian value x ha hx hs in
                elim (Bool-cases (ltb (distance address x) size)) [
                  | inl l ↦ absurd (never_logged (logged log' x) (ground (arith, said, l)) n)
                  | inr l ↦
                      byte-store h.after address bytes x ha hx (omega (arith, count))
                      ∙ rw (count, l) (h.bytes x hx (sym (said ∙ rw l refl) ∙ n))
                ];
            step_open = step.0 ∙ h.step_open;
            step_writes = step.1 ∙ h.step_writes;
            step_overflowed = step.2 ∙ h.step_overflowed;
          }
    ]

-- Stores of compiled code: addresses of 64 bits and sizes, byte orders and values.
unfoldable pub run_stores : Cells → List (ℕ × ℕ × Bool × ℕ) → Cells
run_stores cells [] = cells
run_stores cells ((address, size, big_endian, value) ∷ stores) =
    run_stores (store_bytes cells address size big_endian value) stores

abbrev pub AreStores : List (ℕ × ℕ × Bool × ℕ) → Type 0
AreStores [] = Unit
AreStores ((address, size, big_endian, value) ∷ stores) =
    (address < u64) × (size ≤ 8) × AreStores stores

run_stores-IsLogged :
    (m : Memory) (cells : Cells) (stores : List (ℕ × ℕ × Bool × ℕ))
    → AreStores stores
    → IsLogged m cells
    → IsLogged m (run_stores cells stores)
unfolding run_stores
run_stores-IsLogged m cells [] a h = h
run_stores-IsLogged m cells ((address, size, big_endian, value) ∷ stores) a h =
    run_stores-IsLogged m (store_bytes cells address size big_endian value) stores a.2
      (store_bytes-IsLogged m cells address size big_endian value (a.0) (omega (arith, a.1)) h)

object_cells-IsLogged : (m : Memory) → IsLogged m (object_cells m)
object_cells-IsLogged m = record {
  after = m;
  log = empty;
  pages = refl;
  changes = refl;
  bytes = λ x hx n. refl;
  step_open = refl;
  step_writes = refl;
  step_overflowed = refl;
}

IsLogged-Records : (m : Memory) (left : Left) → IsLogged m left.cells → Records m left
IsLogged-Records m left h =
    let log_is : log_of_cells left ≡ h.log = ground (arith, h.changes) in
    let memory_is : memory_after m left ≡ h.after = ground (arith, h.pages) in
    record {
      bytes = λ x hx n.
          ap (λ after. byte after x) memory_is
          ∙ h.bytes x hx (ap (λ log. logged log x) (sym log_is) ∙ n);
      step_open = ap (λ (after : Memory). after.step_open) memory_is ∙ h.step_open;
      step_writes = ap (λ (after : Memory). after.step_writes) memory_is ∙ h.step_writes;
      step_overflowed =
          ap (λ (after : Memory). after.step_overflowed) memory_is ∙ h.step_overflowed;
    }

-- A program that changes its memory by stores of up to eight bytes logs each byte that it changes, and leaves the step of the memory as it is.
pub run_stores-Records :
    (m : Memory) (stores : List (ℕ × ℕ × Bool × ℕ)) (next : ℕ) (slots : List ℕ) (error : Option ℕ)
    → AreStores stores
    → Records m record {
      next = next;
      slots = slots;
      cells = run_stores (object_cells m) stores;
      error = error;
    }
run_stores-Records m stores next slots error a =
    IsLogged-Records m
      record {
        next = next;
        slots = slots;
        cells = run_stores (object_cells m) stores;
        error = error;
      }
      (run_stores-IsLogged m (object_cells m) stores a (object_cells-IsLogged m))
