-- ===== src/Jit/Compile/Slots.antt =====
-- native/bap_jit.cpp: `Program::maxSlot` is the least number above every slot of the program, which a run checks its state against.
use bap.Common.{
  ℕ, ◌+◌, ◌≡◌, refl, leb, ltb, Bool, true, ◌&&◌, List, [], ◌∷◌, Option, none, some, max, ◌⊎◌, inl,
  inr, arith, ap,
}
use mathlib.Core.Sum.{inr-injective}
use bap.Jit.Compile.Emit.{emit_all-cons}
use bap.Jit.Op.{Op}
use bap.Jit.Compile.{
  Error, Builder, builder, note_slots, emit_all, advance, collect_labels, finish, Program, compile,
  slots_of, stored_bytes,
}

-- One more than the greatest slot.
abbrev pub bound : Option ℕ → ℕ
bound none = 0
bound (some m) = m + 1

unfoldable pub all_below : ℕ → List ℕ → Bool
all_below n [] = true
all_below n (x ∷ xs) = ltb x n && all_below n xs

-- Whether every slot of every operation is less than `n`.
unfoldable pub slots_below : ℕ → List Op → Bool
slots_below n [] = true
slots_below n (op ∷ ops) = all_below n (slots_of op) && slots_below n ops

-- The sizes of all the stores together, each counted once.
unfoldable pub all_stored : List Op → ℕ
all_stored [] = 0
all_stored (op ∷ ops) = stored_bytes op + all_stored ops

bound-note_slots :
    (n : ℕ) (m : Option ℕ) (xs : List ℕ)
    → leb (bound (note_slots m xs)) n ≡ (leb (bound m) n && all_below n xs)
unfolding note_slots all_below
bound-note_slots n m [] = ground arith
bound-note_slots n none (x ∷ xs) = ground (arith, bound-note_slots n (some x) xs)
bound-note_slots n (some m) (x ∷ xs) = ground (arith, bound-note_slots n (some (max m x)) xs)

emit_all-slots :
    (n : ℕ) (labels : List ℕ) (b b' : Builder) (ops : List Op)
    → emit_all labels b ops ≡ inr b'
    → (leb (bound b'.max_slot) n ≡ (leb (bound b.max_slot) n && slots_below n ops))
      × (b'.memory_stores ≡ b.memory_stores + all_stored ops)
unfolding slots_below all_stored
emit_all-slots n labels b b' [] e =
    let same : b ≡ b' = unfold emit_all in inr-injective b b' e in
    (
      ground (arith, ap (λ (c : Builder). leb (bound c.max_slot) n) same),
      omega (arith, ap (λ (c : Builder). c.memory_stores) same),
    )
emit_all-slots n labels b b' (op ∷ ops) e =
    let rest = emit_all-slots n labels (advance b op) b' ops (emit_all-cons labels b b' op ops e) in
    (ground (arith, rest.0, bound-note_slots n b.max_slot (slots_of op)), omega (arith, rest.1))

finish-program :
    (b : Builder) (p : Program)
    → finish b ≡ inr p
    → (p.max_slot ≡ bound b.max_slot) × (p.memory_stores ≡ b.memory_stores)
unfolding finish
finish-program b p e = (ground arith, ground arith)

-- The slots of a compiled program are all less than a number just when the number that its state is checked against is at most that: so that
-- one is above every slot, and no smaller one is. What it says of its stores is their sizes together, each counted once however often it
-- runs, which is no bound on what a run stores.
pub compile-slots_below :
    (ops : List Op) (p : Program) (n : ℕ)
    → compile ops ≡ inr p
    → (slots_below n ops ≡ leb p.max_slot n) × (p.memory_stores ≡ all_stored ops)
unfolding compile
compile-slots_below ops p n e = go (collect_labels ops []) e
  where
    last :
        (labels : List ℕ) (r : Error ⊎ Builder)
        → emit_all labels builder ops ≡ r
        → elim r as (λ _. Error ⊎ Program) [ inl e ↦ inl e | inr b ↦ finish b ] ≡ inr p
        → (slots_below n ops ≡ leb p.max_slot n) × (p.memory_stores ≡ all_stored ops)
    last labels (inl x) s e = absurd (cc)
    last labels (inr b) s e =
        let all = emit_all-slots n labels builder b ops s in
        let (m, k) = finish-program b p e in (ground (arith, m, all.0), omega (arith, k, all.1))

    go :
        (c : Error ⊎ List ℕ)
        → elim c as (λ _. Error ⊎ Program) [
          | inl e ↦ inl e
          | inr labels ↦ elim (emit_all labels builder ops) as (λ _. Error ⊎ Program) [
            | inl e ↦ inl e
            | inr b ↦ finish b
          ]
        ]
          ≡ inr p
        → (slots_below n ops ≡ leb p.max_slot n) × (p.memory_stores ≡ all_stored ops)
    go (inl x) e = absurd (cc)
    go (inr labels) e = last labels (emit_all labels builder ops) refl e
