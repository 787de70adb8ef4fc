-- ===== src/Jit/Compile/Emit.antt =====
-- native/bap_jit.cpp: when `compileOps` takes an operation.
use bap.Common.{
  ℕ, ◌≡◌, refl, Bool, true, false, not, ◌&&◌, ◌||◌, List, ◌∷◌, ◌⊎◌, inl, inr, arith, Bool-cases,
}
use bap.Jit.Op.{Op}
use bap.Jit.Compile.{
  follows_terminator, invalid, missing_label, tag, Error, Builder, emit, emit_all, advance,
  is_label, is_valid, has_all, labels_of,
}

-- Where an operation may stand after a block that has a terminator or not, with its operands in bounds and its labels there.
abbrev pub admits : List ℕ → Bool → Op → Bool
admits labels terminated op =
    (is_label op || not terminated) && (is_valid op && has_all labels (labels_of op))

pub emit_cases :
    (labels : List ℕ) (b : Builder) (op : Op)
    → ((e : Error) × (emit labels b op ≡ inl e) × (admits labels b.terminated op ≡ false))
      ⊎ ((emit labels b op ≡ inr (advance b op)) × (admits labels b.terminated op ≡ true))
unfolding emit
emit_cases labels b op = elim (Bool-cases (not (is_label op) && b.terminated)) [
  | inl t ↦ inl (follows_terminator, rw t refl, ground arith)
  | inr t ↦ elim (Bool-cases (is_valid op)) [
    | inr v ↦ inl (invalid (tag op), rw (t, v) refl, ground arith)
    | inl v ↦ elim (Bool-cases (has_all labels (labels_of op))) [
      | inr l ↦ inl (missing_label (tag op), rw (t, v, l) refl, ground arith)
      | inl l ↦ inr (rw (t, v, l) refl, ground arith)
    ]
  ]
]

pub emit_all-cons_fails :
    (labels : List ℕ) (b : Builder) (op : Op) (ops : List Op) (e : Error)
    → emit labels b op ≡ inl e
    → emit_all labels b (op ∷ ops) ≡ inl e
unfolding emit_all
emit_all-cons_fails labels b op ops e n = rw (n, emit_all) refl

pub emit_all-cons_advances :
    (labels : List ℕ) (b : Builder) (op : Op) (ops : List Op)
    → emit labels b op ≡ inr (advance b op)
    → emit_all labels b (op ∷ ops) ≡ emit_all labels (advance b op) ops
unfolding emit_all
emit_all-cons_advances labels b op ops n = rw (n, emit_all) refl

pub emit_all-cons :
    (labels : List ℕ) (b b' : Builder) (op : Op) (ops : List Op)
    → emit_all labels b (op ∷ ops) ≡ inr b'
    → emit_all labels (advance b op) ops ≡ inr b'
emit_all-cons labels b b' op ops e = elim (emit_cases labels b op) [
  | inl (x, n, a) ↦ absurd (cc (emit_all-cons_fails labels b op ops x n))
  | inr (n, a) ↦ cc (emit_all-cons_advances labels b op ops n)
]
