-- ===== src/Jit/Compile/Accepts.antt =====
-- native/bap_jit.cpp: which programs `compileOps` takes.
use mathlib.Core.Sum.{inr-injective}
use bap.Common.{
  ℕ, ◌<◌, ◌≡◌, refl, if◌then◌else◌, Bool, true, false, not, ◌&&◌, ◌||◌, List, [], ◌∷◌, none, some,
  ◌⊎◌, inl, inr, arith, Option-cases, ap, ◌∙◌,
}
use bap.Jit.Op.{Op}
use bap.Jit.Compile.{
  Error, Builder, builder, emit_all, advance, collect_labels, finish, Program, compile, is_label,
  is_valid, has, has_all, labels_of, label_of, all_fit, ends_block,
}
use bap.Jit.Compile.Emit.{emit_cases, emit_all-cons_fails, emit_all-cons_advances}

abbrev pub is_ok : {A : Type 0} → Error ⊎ A → Bool
is_ok (inl e) = false
is_ok (inr a) = true

-- The labels that a program has.
unfoldable pub label_ids : List Op → List ℕ
label_ids [] = []
label_ids (op ∷ ops) = elim (label_of op) [ none ↦ label_ids ops | some id ↦ id ∷ label_ids ops ]

unfoldable pub distinct : List ℕ → Bool
distinct [] = true
distinct (x ∷ xs) = not (has xs x) && distinct xs

-- Each operation has its operands in bounds, and goes to labels that there are.
unfoldable pub all_valid : List ℕ → List Op → Bool
all_valid labels [] = true
all_valid labels (op ∷ ops) = (is_valid op && has_all labels (labels_of op)) && all_valid labels ops

-- Labels stand just after operations that end a block, and the last operation ends one; `ended` is whether the one before does.
unfoldable pub blocks_end : Bool → List Op → Bool
blocks_end ended [] = ended
blocks_end ended (op ∷ ops) =
    (if is_label op then ended else not ended) && blocks_end (ends_block op) ops

abbrev emitted : List ℕ → Builder → List Op → Error ⊎ Program
emitted labels b ops = elim (emit_all labels b ops) as (λ _. Error ⊎ Program) [
  | inl e ↦ inl e
  | inr b' ↦ finish b'
]

emitted-accepts :
    (labels : List ℕ) (b : Builder) (ops : List Op)
    → (b.terminated ≡ false) ⊎ (0 < b.count)
    → is_ok (emitted labels b ops)
      ≡ (all_valid labels ops && not b.left_open) && blocks_end b.terminated ops
unfolding all_valid blocks_end
emitted-accepts labels b [] h = unfold emit_all finish in ground arith
emitted-accepts labels b (op ∷ ops) h = elim (emit_cases labels b op) [
  | inl (e, n, a) ↦ ground (
    arith,
    ap (λ r. is_ok (elim r as (λ _. Error ⊎ Program) [ inl e ↦ inl e | inr b' ↦ finish b' ]))
        (emit_all-cons_fails labels b op ops e n),
  )
  | inr (n, a) ↦
      ap (λ r. is_ok (elim r as (λ _. Error ⊎ Program) [ inl e ↦ inl e | inr b' ↦ finish b' ]))
        (emit_all-cons_advances labels b op ops n)
      ∙ emitted-accepts labels (advance b op) ops (inr (omega arith))
      ∙ ground arith
]

unfoldable disjoint : List ℕ → List ℕ → Bool
disjoint ys [] = true
disjoint ys (x ∷ xs) = not (has ys x) && disjoint ys xs

disjoint-cons : (y : ℕ) (ys xs : List ℕ) → disjoint (y ∷ ys) xs ≡ not (has xs y) && disjoint ys xs
unfolding disjoint has
disjoint-cons y ys [] = refl
disjoint-cons y ys (x ∷ xs) = ground (arith, disjoint-cons y ys xs)

disjoint-nil : (xs : List ℕ) → disjoint [] xs ≡ true
unfolding disjoint has
disjoint-nil [] = refl
disjoint-nil (x ∷ xs) = disjoint-nil xs

collect_labels-accepts :
    (ops : List Op) (labels : List ℕ)
    → is_ok (collect_labels ops labels)
      ≡ (all_fit (label_ids ops) && distinct (label_ids ops)) && disjoint labels (label_ids ops)
unfolding collect_labels label_ids all_fit distinct disjoint
collect_labels-accepts [] labels = refl
collect_labels-accepts (op ∷ ops) labels = elim (Option-cases (label_of op)) [
  | inl n ↦ ground (arith, n, collect_labels-accepts ops labels)
  | inr (id, n) ↦
      ground (
        arith,
        n,
        collect_labels-accepts ops (id ∷ labels),
        disjoint-cons id labels (label_ids ops),
      )
]

has-collect_labels :
    (ops : List Op) (labels given : List ℕ) (x : ℕ)
    → collect_labels ops labels ≡ inr given
    → has given x ≡ has (label_ids ops) x || has labels x
unfolding collect_labels label_ids has
has-collect_labels [] labels given x e =
    ground (arith, ap (λ (l : List ℕ). has l x) (inr-injective labels given e))
has-collect_labels (op ∷ ops) labels given x e = elim (Option-cases (label_of op)) [
  | inl n ↦ ground (arith, n, has-collect_labels ops labels given x)
  | inr (id, n) ↦ ground (arith, n, has-collect_labels ops (id ∷ labels) given x)
]

has-nil : (x : ℕ) → has [] x ≡ false
unfolding has
has-nil x = refl

module _ (ys zs : List ℕ) (same : (x : ℕ) → has ys x ≡ has zs x) where
  has_all_same : (xs : List ℕ) → has_all ys xs ≡ has_all zs xs
  unfolding has_all
  has_all_same [] = refl
  has_all_same (x ∷ xs) = ground (arith, same x, has_all_same xs)

  all_valid_same : (ops : List Op) → all_valid ys ops ≡ all_valid zs ops
  unfolding all_valid
  all_valid_same [] = refl
  all_valid_same (op ∷ ops) = ground (arith, has_all_same (labels_of op), all_valid_same ops)

-- `compileOps` takes a program just when its labels are in bounds and no two the same, each operation has its operands in bounds and goes to
-- labels that there are, labels stand just after operations that end a block, and the last operation ends one, so that it isn't empty.
pub compile-accepts :
    (ops : List Op)
    → is_ok (compile ops)
      ≡ ((all_fit (label_ids ops) && distinct (label_ids ops)) && all_valid (label_ids ops) ops)
        && blocks_end false ops
unfolding compile
compile-accepts ops = go (collect_labels ops []) refl
  where
    go :
        (c : Error ⊎ List ℕ)
        → collect_labels ops [] ≡ c
        → is_ok (elim c as (λ _. Error ⊎ Program) [
          | inl e ↦ inl e
          | inr labels ↦ emitted labels builder ops
        ])
          ≡ ((all_fit (label_ids ops) && distinct (label_ids ops)) && all_valid (label_ids ops) ops)
            && blocks_end false ops
    go (inl e) n =
        ground (arith, ap is_ok n, collect_labels-accepts ops [], disjoint-nil (label_ids ops))
    go (inr labels) n = ground (
      arith,
      ap is_ok n,
      collect_labels-accepts ops [],
      disjoint-nil (label_ids ops),
      emitted-accepts labels builder ops (inl refl),
      all_valid_same labels (label_ids ops)
          (λ x. has-collect_labels ops [] labels x n ∙ ground (arith, has-nil x)) ops,
    )
