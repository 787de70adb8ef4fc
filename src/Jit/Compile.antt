-- ===== src/Jit/Compile.antt =====
-- native/bap_jit.cpp: what `compileOps` refuses, and what it keeps of a program that it takes besides its code, without entries.
pub mod Emit
pub mod Accepts
pub mod Slots
use bap.Common.{
  ℕ, zero, suc, ◌+◌, ◌==◌, leb, ltb, if◌then◌else◌, Bool, true, false, not, ◌&&◌, ◌||◌, List, [],
  ◌∷◌, Option, none, some, max, ◌⊎◌, inl, inr,
}
use bap.Jit.Op.{
  Op, set, move, add, jump, jump_slot, binary, mask, sign_extend, select, negate, complement, ashr,
  label, goto, branch, load, store, code,
}

-- The errors of what is refused, that of an operation's operands and that of a label that isn't there with the tag of the operation.
pub data Error : Type 0 where
  invalid : ℕ → Error
  duplicate_label : Error
  missing_label : ℕ → Error
  follows_terminator : Error
  empty_program : Error
  no_terminator : Error

-- `getSlot`: what is not greater than the greatest `int32_t` over the bytes of a word, rounded down.
abbrev pub fits : ℕ → Bool
fits value = leb value 268435455

abbrev pub tag : Op → ℕ
tag (set _ _) = 0
tag (move _ _) = 1
tag (add _ _ _) = 2
tag (jump _) = 3
tag (jump_slot _) = 4
tag (binary _ _ _ _) = 5
tag (mask _ _ _) = 6
tag (sign_extend _ _ _) = 7
tag (select _ _ _ _) = 8
tag (negate _ _) = 9
tag (complement _ _) = 10
tag (ashr _ _ _ _) = 11
tag (label _) = 12
tag (goto _) = 13
tag (branch _ _ _) = 14
tag (load _ _ _ _) = 15
tag (store _ _ _ _) = 16
tag (code _ _) = 17

-- The slots of an operation, each of which `noteSlot` is called with.
unfoldable pub slots_of : Op → List ℕ
slots_of (set dst _) = dst ∷ []
slots_of (move dst src) = dst ∷ src ∷ []
slots_of (add dst src _) = dst ∷ src ∷ []
slots_of (jump _) = []
slots_of (jump_slot src) = src ∷ []
slots_of (binary _ dst left right) = dst ∷ left ∷ right ∷ []
slots_of (mask dst src _) = dst ∷ src ∷ []
slots_of (sign_extend _ dst src) = dst ∷ src ∷ []
slots_of (select dst condition taken other) = dst ∷ condition ∷ taken ∷ other ∷ []
slots_of (negate dst src) = dst ∷ src ∷ []
slots_of (complement dst src) = dst ∷ src ∷ []
slots_of (ashr _ dst left right) = dst ∷ left ∷ right ∷ []
slots_of (label _) = []
slots_of (goto _) = []
slots_of (branch condition _ _) = condition ∷ []
slots_of (load dst address _ _) = dst ∷ address ∷ []
slots_of (store address value _ _) = address ∷ value ∷ []
slots_of (code effect_slot _) = effect_slot ∷ []

-- The labels of an operation, which have to be there.
unfoldable pub labels_of : Op → List ℕ
labels_of (label id) = id ∷ []
labels_of (goto id) = id ∷ []
labels_of (branch _ taken other) = taken ∷ other ∷ []
labels_of _ = []

unfoldable pub all_fit : List ℕ → Bool
all_fit [] = true
all_fit (x ∷ xs) = fits x && all_fit xs

-- The number, the width or the size of an operation.
unfoldable pub in_bounds : Op → Bool
in_bounds (binary number _ _ _) = leb number 21
in_bounds (sign_extend width _ _) = leb 1 width && leb width 64
in_bounds (ashr width _ _ _) = leb 1 width && leb width 64
in_bounds (load _ _ size _) = leb 1 size && leb size 8
in_bounds (store _ _ size _) = leb 1 size && leb size 8
in_bounds _ = true

abbrev pub is_valid : Op → Bool
is_valid op = in_bounds op && all_fit (slots_of op) && all_fit (labels_of op)

unfoldable pub has : List ℕ → ℕ → Bool
has [] x = false
has (y ∷ ys) x = y == x || has ys x

unfoldable pub has_all : List ℕ → List ℕ → Bool
has_all ys [] = true
has_all ys (x ∷ xs) = has ys x && has_all ys xs

-- The label that an operation of tag 12 is.
unfoldable pub label_of : Op → Option ℕ
label_of (label id) = some id
label_of _ = none

-- The first loop over the operations, which makes the blocks of the labels: `labels` are those made.
unfoldable pub collect_labels : List Op → List ℕ → Error ⊎ List ℕ
collect_labels [] labels = inr labels
collect_labels (op ∷ ops) labels = elim (label_of op) [
  | none ↦ collect_labels ops labels
  | some id ↦
      let rest = collect_labels ops (id ∷ labels) in
      if not (fits id)
      then inl (invalid 12)
      else if has labels id
      then inl duplicate_label
      else rest
]

-- Whether an operation ends a block.
unfoldable pub ends_block : Op → Bool
ends_block (jump _) = true
ends_block (jump_slot _) = true
ends_block (goto _) = true
ends_block (branch _ _ _) = true
ends_block _ = false

unfoldable pub is_label : Op → Bool
is_label (label _) = true
is_label _ = false

-- What the loop over the operations goes by: whether the block that it is in has a terminator, whether it left one that has none, the
-- greatest slot if there is one, `memoryStores` and `count`.
pub record Builder : Type 0 where
  pub terminated : Bool
  pub left_open : Bool
  pub max_slot : Option ℕ
  pub memory_stores : ℕ
  pub count : ℕ

abbrev pub builder : Builder
builder = record {
  terminated = false;
  left_open = false;
  max_slot = none;
  memory_stores = 0;
  count = 0;
}

-- `noteSlot`.
abbrev pub note_slot : Option ℕ → ℕ → Option ℕ
note_slot none slot = some slot
note_slot (some m) slot = some (max m slot)

unfoldable pub note_slots : Option ℕ → List ℕ → Option ℕ
note_slots m [] = m
note_slots m (slot ∷ slots) = note_slots (note_slot m slot) slots

unfoldable pub stored_bytes : Op → ℕ
stored_bytes (store _ _ size _) = size
stored_bytes _ = 0

-- What goes on after an operation. A label begins its block; what an access and a code site branch to ends its own blocks but the one that it
-- goes on in.
abbrev pub advance : Builder → Op → Builder
advance b op = record {
  terminated = ends_block op;
  left_open = b.left_open || (is_label op && not b.terminated);
  max_slot = note_slots b.max_slot (slots_of op);
  memory_stores = b.memory_stores + stored_bytes op;
  count = b.count + 1;
}

-- One operation.
unfoldable pub emit : List ℕ → Builder → Op → Error ⊎ Builder
emit labels b op =
    if not (is_label op) && b.terminated
    then inl follows_terminator
    else if not (is_valid op)
    then inl (invalid (tag op))
    else if not (has_all labels (labels_of op))
    then inl (missing_label (tag op))
    else inr (advance b op)

unfoldable pub emit_all : List ℕ → Builder → List Op → Error ⊎ Builder
emit_all labels b [] = inr b
emit_all labels b (op ∷ ops) = elim (emit labels b op) [
  | inl e ↦ inl e
  | inr next ↦ emit_all labels next ops
]

-- What a program says of itself: how many slots its state has at least, and the sizes of its stores together. Each of those counts once, so
-- that a loop stores more; for cells, `storeByte` then drops what there is no room for.
pub record Program : Type 0 where
  pub max_slot : ℕ
  pub memory_stores : ℕ

unfoldable pub finish : Builder → Error ⊎ Program
finish b =
    if b.count == 0
    then inl empty_program
    else if b.left_open || not b.terminated
    then inl no_terminator
    else inr (record {
      max_slot = elim b.max_slot [ none ↦ 0 | some m ↦ m + 1 ];
      memory_stores = b.memory_stores;
    })

-- `compileOps`.
unfoldable pub compile : List Op → Error ⊎ Program
unfolding collect_labels emit_all finish
compile ops = elim (collect_labels ops []) [
  | inl e ↦ inl e
  | inr labels ↦ elim (emit_all labels builder ops) [ inl e ↦ inl e | inr b ↦ finish b ]
]
