-- ===== src/Jit/Tests/Programs.antt =====
-- native/bap_jit.cpp: operations and programs on concrete inputs.
use bap.Common.{ℕ, ◌+◌, ◌-◌, ◌*◌, ◌<◌, ◌^◌, ◌≡◌, refl, List, [], ◌∷◌, true, ◌⊎◌, arith, leb, some}
use bap.Jit.Op.{
  Op, set, binary, branch, goto, label, jump_slot, store, unsigned_quotient, unsigned_rest,
  signed_quotient, signed_rest, ones, signed_div, signed_rem, truncated, remaining,
}
use bap.Jit.Op.Division.{AreSigned, unsigned_quotient-unsigned_rest, signed_quotient-signed_rest}
use bap.Jit.Compile.{
  compile, collect_labels, emit_all, emit, finish, slots_of, labels_of, all_fit, in_bounds, has,
  has_all, label_of, ends_block, is_label, note_slots, stored_bytes,
}
use bap.Jit.Compile.Accepts.{is_ok, compile-accepts, all_valid, label_ids, distinct, blocks_end}
use bap.Jit.Compile.Slots.{slots_below, all_stored, compile-slots_below}

abbrev no_divisor : ℕ
no_divisor = 0

unsigned_quotient-unsigned_rest_example :
    (q : ℕ) × (r : ℕ) × (unsigned_quotient 17 no_divisor ≡ some q)
    × (unsigned_rest 17 no_divisor ≡ some r)
    × (((no_divisor ≡ 0) × (q ≡ ones) × (r ≡ 17)) ⊎ ((q * no_divisor + r ≡ 17) × (r < no_divisor)))
unsigned_quotient-unsigned_rest_example =
    unsigned_quotient-unsigned_rest 17 no_divisor (omega arith) (omega arith)

-- The least number over -1.
signed_quotient-signed_rest_example :
    (q : ℕ) × (r : ℕ) × (signed_quotient (2 ^ 63) (2 ^ 64 - 1) ≡ some q)
    × (signed_rest (2 ^ 63) (2 ^ 64 - 1) ≡ some r)
    × AreSigned (2 ^ 63) (2 ^ 64 - 1) q r
signed_quotient-signed_rest_example =
    signed_quotient-signed_rest (2 ^ 63) (2 ^ 64 - 1) (omega arith) (omega arith)

-- -7 over 2 is -3 and leaves -1.
signed_division :
    (signed_quotient (2 ^ 64 - 7) 2 ≡ some (2 ^ 64 - 3))
    × (signed_rest (2 ^ 64 - 7) 2 ≡ some (2 ^ 64 - 1))
unfolding signed_quotient signed_rest signed_div signed_rem truncated remaining
signed_division = (refl, refl)

-- A loop that stores four bytes a round.
abbrev a_loop : List Op
a_loop =
    set 0 5
    ∷ goto 1
    ∷ label 1
    ∷ binary 1 0 0 2
    ∷ store 7 0 4 true
    ∷ branch 0 1 2
    ∷ label 2
    ∷ jump_slot 3
    ∷ []

compile-accepts_example : is_ok (compile a_loop) ≡ true
unfolding label_ids label_of all_fit distinct has all_valid in_bounds slots_of labels_of has_all
    blocks_end is_label ends_block
compile-accepts_example = compile-accepts a_loop

compile-slots_below_example : (slots_below 7 a_loop ≡ leb 8 7) × (4 ≡ all_stored a_loop)
unfolding compile collect_labels emit_all emit finish label_of all_fit has in_bounds slots_of
    labels_of has_all is_label ends_block note_slots stored_bytes
compile-slots_below_example =
    compile-slots_below a_loop (record { max_slot = 8; memory_stores = 4 }) 7 refl
