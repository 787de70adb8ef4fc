-- ===== src/Jit/Chain/Add/Decode.antt =====
-- native/bap_jit.cpp: what `bap_jit_chain_add` reads of an array is what was written to it.
use bap.Common.{ℕ, ◌≡◌, refl, List, [], ◌∷◌, ◌++◌, ap, ◌∙◌, append-nil, sym, map}
use bap.Jit.Chain.{no_slot, Output, Shape}
use bap.Jit.Chain.Reader.{
  Reader, reader, next, read_list, write_list, Reads, read_list-write_list, read_list_same,
}
use bap.Jit.Chain.Add.{read_pair, read_output, read_checkpoint, gather, decode}

write_one : ℕ → List ℕ
write_one x = x ∷ []

write_pair : ℕ × ℕ → List ℕ
write_pair (a, b) = a ∷ b ∷ []

write_output : Output → List ℕ
write_output output = output.variable ∷ output.slot ∷ output.width ∷ []

unfoldable pub write_checkpoint : ℕ × List Output → List ℕ
unfolding write_output
write_checkpoint (pc, outputs) = pc ∷ write_list write_output outputs

-- A range as an array.
unfoldable pub encode : Shape → List ℕ
unfolding write_one write_pair write_output write_checkpoint
encode shape =
    shape.slot_count
    ∷ shape.effect_slot
    ∷ shape.budget_slot
    ∷ shape.observed_slot
    ∷ shape.executions
    ∷ shape.optimize_at
    ∷ (write_list write_one shape.zeroed
        ++ (write_list write_pair shape.layout
            ++ (write_list write_one shape.required
                ++ (write_list write_output shape.outputs
                    ++ (write_list write_pair shape.flags
                        ++ write_list write_checkpoint shape.checkpoints)))))

next-write_one : Reads (λ x. x) next write_one
unfolding next write_one
next-write_one x xs = refl

read_pair-write_pair : Reads (λ x. x) read_pair write_pair
unfolding next write_pair
read_pair-write_pair (a, b) xs = refl

-- An output without its flag, which an array doesn't say with it.
abbrev pub unflagged : Output → Output
unflagged output = record output { flag = no_slot }

abbrev pub unflagged_checkpoint : ℕ × List Output → ℕ × List Output
unflagged_checkpoint (pc, outputs) = (pc, map unflagged outputs)

read_output-write_output : Reads unflagged read_output write_output
unfolding next write_output
read_output-write_output output xs = refl

read_checkpoint-write_checkpoint : Reads unflagged_checkpoint read_checkpoint write_checkpoint
unfolding next write_checkpoint
read_checkpoint-write_checkpoint (pc, outputs) xs =
    ap (λ (read : List Output × Reader). ((pc, read.0), read.1))
      (read_list-write_list unflagged read_output write_output read_output-write_output outputs xs)

-- What an array says of a range: its outputs without flags, and its checkpoints by their pcs.
abbrev pub as_said : Shape → Shape
as_said shape = record shape {
  outputs = map unflagged shape.outputs;
  checkpoints = gather [] (map unflagged_checkpoint shape.checkpoints);
}

-- The array that a range is written as is read as that range, but for the flags of its outputs, which come after them, and for checkpoints of
-- one pc, whose outputs are put together. Nothing of it is left, and it isn't bad.
pub decode-encode : (shape : Shape) → decode (encode shape) ≡ (as_said shape, reader [])
unfolding decode encode next
decode-encode shape =
    let ones = read_list_same next write_one next-write_one in
    let pairs = read_list_same read_pair write_pair read_pair-write_pair in
    let outputs =
      read_list-write_list unflagged read_output write_output read_output-write_output in
    let checkpoints =
      read_list-write_list unflagged_checkpoint read_checkpoint write_checkpoint
        read_checkpoint-write_checkpoint in
    let after5 = write_list write_checkpoint shape.checkpoints in
    let after4 = write_list write_pair shape.flags ++ after5 in
    let after3 = write_list write_output shape.outputs ++ after4 in
    let after2 = write_list write_one shape.required ++ after3 in
    let after1 = write_list write_pair shape.layout ++ after2 in
    let last =
      ap (λ xs. read_list read_checkpoint (reader xs)) (sym (append-nil after5))
      ∙ checkpoints shape.checkpoints [] in
    rw
      (
        ones shape.zeroed after1,
        pairs shape.layout after2,
        ones shape.required after3,
        outputs shape.outputs after4,
        pairs shape.flags after5,
        last,
      )
      refl
