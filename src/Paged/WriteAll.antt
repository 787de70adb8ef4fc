-- ===== src/Paged/WriteAll.antt =====
-- native/paged_memory.h: `writeAll`.
pub mod Pairs
use bap.Common.{
  ℕ, zero, suc, ◌+◌, ◌-◌, ◌%◌, List, [], ◌∷◌, ◌==◌, if◌then◌else◌, length, take, drop, map,
}
use bap.Common.Word.{add64}
use bap.Paged.Memory.{Memory}
use bap.Paged.Table.{word_size}
use bap.Paged.Word.{word_offset, store_in_word}
use bap.Paged.Step.{note_step}

-- The number of pairs that go on from each other: of those before `rest` there are `run`, from the address `at` on, and `room` at most.
unfoldable pub run_length : ℕ → ℕ → ℕ → List (ℕ × ℕ) → ℕ
run_length room at run [] = run
run_length room at run ((address, value) ∷ rest) =
    let more = run_length room at (suc run) rest in
    if run == room then run else if address == add64 at run then more else run

abbrev pub values : List (ℕ × ℕ) → List ℕ
values [] = []
values ((address, value) ∷ rest) = value ∷ values rest

-- The loop of `writeAll`: each round writes a run of one pair or more.
unfoldable pub write_loop : ℕ → Memory → List (ℕ × ℕ) → Memory
unfolding run_length
write_loop zero m pairs = m
write_loop (suc fuel) m [] = m
write_loop (suc fuel) m ((at, value) ∷ rest) =
    let run = run_length (word_size - word_offset at) at 1 rest in
    let stored = store_in_word m at (take run (value ∷ values rest)) in
    write_loop fuel (note_step stored at run) (drop run ((at, value) ∷ rest))

-- `writeAll`, of addresses each with its value.
unfoldable pub write_all : Memory → List (ℕ × ℕ) → Memory
unfolding write_loop
write_all m pairs = write_loop (length pairs) m pairs
