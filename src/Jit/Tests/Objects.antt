-- ===== src/Jit/Tests/Objects.antt =====
-- native/bap_jit.cpp: byte arrays and memories as objects on concrete inputs.
use bap.Common.{
  ℕ, ◌-◌, ◌≡◌, ◌==◌, true, false, List, [], ◌∷◌, none, some, length, take, drop, arith, ◌⊎◌,
}
use bap.Paged.Memory.{Memory, empty, byte}
use bap.Paged.Access.{store, bytes_from}
use bap.Paged.Access.Store.{byte-store}
use bap.Jit.Bytes.{slice_bytes, pieces, fill_pieces}
use bap.Jit.Bytes.Pieces.{slice_bytes_lem, fill_pieces-pieces}
use bap.Jit.Object.{create, create_chunks, dump, region_bytes}
use bap.Jit.Object.Region.{region_bytes_lem}
use bap.Jit.Object.Create.{addresses_of, values_of, create-dump, create_chunks_lem, last_chunk}

abbrev some_memory : Memory
some_memory = store empty 4094 (7 ∷ 0 ∷ 9 ∷ [])

slice_bytes_lem_example :
    slice_bytes (1 ∷ 2 ∷ 3 ∷ 4 ∷ []) 1 9 ≡ take (9 - 1) (drop 1 (1 ∷ 2 ∷ 3 ∷ 4 ∷ []))
slice_bytes_lem_example = slice_bytes_lem (1 ∷ 2 ∷ 3 ∷ 4 ∷ []) 1 9 (omega arith)

fill_pieces-pieces_example : fill_pieces 3 (pieces (0 ∷ 5 ∷ 0 ∷ [])) ≡ 0 ∷ 5 ∷ 0 ∷ []
fill_pieces-pieces_example = fill_pieces-pieces (0 ∷ 5 ∷ 0 ∷ []) (omega arith)

region_bytes_lem_example : region_bytes some_memory 4093 5 ≡ bytes_from some_memory 4093 0 5
region_bytes_lem_example = region_bytes_lem some_memory 4093 5 (omega arith) (omega arith)

seven_there : byte some_memory 4094 ≡ 7
seven_there = byte-store empty 4094 (7 ∷ 0 ∷ 9 ∷ []) 4094 (omega arith) (omega arith) (omega arith)

create-dump_example :
    (copy : Memory) × (create (addresses_of (dump some_memory)) (values_of (dump some_memory))
      ≡ some copy)
    × (byte copy 4094 ≡ byte some_memory 4094)
create-dump_example = create-dump some_memory 4094 (omega arith) (omega (arith, seven_there))

abbrev two_bases : List ℕ
two_bases = 0 ∷ 1 ∷ []

abbrev two_chunks : List (List ℕ)
two_chunks = (1 ∷ 2 ∷ []) ∷ (3 ∷ []) ∷ []

create_chunks_lem_example :
    ((length two_bases == length two_chunks ≡ false) × (create_chunks two_bases two_chunks ≡ none))
    ⊎ ((m : Memory) × (length two_bases == length two_chunks ≡ true)
        × (create_chunks two_bases two_chunks ≡ some m)
        × (byte m 1 ≡ last_chunk two_bases two_chunks 1 0))
create_chunks_lem_example =
    create_chunks_lem two_bases two_chunks 1 (omega arith)
      (omega arith, omega arith, (omega arith, omega arith, tt))
