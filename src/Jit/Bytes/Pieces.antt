-- ===== src/Jit/Bytes/Pieces.antt =====
-- native/bap_jit.cpp: slices and pieces of byte arrays are of the bytes that these have.
use bap.Common.{
  ℕ, zero, suc, ◌+◌, ◌-◌, ◌^◌, ◌<◌, ◌≤◌, ◌≡◌, refl, leb, ltb, if◌then◌else◌, ◌&&◌, List, [], ◌∷◌,
  arith, length, take, drop, get_or, min, ◌∙◌, inl, inr, Bool-cases, length-take, length-drop,
  get_or_out, get_or-take, get_or-drop, sym, ◌⊎◌,
}
use bap.Paged.Word.{copy_into, all_zero}
use bap.Paged.Word.Bytes.{get_or-copy_into, length-copy_into}
use bap.Paged.ZeroRange.{zeros}
use bap.Jit.Bytes.{
  is_scalar, piece_of, copy_pieces, slice_bytes, pieces_from, pieces, resident_from, resident,
  put_piece, fill_pieces, lazy_from,
}
use bap.Jit.Bytes.Copies.{
  get_or-ext, length-zeros, get_or-zeros, length-piece_of, get_or-piece_of, piece_of-zeros,
}

copy_pieces-get_or :
    (fuel : ℕ) (from to : List ℕ) (done i : ℕ)
    → length to ≡ length from
    → length from ≤ done + fuel
    → ((k : ℕ) → done ≤ k → get_or to k 0 ≡ 0)
    → (length (copy_pieces fuel from to done) ≡ length from)
      × (get_or (copy_pieces fuel from to done) i 0
          ≡ (if leb done i then get_or from i 0 else get_or to i 0))
unfolding copy_pieces
copy_pieces-get_or zero from to done i hl hf hz = (hl, ground (arith, hz i, get_or_out from i 0))
copy_pieces-get_or (suc fuel) from to done i hl hf hz = elim (Bool-cases (ltb done (length from))) [
  | inr e ↦ rw e (hl, ground (arith, hz i, get_or_out from i 0))
  | inl e ↦
      let piece = piece_of from done in
      let size = length-piece_of from done in
      elim (Bool-cases (all_zero piece)) [
        | inl z ↦
            rw (e, z)
              (let rest =
                  copy_pieces-get_or fuel from to (done + 4096) i hl (omega arith)
                    (λ k h. hz k (omega arith)) in
                (rest.0, ground (arith, rest.1, hz i, piece_of-zeros from done i z)))
        | inr z ↦
            rw (e, z)
              (let next = copy_into to done piece in
                let put = λ (k : ℕ). get_or-copy_into to done piece k (ground arith) in
                let rest =
                  copy_pieces-get_or fuel from next (done + 4096) i
                    (length-copy_into to done piece ∙ hl) (omega arith)
                    (λ k h. ground (arith, put k, hz k, size)) in
                (
                  rest.0,
                  ground (
                    arith,
                    rest.1,
                    put i,
                    size,
                    hz i,
                    get_or-piece_of from done (i - done),
                    get_or_out from i 0,
                  ),
                ))
      ]
]

take-drop_same :
    (bytes : List ℕ) (a b n k : ℕ)
    → (min n (length bytes - a) ≡ min k (length bytes - b))
      × ((a ≡ b) ⊎ (min n (length bytes - a) ≡ 0))
    → take n (drop a bytes) ≡ take k (drop b bytes)
take-drop_same bytes a b n k h =
    get_or-ext (take n (drop a bytes)) (take k (drop b bytes))
      (omega (
        arith,
        length-take n (drop a bytes),
        length-drop a bytes,
        length-take k (drop b bytes),
        length-drop b bytes,
      ))
      (λ i l. elim h.1 [
        | inl e ↦ ground (
          arith,
          e,
          length-take n (drop a bytes),
          length-drop a bytes,
          get_or-take n (drop a bytes) i 0,
          get_or-take k (drop b bytes) i 0,
          get_or-drop a bytes i 0,
          get_or-drop b bytes i 0,
        )
        | inr z ↦ absurd (omega (arith, length-take n (drop a bytes), length-drop a bytes))
      ])

sized :
    (size start : ℕ) (bytes : List ℕ)
    → size ≤ length bytes - start
    → length (take size (drop start bytes)) ≡ size
sized size start bytes h =
    omega (arith, length-take size (drop start bytes), length-drop start bytes)

copy_all :
    (size : ℕ) (from : List ℕ) → length from ≡ size → copy_pieces size from (zeros size) 0 ≡ from
copy_all size from e =
    let copied = λ (i : ℕ).
      copy_pieces-get_or size from (zeros size) 0 i (length-zeros size ∙ sym e) (omega arith)
        (λ k h. get_or-zeros size k) in
    get_or-ext (copy_pieces size from (zeros size) 0) from (copied 0).0
      (λ i l. ground (arith, (copied i).1))

-- A slice has the bytes from its start to its stop, as far as there are any, also where it leaves out pieces of zeros as it copies.
pub slice_bytes_lem :
    (bytes : List ℕ) (start stop : ℕ)
    → length bytes < 2 ^ 63
    → slice_bytes bytes start stop ≡ take (stop - start) (drop start bytes)
unfolding slice_bytes
slice_bytes_lem bytes start stop h =
    let total = length bytes in
    let stop' : ℕ = if is_scalar stop then min stop total else total in
    let start' : ℕ = if is_scalar start then start else total in
    let size : ℕ = if ltb start' stop' then stop' - start' else 0 in
    let same : take size (drop start' bytes) ≡ take (stop - start) (drop start bytes) =
      take-drop_same bytes start' start size (stop - start) (ground arith) in
    let enough : size ≤ total - start' = ground arith in
    elim (Bool-cases (ltb size lazy_from)) [
      | inl e ↦ rw e same
      | inr e ↦
          rw e
            (copy_all size (take size (drop start' bytes)) (sized size start' bytes enough) ∙ same)
    ]

-- The byte of the first piece that has one at `i`.
unfoldable pub first_byte : List (ℕ × List ℕ) → ℕ → ℕ
first_byte [] i = 0
first_byte ((start, bytes) ∷ rest) i =
    if leb start i && ltb i (start + length bytes)
    then get_or bytes (i - start) 0
    else first_byte rest i

put_piece-get_or :
    (to : List ℕ) (start : ℕ) (bytes : List ℕ) (i : ℕ)
    → length to < 2 ^ 63
    → (length (put_piece to start bytes) ≡ length to)
      × (get_or (put_piece to start bytes) i 0 ≡ (
          if (leb start i && ltb i (start + length bytes)) && ltb i (length to)
          then get_or bytes (i - start) 0
          else get_or to i 0))
unfolding put_piece
put_piece-get_or to start bytes i h =
    let part = take (min (length bytes) (length to - start)) bytes in
    (
      ground (arith, length-copy_into to start part),
      ground (
        arith,
        length-take (min (length bytes) (length to - start)) bytes,
        get_or-take (min (length bytes) (length to - start)) bytes (i - start) 0,
        get_or-copy_into to start part i,
        get_or_out to i 0,
      ),
    )

-- `bap_bytes_fill` gives as many bytes as it is to, each that of the first piece that has one there, and 0 where none has.
pub fill_pieces_lem :
    (size : ℕ) (given : List (ℕ × List ℕ)) (i : ℕ)
    → size < 2 ^ 63
    → (length (fill_pieces size given) ≡ size)
      × (get_or (fill_pieces size given) i 0 ≡ (if ltb i size then first_byte given i else 0))
unfolding fill_pieces first_byte
fill_pieces_lem size [] i h = (length-zeros size, ground (arith, get_or-zeros size i))
fill_pieces_lem size ((start, bytes) ∷ rest) i h =
    let below = fill_pieces_lem size rest i h in
    let put = put_piece-get_or (fill_pieces size rest) start bytes i (omega (arith, below.0)) in
    (put.0 ∙ below.0, ground (arith, put.1, below.0, below.1))

first_byte-pieces_from_below :
    (fuel : ℕ) (bytes : List ℕ) (start i : ℕ)
    → i < start
    → first_byte (pieces_from fuel bytes start) i ≡ 0
unfolding pieces_from first_byte
first_byte-pieces_from_below zero bytes start i h = refl
first_byte-pieces_from_below (suc fuel) bytes start i h =
    ground (arith, first_byte-pieces_from_below fuel bytes (start + 4096) i)

first_byte-pieces_from :
    (fuel : ℕ) (bytes : List ℕ) (start i : ℕ)
    → length bytes ≤ start + fuel
    → start ≤ i
    → first_byte (pieces_from fuel bytes start) i ≡ get_or bytes i 0
unfolding pieces_from first_byte
first_byte-pieces_from zero bytes start i hf hi = ground (arith, get_or_out bytes i 0)
first_byte-pieces_from (suc fuel) bytes start i hf hi = ground (
  arith,
  first_byte-pieces_from fuel bytes (start + 4096) i,
  first_byte-pieces_from_below fuel bytes (start + 4096) i,
  piece_of-zeros bytes start i,
  length-piece_of bytes start,
  get_or-piece_of bytes start (i - start),
  get_or_out bytes i 0,
)

-- Pieces put together again are the bytes that they are of.
pub fill_pieces-pieces :
    (bytes : List ℕ) → length bytes < 2 ^ 63 → fill_pieces (length bytes) (pieces bytes) ≡ bytes
unfolding pieces
fill_pieces-pieces bytes h =
    get_or-ext (fill_pieces (length bytes) (pieces bytes)) bytes
      (fill_pieces_lem (length bytes) (pieces bytes) 0 h).0
      (λ i l. ground (
        arith,
        (fill_pieces_lem (length bytes) (pieces bytes) i h).0,
        (fill_pieces_lem (length bytes) (pieces bytes) i h).1,
        first_byte-pieces_from (length bytes) bytes 0 i,
      ))

abbrev pub total_length : List (ℕ × List ℕ) → ℕ
total_length [] = 0
total_length ((start, bytes) ∷ rest) = length bytes + total_length rest

resident_from-pieces_from :
    (fuel : ℕ) (bytes : List ℕ) (start total : ℕ)
    → resident_from fuel bytes start total ≡ total + total_length (pieces_from fuel bytes start)
unfolding resident_from pieces_from
resident_from-pieces_from zero bytes start total = omega arith
resident_from-pieces_from (suc fuel) bytes start total = ground (
  arith,
  resident_from-pieces_from fuel bytes (start + 4096) total,
  resident_from-pieces_from fuel bytes (start + 4096) (total + length (piece_of bytes start)),
)

-- What is resident of bytes is as many as their pieces have together.
pub resident-pieces : (bytes : List ℕ) → resident bytes ≡ total_length (pieces bytes)
unfolding resident pieces
resident-pieces bytes = resident_from-pieces_from (length bytes) bytes 0 0 ∙ omega arith
