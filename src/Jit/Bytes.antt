-- ===== src/Jit/Bytes.antt =====
-- native/bap_jit.cpp: byte arrays that take memory of the host only where they aren't zeros.
pub mod Zeros
pub mod Copies
pub mod Pieces
use bap.Common.{
  ℕ, zero, suc, ◌+◌, ◌-◌, ◌*◌, ◌/◌, ◌%◌, ◌^◌, ◌==◌, leb, ltb, if◌then◌else◌, Bool, true, false, not,
  ◌&&◌, List, [], ◌∷◌, Option, none, some, length, take, drop, min,
}
use bap.Paged.Word.{copy_into, all_zero}
use bap.Paged.ZeroRange.{zeros}

-- `lazyFrom`.
abbrev pub lazy_from : ℕ
lazy_from = 65536

-- `memset` of `count` bytes from `offset` on to 0.
abbrev pub set_zeros : List ℕ → ℕ → ℕ → List ℕ
set_zeros bytes offset count = copy_into bytes offset (zeros count)

-- `lazyZeros` as it is on Linux, of bytes that hold `old` at the address `start`, where the pages of the host are of `page` bytes. `advise` is
-- `madvise` with `MADV_DONTNEED`, of the bytes from an offset on: what they all are then, or nothing where it fails.
unfoldable pub lazy_zeros : (List ℕ → ℕ → ℕ → Option (List ℕ)) → ℕ → ℕ → List ℕ → List ℕ
lazy_zeros advise page start old =
    let size = length old in
    let end = start + size in
    let first = (start + page - 1) / page * page in
    let last = end / page * page in
    let edges = set_zeros (set_zeros old 0 (first - start)) (last - start) (end - last) in
    if leb lazy_from size && ltb first last
    then (elim (advise edges (first - start) (last - first)) [
      | some bytes ↦ bytes
      | none ↦ set_zeros edges (first - start) (last - first)
    ])
    else set_zeros old 0 size

-- A natural number of the runtime that is small enough to be one word, which is then its value.
abbrev pub is_scalar : ℕ → Bool
is_scalar n = ltb n (2 ^ 63)

-- `std::min<size_t>(4096, size - start)`, and the bytes that are as many from `start` on.
abbrev pub piece_of : List ℕ → ℕ → List ℕ
piece_of bytes start = take (min 4096 (length bytes - start)) (drop start bytes)

-- The loop of `sliceBytes`, which leaves out pieces of zeros. `from` is what is copied, to `to`, from `done` on.
unfoldable pub copy_pieces : ℕ → List ℕ → List ℕ → ℕ → List ℕ
copy_pieces zero from to done = to
copy_pieces (suc fuel) from to done =
    let piece = piece_of from done in
    let next = if all_zero piece then to else copy_into to done piece in
    let rest = copy_pieces fuel from next (done + 4096) in
    if ltb done (length from) then rest else to

-- `sliceBytes`.
unfoldable pub slice_bytes : List ℕ → ℕ → ℕ → List ℕ
unfolding copy_pieces
slice_bytes bytes start_at stop_at =
    let total = length bytes in
    let stop = if is_scalar stop_at then min stop_at total else total in
    let start = if is_scalar start_at then start_at else total in
    let size = if ltb start stop then stop - start else 0 in
    let from = take size (drop start bytes) in
    if ltb size lazy_from then from else copy_pieces size from (zeros size) 0

-- The loop of `bap_bytes_pieces`: the pieces that aren't all zeros, with where they start.
unfoldable pub pieces_from : ℕ → List ℕ → ℕ → List (ℕ × List ℕ)
pieces_from zero bytes start = []
pieces_from (suc fuel) bytes start =
    let piece = piece_of bytes start in
    let rest = pieces_from fuel bytes (start + 4096) in
    let all = if all_zero piece then rest else (start, piece) ∷ rest in
    if ltb start (length bytes) then all else []

-- `bap_bytes_pieces`.
unfoldable pub pieces : List ℕ → List (ℕ × List ℕ)
unfolding pieces_from
pieces bytes = pieces_from (length bytes) bytes 0

-- `bap_bytes_resident`.
unfoldable pub resident_from : ℕ → List ℕ → ℕ → ℕ → ℕ
resident_from zero bytes start total = total
resident_from (suc fuel) bytes start total =
    let piece = piece_of bytes start in
    let next = if all_zero piece then total else total + length piece in
    let rest = resident_from fuel bytes (start + 4096) next in
    if ltb start (length bytes) then rest else total

unfoldable pub resident : List ℕ → ℕ
unfolding resident_from
resident bytes = resident_from (length bytes) bytes 0 0

-- What `bap_bytes_fill` does with a piece: nothing where it starts past the end, and else what of it there is room for.
unfoldable pub put_piece : List ℕ → ℕ → List ℕ → List ℕ
put_piece to start bytes =
    if not (is_scalar start)
    then to
    else if leb (length to) start
    then to
    else copy_into to start (take (min (length bytes) (length to - start)) bytes)

-- `bap_bytes_fill`, which goes through the pieces from the last to the first.
unfoldable pub fill_pieces : ℕ → List (ℕ × List ℕ) → List ℕ
unfolding put_piece
fill_pieces size [] = zeros size
fill_pieces size ((start, bytes) ∷ rest) = put_piece (fill_pieces size rest) start bytes
