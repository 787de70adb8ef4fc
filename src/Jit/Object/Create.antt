-- ===== src/Jit/Object/Create.antt =====
-- native/bap_jit.cpp: memories that are created, of cells as `bap_jit_memory_dump` gives them and of chunks.
use bap.Common.{
  ℕ, zero, suc, ◌+◌, ◌-◌, ◌*◌, ◌%◌, ◌<◌, ◌≤◌, ◌≡◌, refl, ◌==◌, leb, ltb, if◌then◌else◌, true, false,
  ◌&&◌, List, [], ◌∷◌, ◌++◌, arith, length, ap, ◌∙◌, inl, inr, ◌⊎◌, Bool-cases, none, some, get_or,
}
use bap.Common.Word.{u64}
use bap.Paged.Table.{Page, word_size}
use bap.Paged.Memory.{Memory, byte, empty}
use bap.Paged.Word.{all_zero, read_bytes}
use bap.Paged.WriteAll.{write_all}
use bap.Paged.WriteAll.Pairs.{last_value, AreAddresses, byte-write_all}
use bap.Paged.Fill.{fill}
use bap.Paged.Fill.Bytes.{byte-fill}
use bap.Paged.Copy.{byte-empty}
use bap.Paged.Pages.{pages}
use bap.Paged.Pages.Order.{IsAscending, IsAscending-le}
use bap.Paged.Pages.Visit.{pages-IsAscending}
use bap.Paged.Pages.Bases.{AreBases, pages-AreBases}
use bap.Jit.Object.{
  pair_up, create, fill_chunks, create_chunks, dump_bytes, dump_words, dump_pages, dump,
}
use bap.Jit.Object.Dump.{dump-last_value}

-- The two arrays of pairs.
abbrev pub addresses_of : List (ℕ × ℕ) → List ℕ
addresses_of [] = []
addresses_of ((a, v) ∷ xs) = a ∷ addresses_of xs

abbrev pub values_of : List (ℕ × ℕ) → List ℕ
values_of [] = []
values_of ((a, v) ∷ xs) = v ∷ values_of xs

length-arrays : (xs : List (ℕ × ℕ)) → length (addresses_of xs) ≡ length (values_of xs)
length-arrays [] = refl
length-arrays ((a, v) ∷ xs) = ap suc (length-arrays xs)

pair_up-last_value :
    (xs : List (ℕ × ℕ)) (x before : ℕ)
    → last_value (pair_up (addresses_of xs) (values_of xs)) x (before % 256)
      ≡ last_value xs x before % 256
unfolding pair_up
pair_up-last_value [] x before = refl
pair_up-last_value ((a, v) ∷ xs) x before =
    ground (arith, pair_up-last_value xs x v, pair_up-last_value xs x before)

pair_up-AreAddresses :
    (xs : List (ℕ × ℕ)) → AreAddresses xs → AreAddresses (pair_up (addresses_of xs) (values_of xs))
unfolding pair_up
pair_up-AreAddresses [] h = tt
pair_up-AreAddresses ((a, v) ∷ xs) h = (h.0, pair_up-AreAddresses xs h.1)

pub AreAddresses-append :
    (xs ys : List (ℕ × ℕ)) → AreAddresses xs → AreAddresses ys → AreAddresses (xs ++ ys)
AreAddresses-append [] ys h k = k
AreAddresses-append ((a, v) ∷ xs) ys h k = (h.0, AreAddresses-append xs ys h.1 k)

dump_bytes-AreAddresses :
    (page : Page) (offset n at : ℕ)
    → at + n ≤ u64
    → AreAddresses (dump_bytes (read_bytes page offset n) at)
unfolding dump_bytes
dump_bytes-AreAddresses page offset zero at h = tt
dump_bytes-AreAddresses page offset (suc n) at h =
    let rest = dump_bytes-AreAddresses page (offset + 1) n (at + 1) (omega arith) in
    elim (Bool-cases (page offset == 0)) [ inl e ↦ rw e rest | inr e ↦ rw e (omega arith, rest) ]

dump_words-AreAddresses :
    (page : Page) (address count offset : ℕ)
    → address + offset + count * 8 ≤ u64
    → AreAddresses (dump_words page address count offset)
unfolding dump_words
dump_words-AreAddresses page address zero offset h = tt
dump_words-AreAddresses page address (suc count) offset h =
    let rest = dump_words-AreAddresses page address count (offset + word_size) (omega arith) in
    elim (Bool-cases (all_zero (read_bytes page offset word_size))) [
      | inl e ↦ rw e rest
      | inr e ↦ rw e (
          AreAddresses-append (dump_bytes (read_bytes page offset word_size) (address + offset)) _
            (dump_bytes-AreAddresses page offset word_size (address + offset) (omega arith)) rest)
    ]

dump_pages-AreAddresses :
    (low : ℕ) (xs : List (ℕ × Page))
    → AreBases xs
    → IsAscending low u64 xs
    → AreAddresses (dump_pages xs)
unfolding dump_pages
dump_pages-AreAddresses low [] hb ha = tt
dump_pages-AreAddresses low ((address, page) ∷ xs) hb ha =
    AreAddresses-append (dump_words page address 512 0) (dump_pages xs)
      (dump_words-AreAddresses page address 512 0
        (omega (arith, IsAscending-le (suc address) u64 xs ha.1)))
      (dump_pages-AreAddresses (suc address) xs hb.1 ha.1)

dump-AreAddresses : (m : Memory) → AreAddresses (dump m)
unfolding dump
dump-AreAddresses m = dump_pages-AreAddresses 0 (pages m) (pages-AreBases m) (pages-IsAscending m)

-- A memory that is created of the arrays that another's dump gives holds what that one holds, wherever that is a byte.
pub create-dump :
    (m : Memory) (x : ℕ)
    → x < u64
    → byte m x < 256
    → (copy : Memory) × (create (addresses_of (dump m)) (values_of (dump m)) ≡ some copy)
      × (byte copy x ≡ byte m x)
unfolding create
create-dump m x hx hb =
    let given = pair_up (addresses_of (dump m)) (values_of (dump m)) in
    (
      write_all empty given,
      ground (arith, length-arrays (dump m)),
      byte-write_all empty given x hx (pair_up-AreAddresses (dump m) (dump-AreAddresses m))
          ∙ ap (last_value given x) (byte-empty x)
          ∙ pair_up-last_value (dump m) x 0
          ∙ omega (arith, dump-last_value m x hx),
    )

-- The byte of the last chunk that has one at `x`, and `before` where none has.
abbrev pub last_chunk : List ℕ → List (List ℕ) → ℕ → ℕ → ℕ
last_chunk [] chunks x before = before
last_chunk (base ∷ bases) [] x before = before
last_chunk (base ∷ bases) (chunk ∷ chunks) x before =
    last_chunk bases chunks x
      (if leb base x && ltb x (base + length chunk) then get_or chunk (x - base) 0 else before)

abbrev pub AreChunks : List ℕ → List (List ℕ) → Type 0
AreChunks [] chunks = Unit
AreChunks (base ∷ bases) [] = Unit
AreChunks (base ∷ bases) (chunk ∷ chunks) =
    (base < u64) × (length chunk ≤ u64) × AreChunks bases chunks

byte-fill_chunks :
    (m : Memory) (bases : List ℕ) (chunks : List (List ℕ)) (x : ℕ)
    → x < u64
    → AreChunks bases chunks
    → byte (fill_chunks m bases chunks) x ≡ last_chunk bases chunks x (byte m x)
unfolding fill_chunks
byte-fill_chunks m [] chunks x hx h = refl
byte-fill_chunks m (base ∷ bases) [] x hx h = refl
byte-fill_chunks m (base ∷ bases) (chunk ∷ chunks) x hx h =
    byte-fill_chunks (fill m base chunk) bases chunks x hx h.2
    ∙ ap (last_chunk bases chunks x) (byte-fill m base chunk x h.0 hx h.1)

-- `bap_jit_memory_create_chunks` fails just when it isn't given as many chunks as bases, and else gives a memory that holds at each address
-- the byte of the last chunk there, as far as the address space goes, and 0 where there is none.
pub create_chunks_lem :
    (bases : List ℕ) (chunks : List (List ℕ)) (x : ℕ)
    → x < u64
    → AreChunks bases chunks
    → ((length bases == length chunks ≡ false) × (create_chunks bases chunks ≡ none))
      ⊎ ((m : Memory) × (length bases == length chunks ≡ true)
          × (create_chunks bases chunks ≡ some m)
          × (byte m x ≡ last_chunk bases chunks x 0))
unfolding create_chunks
create_chunks_lem bases chunks x hx h = elim (Bool-cases (length bases == length chunks)) [
  | inr e ↦ inl (e, rw e)
  | inl e ↦ inr (
    fill_chunks empty bases chunks,
    e,
    rw e,
    byte-fill_chunks empty bases chunks x hx h ∙ ap (last_chunk bases chunks x) (byte-empty x),
  )
]
