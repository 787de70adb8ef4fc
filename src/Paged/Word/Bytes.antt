-- ===== src/Paged/Word/Bytes.antt =====
-- What a store within a word does to the bytes of a memory.
use bap.Common.{
  ℕ, zero, suc, ◌+◌, ◌-◌, ◌%◌, ◌<◌, ◌≤◌, ◌≡◌, refl, true, ◌&&◌, none, some, List, [], ◌∷◌, arith,
  ◌==◌, leb, ltb, if◌then◌else◌, Bool-cases, Option-cases, inl, inr, ap, length, get_or,
}
use bap.Common.Word.{u64}
use bap.Paged.Table.{Page, page_size, word_size}
use bap.Paged.Memory.{
  find_congr, Memory, find, ensure, write_page, byte, page_number, find-ensure, find-write_page,
  byte-ensure,
}
use bap.Paged.Word.{
  word_offset, word_at, read_bytes, write_bytes, copy_into, all_zero, new_word, put_word,
  store_in_word, put_page,
}

pub get_or-copy_into :
    (xs : List ℕ) (offset : ℕ) (bytes : List ℕ) (i : ℕ)
    → offset + length bytes ≤ length xs
    → get_or (copy_into xs offset bytes) i 0 ≡ (
        if leb offset i && ltb i (offset + length bytes)
        then get_or bytes (i - offset) 0
        else get_or xs i 0)
unfolding copy_into
get_or-copy_into [] zero [] i h = ground arith
get_or-copy_into [] zero (b ∷ bytes) i h = absurd (omega arith)
get_or-copy_into [] (suc offset) bytes i h = absurd (omega arith)
get_or-copy_into (x ∷ xs) zero [] i h = ground arith
get_or-copy_into (x ∷ xs) zero (b ∷ bytes) zero h = ground arith
get_or-copy_into (x ∷ xs) zero (b ∷ bytes) (suc i) h =
    ground (arith, get_or-copy_into xs zero bytes i)
get_or-copy_into (x ∷ xs) (suc offset) bytes zero h = ground arith
get_or-copy_into (x ∷ xs) (suc offset) bytes (suc i) h =
    ground (arith, get_or-copy_into xs offset bytes i)

pub length-copy_into :
    (xs : List ℕ) (offset : ℕ) (bytes : List ℕ) → length (copy_into xs offset bytes) ≡ length xs
unfolding copy_into
length-copy_into [] offset bytes = refl
length-copy_into (x ∷ xs) zero [] = refl
length-copy_into (x ∷ xs) zero (b ∷ bytes) = ap suc (length-copy_into xs zero bytes)
length-copy_into (x ∷ xs) (suc offset) bytes = ap suc (length-copy_into xs offset bytes)

pub length-read_bytes : (p : Page) (offset n : ℕ) → length (read_bytes p offset n) ≡ n
length-read_bytes p offset zero = refl
length-read_bytes p offset (suc n) = ap suc (length-read_bytes p (offset + 1) n)

pub get_or-read_bytes :
    (p : Page) (offset n i : ℕ) → i < n → get_or (read_bytes p offset n) i 0 ≡ p (offset + i)
get_or-read_bytes p offset zero i h = absurd (omega arith)
get_or-read_bytes p offset (suc n) zero h = ground arith
get_or-read_bytes p offset (suc n) (suc i) h = ground (arith, get_or-read_bytes p (offset + 1) n i)

-- A page after a store within a word: the bytes where they go, and the rest of the page as it was.
put_word_lem :
    (address : ℕ) (bytes : List ℕ) (p : Page) (i : ℕ)
    → word_offset address + length bytes ≤ word_size
    → put_word address bytes p i ≡ (
        if leb (address % page_size) i && ltb i (address % page_size + length bytes)
        then get_or bytes (i - address % page_size) 0
        else p i)
unfolding put_word new_word write_bytes
put_word_lem address bytes p i h = ground (
  arith,
  length-read_bytes p (word_at address) word_size,
  length-copy_into (read_bytes p (word_at address) word_size) (word_offset address) bytes,
  get_or-copy_into (read_bytes p (word_at address) word_size) (word_offset address) bytes
      (i - word_at address),
  get_or-read_bytes p (word_at address) word_size (i - word_at address),
)

pub all_zero-get_or : (bytes : List ℕ) (i : ℕ) → all_zero bytes ≡ true → get_or bytes i 0 ≡ 0
unfolding all_zero
all_zero-get_or [] i h = refl
all_zero-get_or (b ∷ bytes) zero h = ground arith
all_zero-get_or (b ∷ bytes) (suc i) h = ground (arith, all_zero-get_or bytes i)

-- What a memory reads at `x` after `bytes` were stored at `address`, below the end of the address space.
abbrev pub stored : Memory → ℕ → List ℕ → ℕ → ℕ
stored m address bytes x =
    if leb address x && ltb x (address + length bytes)
    then get_or bytes (x - address) 0
    else byte m x

-- `f` puts the bytes at the offset of the address.
abbrev pub Puts : ℕ → List ℕ → (Page → Page) → Type 0
Puts address bytes f =
    (p : Page) (i : ℕ)
    → f p i ≡ (
        if leb (address % page_size) i && ltb i (address % page_size + length bytes)
        then get_or bytes (i - address % page_size) 0
        else p i)

module _ (address : ℕ) (bytes : List ℕ) (x : ℕ) (ha : address < u64) (hx : x < u64)
    (hp : address % page_size + length bytes ≤ page_size) where
  byte-write_page :
      (m : Memory) (f : Page → Page) (p : Page)
      → Puts address bytes f
      → find m address ≡ some p
      → byte (write_page m address f) x ≡ stored m address bytes x
  unfolding byte
  byte-write_page m f p hf e = elim (Bool-cases (page_number x == page_number address)) [
    | inl same ↦ ground (
      arith,
      e,
      same,
      find-write_page m address x f ha hx,
      find_congr m address x ha hx,
      hf p (x % page_size),
    )
    | inr other ↦ ground (arith, other, find-write_page m address x f ha hx)
  ]

  byte-absent :
      (m : Memory)
      → find m address ≡ none
      → all_zero bytes ≡ true
      → byte m x ≡ stored m address bytes x
  unfolding byte
  byte-absent m e z =
      ground (arith, e, z, find_congr m address x ha hx, all_zero-get_or bytes (x - address))

  -- A write of bytes to a page writes those and no other, whether or not the page is there and whether or not they are zeros.
  pub byte-put_page :
      (m : Memory) (f : Page → Page)
      → Puts address bytes f
      → byte (put_page m address (all_zero bytes) f) x ≡ stored m address bytes x
  unfolding put_page
  byte-put_page m f hf = elim (Bool-cases (all_zero bytes)) [
    | inl z ↦ elim (Option-cases (find m address)) [
      | inl e ↦ ground (arith, z, e, byte-absent m e z)
      | inr (p, e) ↦ ground (arith, z, e, byte-write_page m f p hf e)
    ]
    | inr z ↦ elim (Option-cases (find (ensure m address) address)) [
      | inl e ↦ ground (arith, e, find-ensure m address address ha ha)
      | inr (p, e) ↦
          ground (
            arith,
            z,
            e,
            byte-write_page (ensure m address) f p hf e,
            byte-ensure m address x ha hx,
          )
    ]
  ]

-- A store within a word writes its bytes and no other, whether or not the page is there and whatever its bytes are.
pub byte-store_in_word :
    (m : Memory) (address : ℕ) (bytes : List ℕ) (x : ℕ)
    → address < u64
    → x < u64
    → word_offset address + length bytes ≤ word_size
    → byte (store_in_word m address bytes) x ≡ stored m address bytes x
unfolding store_in_word
byte-store_in_word m address bytes x ha hx hw =
    byte-put_page address bytes x ha hx (omega arith) m (put_word address bytes)
      (λ p i. put_word_lem address bytes p i hw)

-- A write of zeros makes no page.
pub find-put_page :
    (m : Memory) (address b : ℕ) (f : Page → Page)
    → address < u64
    → b < u64
    → find m b ≡ none
    → find (put_page m address true f) b ≡ none
unfolding put_page
find-put_page m address b f ha hb e = elim (Option-cases (find m address)) [
  | inl n ↦ ground (arith, n, e)
  | inr (p, n) ↦ ground (arith, e, n, find-write_page m address b f ha hb)
]
