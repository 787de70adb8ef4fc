-- ===== src/Paged/Access/Store.antt =====
-- `store` writes its bytes one by one, also past the end of the address space, and nothing else.
use bap.Common.{
  ℕ, zero, suc, ◌+◌, ◌-◌, ◌<◌, ◌≤◌, ◌≡◌, refl, List, [], ◌∷◌, leb, ltb, if◌then◌else◌, length,
  get_or, take, drop, arith, ap, ◌∙◌, length-take, length-drop, get_or-take, get_or-drop, ◌&&◌,
  drop-suc,
}
use bap.Common.Word.{u64, add64}
use bap.Paged.Memory.{Memory, byte}
use bap.Paged.Word.{store_in_word}
use bap.Paged.Word.Bytes.{stored, byte-store_in_word}
use bap.Paged.Access.{chunk, store_loop, store, load, bytes_from, distance}
use bap.Paged.Access.Load.{load_lem}

-- What `x` holds once `bytes` went from `address + done` on.
abbrev after : Memory → ℕ → ℕ → List ℕ → ℕ → ℕ
after m address done bytes x =
    if leb done (distance address x) && ltb (distance address x) (done + length bytes)
    then get_or bytes (distance address x - done) 0
    else byte m x

stored-chunk :
    (m : Memory) (address done : ℕ) (bytes : List ℕ) (x count : ℕ)
    → address < u64
    → x < u64
    → done + length bytes ≤ u64
    → count ≡ chunk (add64 address done) (length bytes)
    → stored m (add64 address done) (take count bytes) x ≡ after m address done (take count bytes) x
stored-chunk m address done bytes x count ha hx hb hc = ground (arith, length-take count bytes)

after-split :
    (m m' : Memory) (address done : ℕ) (bytes : List ℕ) (x count : ℕ)
    → count ≤ length bytes
    → byte m' x ≡ after m address done (take count bytes) x
    → after m' address (done + count) (drop count bytes) x ≡ after m address done bytes x
after-split m m' address done bytes x count hc h = ground (
  arith,
  length-take count bytes,
  length-drop count bytes,
  get_or-take count bytes (distance address x - done) 0,
  get_or-drop count bytes (distance address x - (done + count)) 0,
)

store_loop-byte :
    (fuel : ℕ) (m : Memory) (address done : ℕ) (bytes : List ℕ) (x : ℕ)
    → address < u64
    → x < u64
    → length bytes ≤ fuel
    → done + length bytes ≤ u64
    → byte (store_loop fuel m address done bytes) x ≡ after m address done bytes x
unfolding store_loop
store_loop-byte zero m address done [] x ha hx hf hb = ground arith
store_loop-byte zero m address done (b ∷ bytes) x ha hx hf hb = absurd (omega arith)
store_loop-byte (suc fuel) m address done [] x ha hx hf hb = ground arith
store_loop-byte (suc fuel) m address done (b ∷ bytes) x ha hx hf hb =
    let at = add64 address done in
    let all = b ∷ bytes in
    let count = chunk at (length all) in
    store_loop-byte fuel (store_in_word m at (take count all)) address (done + count)
      (drop count all) x ha hx (omega (arith, length-drop count all))
      (omega (arith, length-drop count all))
    ∙ after-split m (store_in_word m at (take count all)) address done all x count (omega arith) (
        byte-store_in_word m at (take count all) x (omega arith) hx
          (omega (arith, length-take count all))
        ∙ stored-chunk m address done all x count ha hx hb refl)

-- After `store`, the bytes from `address` on, going round at the end of the address space, are those stored, and every other byte of the
-- memory is as it was, whatever words and pages the access lies in.
pub byte-store :
    (m : Memory) (address : ℕ) (bytes : List ℕ) (x : ℕ)
    → address < u64
    → x < u64
    → length bytes ≤ u64
    → byte (store m address bytes) x ≡ (
        if ltb (distance address x) (length bytes)
        then get_or bytes (distance address x) 0
        else byte m x)
unfolding store
byte-store m address bytes x ha hx hb =
    ground (arith, store_loop-byte (length bytes) m address 0 bytes x ha hx)

bytes_from-store :
    (m : Memory) (address : ℕ) (bytes : List ℕ) (i : ℕ) (rest : List ℕ)
    → address < u64
    → length bytes ≤ u64
    → rest ≡ drop i bytes
    → bytes_from (store m address bytes) address i (length rest) ≡ rest
bytes_from-store m address bytes i [] ha hb e = refl
bytes_from-store m address bytes i (b ∷ rest) ha hb e = ground (
  arith,
  byte-store m address bytes (add64 address i) ha,
  get_or-drop i bytes 0 0,
  length-drop i bytes,
  ap length e,
  ap (λ (l : List ℕ). get_or l 0 0) e,
  bytes_from-store m address bytes (i + 1) rest ha hb
      (drop-suc i bytes e ∙ ap (λ k. drop k bytes) {x = suc i} {y = i + 1} (omega arith)),
)

-- What was stored is what is loaded.
pub load-store :
    (m : Memory) (address : ℕ) (bytes : List ℕ)
    → address < u64
    → length bytes ≤ u64
    → load (store m address bytes) address (length bytes) ≡ bytes
load-store m address bytes ha hb =
    load_lem (store m address bytes) address (length bytes)
    ∙ bytes_from-store m address bytes 0 bytes ha hb refl
