-- ===== src/Jit/Access/CellList.antt =====
-- The list of cells as a memory: `loadByte` after `storeByte`.
use bap.Common.{
  ℕ, suc, ◌+◌, ◌-◌, ◌<◌, ◌≤◌, ◌≡◌, refl, List, [], ◌∷◌, ◌++◌, ◌==◌, leb, ltb, if◌then◌else◌, true,
  false, ◌&&◌, get_or, length, arith, ap, ◌∙◌, drop, drop-suc, get_or-drop, length-drop,
  length-append, Bool-cases, inl, inr,
}
use bap.Common.Word.{u64, add64}
use bap.Paged.Access.{distance}
use bap.Jit.Access.{load_byte, holds, replace, store_byte, load_cells, store_cells}

load_byte-replace :
    (items : List (ℕ × ℕ)) (a v x : ℕ)
    → holds items a ≡ true
    → load_byte (replace items a v) x ≡ (if x == a then v else load_byte items x)
unfolding load_byte replace holds
load_byte-replace [] a v x h = absurd (cc)
load_byte-replace ((b, w) ∷ items) a v x h = ground (arith, load_byte-replace items a v x)

load_byte-append :
    (items : List (ℕ × ℕ)) (a v x : ℕ)
    → holds items a ≡ false
    → load_byte (items ++ (a, v) ∷ []) x ≡ (if x == a then v else load_byte items x)
unfolding load_byte holds
load_byte-append [] a v x h = ground arith
load_byte-append ((b, w) ∷ items) a v x h = ground (arith, load_byte-append items a v x)

length-replace : (items : List (ℕ × ℕ)) (a v : ℕ) → length (replace items a v) ≡ length items
unfolding replace
length-replace [] a v = refl
length-replace ((b, w) ∷ items) a v = ground (arith, length-replace items a v)

-- Where there is room, `storeByte` changes what `loadByte` gives at its address and nowhere else, and takes one cell at most.
pub load_byte-store_byte :
    (capacity : ℕ) (items : List (ℕ × ℕ)) (a v x : ℕ)
    → length items < capacity
    → (load_byte (store_byte capacity items a v) x ≡ (if x == a then v else load_byte items x))
      × (length (store_byte capacity items a v) ≤ suc (length items))
unfolding store_byte
load_byte-store_byte capacity items a v x h = elim (Bool-cases (holds items a)) [
  | inl e ↦ rw e (load_byte-replace items a v x e, omega (arith, length-replace items a v))
  | inr e ↦ ground (arith, e, load_byte-append items a v x, length-append items ((a, v) ∷ []))
]

pub load_byte-store_cells :
    (capacity : ℕ) (items : List (ℕ × ℕ)) (a index : ℕ) (bytes : List ℕ) (x : ℕ)
    → a < u64
    → x < u64
    → index + length bytes ≤ u64
    → length items + length bytes ≤ capacity
    → load_byte (store_cells capacity items a index bytes) x ≡ (
        if leb index (distance a x) && ltb (distance a x) (index + length bytes)
        then get_or bytes (distance a x - index) 0
        else load_byte items x)
unfolding store_cells
load_byte-store_cells capacity items a index [] x ha hx hb hc = ground arith
load_byte-store_cells capacity items a index (b ∷ bytes) x ha hx hb hc = ground (
  arith,
  load_byte-store_byte capacity items (add64 a index) b x,
  load_byte-store_cells capacity (store_byte capacity items (add64 a index) b) a (index + 1) bytes x
      ha hx,
)

load_cells-rest :
    (capacity : ℕ) (items : List (ℕ × ℕ)) (a : ℕ) (bytes : List ℕ) (index : ℕ) (rest : List ℕ)
    → a < u64
    → length bytes ≤ u64
    → length items + length bytes ≤ capacity
    → rest ≡ drop index bytes
    → load_cells (store_cells capacity items a 0 bytes) a index (length rest) ≡ rest
unfolding load_cells
load_cells-rest capacity items a bytes index [] ha hb hc e = refl
load_cells-rest capacity items a bytes index (b ∷ rest) ha hb hc e = ground (
  arith,
  load_byte-store_cells capacity items a 0 bytes (add64 a index) ha,
  get_or-drop index bytes 0 0,
  length-drop index bytes,
  ap length e,
  ap (λ (l : List ℕ). get_or l 0 0) e,
  load_cells-rest capacity items a bytes (index + 1) rest ha hb hc (
      drop-suc index bytes e
      ∙ ap (λ k. drop k bytes) {x = suc index} {y = index + 1} (omega arith)),
)

pub load_cells-store_cells :
    (capacity : ℕ) (items : List (ℕ × ℕ)) (a : ℕ) (bytes : List ℕ)
    → a < u64
    → length bytes ≤ u64
    → length items + length bytes ≤ capacity
    → load_cells (store_cells capacity items a 0 bytes) a 0 (length bytes) ≡ bytes
load_cells-store_cells capacity items a bytes ha hb hc =
    load_cells-rest capacity items a bytes 0 bytes ha hb hc refl
