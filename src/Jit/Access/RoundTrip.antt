-- ===== src/Jit/Access/RoundTrip.antt =====
-- What is stored is what is loaded, in either byte order.
use bap.Common.{
  ℕ, zero, suc, ◌+◌, ◌*◌, ◌%◌, ◌^◌, ◌<◌, ◌≤◌, ◌≡◌, refl, List, Bool, true, false, none, some,
  length, arith, ap, ◌∙◌, subst, Option-cases, inl, inr,
}
use bap.Common.Word.{u64}
use bap.Paged.Memory.{Memory}
use bap.Paged.Access.{load, store}
use bap.Paged.Access.Store.{load-store}
use bap.Jit.StoreLog.{byte_of}
use bap.Jit.Access.CellList.{load_cells-store_cells}
use bap.Jit.Access.{
  load_cells, store_cells, Cells, split, join, load_bytes, store_bytes, memory_note,
}

pub length-split :
    (size : ℕ) (be : Bool) (value index left : ℕ) → length (split size be value index left) ≡ left
unfolding split
length-split size be value index zero = refl
length-split size be value index (suc left) = ap suc (length-split size be value (index + 1) left)

-- The bytes of a value of at most eight bytes, put together again in the order in which they were taken apart.
join-split :
    (size : ℕ) (be : Bool) (value : ℕ)
    → size ≤ 8
    → join size be 0 (split size be value 0 size) ≡ value % 2 ^ (size * 8)
unfolding split join byte_of
join-split zero be value h = omega arith
join-split (suc zero) be value h = ground arith
join-split (suc (suc zero)) false value h = omega arith
join-split (suc (suc zero)) true value h = omega arith
join-split (suc (suc (suc zero))) false value h = omega arith
join-split (suc (suc (suc zero))) true value h = omega arith
join-split (suc (suc (suc (suc zero)))) false value h = omega arith
join-split (suc (suc (suc (suc zero)))) true value h = omega arith
join-split (suc (suc (suc (suc (suc zero))))) false value h = omega arith
join-split (suc (suc (suc (suc (suc zero))))) true value h = omega arith
join-split (suc (suc (suc (suc (suc (suc zero)))))) false value h = omega arith
join-split (suc (suc (suc (suc (suc (suc zero)))))) true value h = omega arith
join-split (suc (suc (suc (suc (suc (suc (suc zero))))))) false value h = omega arith
join-split (suc (suc (suc (suc (suc (suc (suc zero))))))) true value h = omega arith
join-split (suc (suc (suc (suc (suc (suc (suc (suc zero)))))))) false value h = omega arith
join-split (suc (suc (suc (suc (suc (suc (suc (suc zero)))))))) true value h = omega arith
join-split (suc (suc (suc (suc (suc (suc (suc (suc (suc n))))))))) be value h = absurd (omega arith)

-- A list of cells has room for a store of `size` bytes; pages always have.
abbrev pub HasRoom : Cells → ℕ → Type 0
HasRoom cells size = elim cells.pages [
  | some m ↦ Unit {0}
  | none ↦ length cells.items + size ≤ cells.capacity
]

module _ (address size : ℕ) (be : Bool) (value : ℕ) (ha : address < u64) (hs : size ≤ 8) where
  join-load :
      (m : Memory)
      → join size be 0 (load (store m address (split size be value 0 size)) address size)
        ≡ value % 2 ^ (size * 8)
  join-load m =
      ap (join size be 0) (
        subst
          (λ n.
            load (store m address (split size be value 0 size)) address n
            ≡ split size be value 0 size)
          (length-split size be value 0 size)
          (load-store m address (split size be value 0 size) ha
            (omega (arith, length-split size be value 0 size))))
      ∙ join-split size be value hs

  join-load_cells :
      (capacity : ℕ) (items : List (ℕ × ℕ))
      → length items + size ≤ capacity
      → join size be 0 (
          load_cells
            (store_cells capacity items address 0 (split size be value 0 size))
            address
            0
            size)
        ≡ value % 2 ^ (size * 8)
  join-load_cells capacity items h =
      let bytes = split size be value 0 size in
      ap (join size be 0) (
        subst (λ n. load_cells (store_cells capacity items address 0 bytes) address 0 n ≡ bytes)
          (length-split size be value 0 size)
          (load_cells-store_cells capacity items address bytes ha
            (omega (arith, length-split size be value 0 size))
            (omega (arith, length-split size be value 0 size))))
      ∙ join-split size be value hs

  -- A load of at most eight bytes after a store of as many at the same address gives the value stored, without the bits past its size, in
  -- either byte order and on pages or cells, also past the end of the address space, while there is no error.
  pub load_bytes-store_bytes :
      (cells : Cells)
      → cells.failed ≡ false
      → HasRoom cells size
      → load_bytes (store_bytes cells address size be value) address size be
        ≡ value % 2 ^ (size * 8)
  unfolding load_bytes store_bytes memory_note
  load_bytes-store_bytes cells ok room = elim (Option-cases cells.pages) [
    | inl e ↦
        let fits : length cells.items + size ≤ cells.capacity = rw e at room in
        ground (arith, e, ok, join-load_cells cells.capacity cells.items fits)
    | inr (m, e) ↦ ground (arith, e, ok, join-load m)
  ]
