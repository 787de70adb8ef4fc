-- ===== src/Jit/Fast/Writes.antt =====
-- native/bap_jit.cpp: a store as it is compiled does what the call does.
use bap.Common.{
  ℕ, ◌*◌, ◌/◌, ◌%◌, ◌<◌, ◌≤◌, ◌≡◌, refl, ◌==◌, Bool, true, List, none, some, arith, Bool-cases,
  Option-cases, inl, inr, ◌∙◌, ap, sym, subst,
}
use bap.Common.Word.{u64}
use bap.Paged.Table.{Page}
use bap.Paged.Memory.{Memory, byte, find_congr, write_page, find-write_page}
use bap.Paged.Word.{write_bytes}
use bap.Paged.Access.{store}
use bap.Paged.Access.Store.{byte-store}
use bap.Jit.StoreLog.{note}
use bap.Jit.Access.{Cells, split, store_bytes, memory_note, store_cells}
use bap.Jit.Access.RoundTrip.{length-split}
use bap.Jit.Fast.{FastCells, PageEntry, has_instruction, write_in_page, page_for_access, fast_store}
use bap.Jit.Fast.Orders.{split-swapped}
use bap.Jit.Fast.Loads.{aligned_fits}
use bap.Jit.Fast.Coherent.{
  IsCoherent, IsEntry, IsSame, IsSame-refl, IsInHand, Finds, page_for_access-Finds, same_memory,
}
use bap.Jit.Fast.Kept.{write_page-HasPages, store-HasPages, has-IsEntry}

no_pages : {m : Memory} → none ≡ some m → ⊥
no_pages h = ground arith

module _ (base size : ℕ) (big_endian : Bool) (value : ℕ) (hb : base < u64) (hs : size ≤ 8) where
  abbrev store_of : Cells → Cells
  store_of cells = store_bytes cells base size big_endian value

  -- The call leaves each entry right.
  store_bytes-IsEntry :
      (cells : Cells) (entry : PageEntry) → IsEntry cells entry → IsEntry (store_of cells) entry
  unfolding store_bytes memory_note
  store_bytes-IsEntry cells entry (inl z) = inl z
  store_bytes-IsEntry cells entry (inr k) =
      let bytes = split size big_endian value 0 size in
      has-IsEntry cells k.m (store k.m base bytes) (store_of cells) entry k.pages
        (elim (Option-cases cells.changes) [
          | inl c ↦ ground (arith, k.pages, k.works, c)
          | inr (log, c) ↦ ground (arith, k.pages, k.works, c)
        ])
        (elim (Option-cases cells.changes) [
          | inl c ↦ ground (arith, k.pages, k.works, c)
          | inr (log, c) ↦ ground (arith, k.pages, k.works, c)
        ])
        (store-HasPages k.m base bytes) (inr k)

  abbrev note_of : Cells → Cells
  note_of cells = memory_note cells base size big_endian value

  -- The log of both is noted in the same way.
  memory_note-IsSame :
      (before after : Cells) → IsSame before after → IsSame (note_of before) (note_of after)
  unfolding memory_note
  memory_note-IsSame before after s = elim (Option-cases before.changes) [
    | inl e ↦
        let here : note_of before ≡ before = ground (arith, e) in
        let there : note_of after ≡ after = ground (arith, e, s.changes) in
        subst (λ a. IsSame (note_of before) a) (sym there)
          (subst (λ b. IsSame b after) (sym here) s)
    | inr (log, e) ↦
        let log' = note log base size big_endian value in
        let noted : Cells → Cells = λ cells. record cells { changes = some log' } in
        let here : note_of before ≡ noted before = ground (arith, e) in
        let there : note_of after ≡ noted after = ground (arith, e, s.changes) in
        subst (λ a. IsSame (note_of before) a) (sym there)
          (subst (λ b. IsSame b (noted after)) (sym here)
            (record {
              items = s.items;
              capacity = s.capacity;
              changes = refl;
              failed = s.failed;
              pages = s.pages;
            }))
  ]

  -- On cells that differ in no byte the call leaves cells that do.
  store_bytes-IsSame :
      (before after : Cells) → IsSame before after → IsSame (store_of before) (store_of after)
  unfolding store_bytes
  store_bytes-IsSame before after s =
      let bytes = split size big_endian value 0 size in
      let in_cells : Cells → Cells =
        λ cells. record cells { items = store_cells cells.capacity cells.items base 0 bytes } in
      let in_pages : Memory → Cells → Cells =
        λ m cells. record cells { pages = some (store m base bytes) } in
      elim (Bool-cases before.failed) [
        | inl k ↦
            let here : store_of before ≡ before = ground (arith, k) in
            let there : store_of after ≡ after = ground (arith, k, s.failed) in
            subst (λ a. IsSame (store_of before) a) (sym there)
              (subst (λ b. IsSame b after) (sym here) s)
        | inr k ↦ elim s.pages [
          | inl (e, e') ↦
              let here : store_of before ≡ note_of (in_cells before) = ground (arith, k, e) in
              let there : store_of after ≡ note_of (in_cells after) =
                ground (arith, k, s.failed, e') in
              subst (λ a. IsSame (store_of before) a) (sym there)
                (subst (λ b. IsSame b (note_of (in_cells after))) (sym here)
                  (memory_note-IsSame (in_cells before) (in_cells after) (record {
                    items = ground (arith, s.items, s.capacity);
                    capacity = s.capacity;
                    changes = s.changes;
                    failed = s.failed;
                    pages = s.pages;
                  })))
          | inr (m, m', e, e', h) ↦
              let here : store_of before ≡ note_of (in_pages m before) = ground (arith, k, e) in
              let there : store_of after ≡ note_of (in_pages m' after) =
                ground (arith, k, s.failed, e') in
              let count = length-split size big_endian value 0 size in
              subst (λ a. IsSame (store_of before) a) (sym there)
                (subst (λ b. IsSame b (note_of (in_pages m' after))) (sym here)
                  (memory_note-IsSame (in_pages m before) (in_pages m' after) (record {
                    items = s.items;
                    capacity = s.capacity;
                    changes = s.changes;
                    failed = s.failed;
                    pages = inr (
                      store m base bytes,
                      store m' base bytes,
                      refl,
                      refl,
                      λ x hx. ground (
                        arith,
                        byte-store m base bytes x hb hx (omega (arith, count, hs)),
                        byte-store m' base bytes x hb hx (omega (arith, count, hs)),
                        h x hx,
                      ),
                    );
                  })))
        ]
      ]

  IsSame-trans : (a b c : Cells) → IsSame a b → IsSame b c → IsSame a c
  IsSame-trans a b c s t = record {
    items = t.items ∙ s.items;
    capacity = t.capacity ∙ s.capacity;
    changes = t.changes ∙ s.changes;
    failed = t.failed ∙ s.failed;
    pages = elim s.pages [
      | inl (e, e') ↦ elim t.pages [
        | inl (k, k') ↦ inl (e, k')
        | inr (m, m', k, k', h) ↦ absurd (no_pages (sym e' ∙ k))
      ]
      | inr (m, m', e, e', h) ↦ elim t.pages [
        | inl (k, k') ↦ absurd (no_pages (sym k ∙ e'))
        | inr (n, n', k, k', g) ↦
            inr (
              m,
              n',
              e,
              k',
              λ x hx. g x hx ∙ ap (λ y. byte y x) (same_memory (sym k ∙ e')) ∙ h x hx,
            )
      ]
    ];
  }

  module _ (after : FastCells) (number : ℕ) (instruction : has_instruction size ≡ true)
      (i : IsInHand base size after number) where
    abbrev bytes_of : List ℕ
    bytes_of = split size big_endian value 0 size

    abbrev put_bytes : Page → Page
    put_bytes p = write_bytes p (base % 4096) bytes_of

    -- A write to the page in hand is the store to the memory.
    byte-write_in_page :
        (x : ℕ)
        → x < u64
        → byte (write_page i.m (number * 4096) put_bytes) x ≡ byte (store i.m base bytes_of) x
    unfolding byte write_bytes
    byte-write_in_page x hx =
        let count = length-split size big_endian value 0 size in
        let fits = aligned_fits base size instruction i.aligned in
        let stored = byte-store i.m base bytes_of x hb hx (omega (arith, count, hs)) in
        let at : number * 4096 < u64 = omega (arith, i.is_page) in
        elim (Bool-cases (x / 4096 == number * 4096 / 4096)) [
          | inl same ↦ ground (
            arith,
            same,
            count,
            fits,
            stored,
            i.is_page,
            i.there,
            find-write_page i.m (number * 4096) x put_bytes at hx,
            find_congr i.m base x hb hx,
          )
          | inr other ↦ ground (
            arith,
            other,
            count,
            fits,
            stored,
            i.is_page,
            find-write_page i.m (number * 4096) x put_bytes at hx,
          )
        ]

    abbrev written : Cells
    written = write_in_page after number (base % 4096) bytes_of

    written_is :
        written ≡ record (after.cells) { pages = some (write_page i.m (number * 4096) put_bytes) }
    written_is = ground (arith, i.pages)

    in_hand-IsSame : IsSame (store_of after.cells) (note_of written)
    unfolding store_bytes
    in_hand-IsSame =
        let called : Cells = record (after.cells) { pages = some (store i.m base bytes_of) } in
        let put : Cells = record (after.cells) {
          pages = some (write_page i.m (number * 4096) put_bytes);
        } in
        let here : store_of after.cells ≡ note_of called = ground (arith, i.pages, i.works) in
        subst (λ b. IsSame b (note_of written)) (sym here)
          (subst (λ a. IsSame (note_of called) (note_of a)) (sym written_is)
            (memory_note-IsSame called put (record {
              items = refl;
              capacity = refl;
              changes = refl;
              failed = refl;
              pages = inr (
                store i.m base bytes_of,
                write_page i.m (number * 4096) put_bytes,
                refl,
                refl,
                byte-write_in_page,
              );
            })))

    in_hand-IsEntry :
        (entry : PageEntry) → IsEntry after.cells entry → IsEntry (note_of written) entry
    unfolding memory_note
    in_hand-IsEntry entry h =
        has-IsEntry after.cells i.m (write_page i.m (number * 4096) put_bytes) (note_of written)
          entry i.pages
          (elim (Option-cases after.cells.changes) [
            | inl c ↦ ground (arith, i.pages, c)
            | inr (log, c) ↦ ground (arith, i.pages, c)
          ])
          (elim (Option-cases after.cells.changes) [
            | inl c ↦ ground (arith, i.pages, c)
            | inr (log, c) ↦ ground (arith, i.pages, c)
          ])
          (write_page-HasPages i.m (number * 4096) put_bytes (omega (arith, i.is_page))) h

  -- What a store leaves.
  abbrev pub IsStore : FastCells → FastCells → Type 0
  IsStore fast r = IsSame (store_of fast.cells) r.cells × IsCoherent r

  -- A store as it is compiled leaves what `bap_jit_memory_store_bytes` leaves, byte by byte and with the same log, in either byte order, by the
  -- page that an entry has, by one that is made or by the call. It leaves each entry with nothing or with a page that is there.
  pub fast_store_lem :
      (fast : FastCells)
      → IsCoherent fast
      → IsStore fast (fast_store fast base size big_endian value)
  unfolding fast_store
  fast_store_lem fast coherent = elim (Bool-cases (has_instruction size)) [
    | inr k ↦
        let same : fast_store fast base size big_endian value
            ≡ record fast { cells = store_of fast.cells } =
          ground (arith, k) in
        subst (IsStore fast) (sym same) (
          IsSame-refl (store_of fast.cells),
          λ n. store_bytes-IsEntry fast.cells (fast.page_entries n) (coherent n),
        )
    | inl k ↦
        let look = page_for_access fast base size true in
        let after = look.1 in
        let f : Finds base size fast look.0 look.1 =
          page_for_access-Finds fast base size hb coherent true in
        let stored = store_bytes-IsSame fast.cells after.cells f.same in
        elim (Option-cases look.0) [
          | inl e ↦
              let same : fast_store fast base size big_endian value
                  ≡ record after { cells = store_of after.cells } =
                ground (arith, k, e) in
              subst (IsStore fast) (sym same)
                (stored, λ n. store_bytes-IsEntry after.cells (after.page_entries n) (f.coherent n))
          | inr (number, e) ↦
              let i = f.in_hand number e in
              let swap = split-swapped size big_endian value k in
              let same : fast_store fast base size big_endian value ≡ record after {
                cells =
                    note_of (
                      write_in_page after number (base % 4096)
                        (split size big_endian value 0 size));
              } =
                ground (arith, k, e, swap) in
              subst (IsStore fast) (sym same) (
                IsSame-trans (store_of fast.cells) (store_of after.cells) _ stored
                    (in_hand-IsSame after number k i),
                λ n. in_hand-IsEntry after number k i (after.page_entries n) (f.coherent n),
              )
        ]
  ]
