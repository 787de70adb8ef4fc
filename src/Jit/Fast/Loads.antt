-- ===== src/Jit/Fast/Loads.antt =====
-- native/bap_jit.cpp: a load as it is compiled gives what the call gives.
use bap.Common.{
  ℕ, zero, suc, ◌+◌, ◌*◌, ◌%◌, ◌<◌, ◌≤◌, ◌≡◌, refl, Bool, true, false, some, length, arith,
  Bool-cases, Option-cases, inl, inr, ◌∙◌, ap, sym, subst,
}
use bap.Common.Word.{u64, add64}
use bap.Paged.Table.{Page}
use bap.Paged.Memory.{Memory, byte, find, find_congr}
use bap.Paged.Word.{read_bytes}
use bap.Paged.Access.{load, bytes_from}
use bap.Paged.Access.Load.{load_lem}
use bap.Jit.Object.Region.{length-bytes_from}
use bap.Jit.Access.{Cells, join, load_bytes}
use bap.Jit.Fast.{FastCells, has_instruction, swapped, page_bytes, page_for_access, fast_load}
use bap.Jit.Fast.Orders.{join-swapped, instruction-cases}
use bap.Jit.Fast.Coherent.{IsCoherent, IsSame, IsSame-refl, IsInHand, Finds, page_for_access-Finds}

bytes_from-same :
    (m m' : Memory) (address done n : ℕ)
    → ((x : ℕ) → x < u64 → byte m' x ≡ byte m x)
    → bytes_from m' address done n ≡ bytes_from m address done n
bytes_from-same m m' address done zero h = refl
bytes_from-same m m' address done (suc n) h =
    ground
      (arith, h (add64 address done) (omega arith), bytes_from-same m m' address (done + 1) n h)

load-same :
    (m m' : Memory) (address size : ℕ)
    → ((x : ℕ) → x < u64 → byte m' x ≡ byte m x)
    → load m' address size ≡ load m address size
load-same m m' address size h =
    load_lem m' address size ∙ bytes_from-same m m' address 0 size h ∙ sym (load_lem m address size)

-- Cells that differ in no byte give the same values.
load_bytes-IsSame :
    (before after : Cells) (address size : ℕ) (big_endian : Bool)
    → IsSame before after
    → load_bytes after address size big_endian ≡ load_bytes before address size big_endian
unfolding load_bytes
load_bytes-IsSame before after address size big_endian s = elim s.pages [
  | inl (e, e') ↦ ground (arith, e, e', s.items, s.failed)
  | inr (m, m', e, e', h) ↦ ground (arith, e, e', s.failed, load-same m m' address size h)
]

-- Within a page the bytes of the memory are those of the page.
read_bytes-bytes_from :
    (m : Memory) (p : Page) (base done n : ℕ)
    → base < u64
    → find m base ≡ some p
    → base % 4096 + done + n ≤ 4096
    → read_bytes p (base % 4096 + done) n ≡ bytes_from m base done n
unfolding byte
read_bytes-bytes_from m p base done zero hb h k = refl
read_bytes-bytes_from m p base done (suc n) hb h k = ground (
  arith,
  find_congr m base (add64 base done) hb (omega arith) (omega arith) ∙ h,
  ap (λ o. read_bytes p o n) {x = base % 4096 + done + 1} {y = base % 4096 + (done + 1)}
      (omega arith),
  read_bytes-bytes_from m p base (done + 1) n hb h (omega arith),
)

at_multiple :
    (base n size : ℕ)
    → size ≡ n
    → ((base % n ≡ 0) → base % 4096 + n ≤ 4096)
    → base % size ≡ 0
    → base % 4096 + size ≤ 4096
at_multiple base n size e f a = rw e (f (rw e at a))

pub aligned_fits :
    (base size : ℕ) → has_instruction size ≡ true → base % size ≡ 0 → base % 4096 + size ≤ 4096
aligned_fits base size h a = elim (instruction-cases size h) [
  | inl e ↦ omega arith
  | inr (inl e) ↦ at_multiple base 2 size e (λ k. omega arith) a
  | inr (inr (inl e)) ↦ at_multiple base 4 size e (λ k. omega arith) a
  | inr (inr (inr e)) ↦ at_multiple base 8 size e (λ k. omega arith) a
]

module _ (base size : ℕ) (hb : base < u64) (instruction : has_instruction size ≡ true) where
  -- The bytes of the page in hand are those of the memory.
  page_bytes-bytes_from :
      (after : FastCells) (number : ℕ) (i : IsInHand base size after number)
      → page_bytes after number (base % 4096) size ≡ bytes_from i.m base 0 size
  page_bytes-bytes_from after number i =
      let fits = aligned_fits base size instruction i.aligned in
      let at : find i.m (number * 4096) ≡ some i.p =
        find_congr i.m base (number * 4096) hb (omega (arith, i.is_page)) (omega (arith, i.is_page))
        ∙ i.there in
      let bytes = read_bytes-bytes_from i.m i.p base 0 size hb i.there (omega arith) in
      ground (
        arith,
        i.pages,
        at,
        bytes,
        ap (λ o. read_bytes i.p o size) {x = base % 4096} {y = base % 4096 + 0} (omega arith),
      )

  load_in_hand :
      (after : FastCells) (number : ℕ) (big_endian : Bool)
      → IsInHand base size after number
      → join size false 0 (swapped size big_endian (page_bytes after number (base % 4096) size))
        ≡ load_bytes after.cells base size big_endian
  unfolding load_bytes
  load_in_hand after number big_endian i =
      let bytes = page_bytes-bytes_from after number i in
      join-swapped size big_endian (page_bytes after number (base % 4096) size)
        (ap length bytes ∙ length-bytes_from i.m base 0 size) instruction
      ∙ ap (join size big_endian 0) (bytes ∙ sym (load_lem i.m base size))
      ∙ ground (arith, i.pages, i.works)

-- What a load gives, with what it leaves.
abbrev IsLoad : FastCells → ℕ → ℕ → Bool → ℕ × FastCells → Type 0
IsLoad fast base size big_endian r =
    (r.0 ≡ load_bytes fast.cells base size big_endian)
    × IsSame fast.cells (r.1.cells)
    × IsCoherent r.1

-- A load as it is compiled gives what `bap_jit_memory_load_bytes` gives of what the run has, in either byte order, by the page that an entry
-- has, by one that is found or by the call. It changes no byte, and leaves each entry with nothing or with a page that is there.
pub fast_load_lem :
    (fast : FastCells) (base size : ℕ) (big_endian : Bool)
    → base < u64
    → IsCoherent fast
    → ((fast_load fast base size big_endian).0 ≡ load_bytes fast.cells base size big_endian)
      × IsSame fast.cells ((fast_load fast base size big_endian).1.cells)
      × IsCoherent (fast_load fast base size big_endian).1
unfolding fast_load
fast_load_lem fast base size big_endian hb coherent = elim (Bool-cases (has_instruction size)) [
  | inr k ↦
      let same : fast_load fast base size big_endian
          ≡ (load_bytes fast.cells base size big_endian, fast) =
        ground (arith, k) in
      subst (IsLoad fast base size big_endian) (sym same) (refl, IsSame-refl fast.cells, coherent)
  | inl k ↦
      let look = page_for_access fast base size false in
      let after = look.1 in
      let f : Finds base size fast look.0 look.1 =
        page_for_access-Finds fast base size hb coherent false in
      elim (Option-cases look.0) [
        | inl e ↦
            let same : fast_load fast base size big_endian
                ≡ (load_bytes after.cells base size big_endian, after) =
              ground (arith, k, e) in
            subst (IsLoad fast base size big_endian) (sym same) (
              load_bytes-IsSame fast.cells after.cells base size big_endian f.same,
              f.same,
              f.coherent,
            )
        | inr (number, e) ↦
            let value =
              join size false 0
                (swapped size big_endian (page_bytes after number (base % 4096) size)) in
            let same : fast_load fast base size big_endian ≡ (value, after) =
              ground (arith, k, e) in
            subst (IsLoad fast base size big_endian) (sym same) (
              load_in_hand base size hb k after number big_endian (f.in_hand number e)
                  ∙ load_bytes-IsSame fast.cells after.cells base size big_endian f.same,
              f.same,
              f.coherent,
            )
      ]
]
