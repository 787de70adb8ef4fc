-- ===== src/Jit/Fast/Coherent.antt =====
-- native/bap_jit.cpp: the pages that a run remembers are where it would find them.
use bap.Common.{
  ℕ, ◌+◌, ◌*◌, ◌/◌, ◌%◌, ◌^◌, ◌<◌, ◌≡◌, refl, ◌==◌, Bool, true, false, Option, none, some, arith,
  Bool-cases, Option-cases, inl, inr, ◌∙◌, ap, sym, subst, ◌⊎◌,
}
use bap.Common.Word.{u64, add64}
use bap.Paged.Table.{Page}
use bap.Paged.Memory.{Memory, byte, find, find-ensure, byte-ensure, find_congr}
use bap.Jit.Access.{Cells}
use bap.Jit.Fast.{
  PageEntry, FastCells, page_entry_count, page_for, remember_page, memory_page, page_for_access,
}

-- A page that an entry has is one of the memory, while there is no error.
pub record IsPage (cells : Cells) (entry : PageEntry) : Type 0 where
  pub m : Memory
  pub p : Page
  pub pages : cells.pages ≡ some m
  pub works : cells.failed ≡ false
  pub tag : entry.tag ≡ entry.page + 1
  pub number : entry.page < 2 ^ 52
  pub there : find m (entry.page * 4096) ≡ some p

abbrev pub IsEntry : Cells → PageEntry → Type 0
IsEntry cells entry = (entry.tag ≡ 0) ⊎ IsPage cells entry

-- Each entry holds nothing or a page.
abbrev pub IsCoherent : FastCells → Type 0
IsCoherent fast = (i : ℕ) → IsEntry fast.cells (fast.page_entries i)

-- Cells that differ in no byte.
pub record IsSame (before after : Cells) : Type 0 where
  pub items : after.items ≡ before.items
  pub capacity : after.capacity ≡ before.capacity
  pub changes : after.changes ≡ before.changes
  pub failed : after.failed ≡ before.failed
  pub pages :
      ((before.pages ≡ none) × (after.pages ≡ none))
      ⊎ ((m : Memory) × (m' : Memory) × (before.pages ≡ some m)
          × (after.pages ≡ some m')
          × ((x : ℕ) → x < u64 → byte m' x ≡ byte m x))

pub IsSame-refl : (cells : Cells) → IsSame cells cells
IsSame-refl cells = record {
  items = refl;
  capacity = refl;
  changes = refl;
  failed = refl;
  pages = elim (Option-cases cells.pages) [
    | inl e ↦ inl (e, e)
    | inr (m, e) ↦ inr (m, m, e, e, λ x hx. refl)
  ];
}

-- The page of an address in hand.
pub record IsInHand (base size : ℕ) (after : FastCells) (number : ℕ) : Type 0 where
  pub m : Memory
  pub p : Page
  pub is_page : number ≡ base / 4096
  pub pages : after.cells.pages ≡ some m
  pub works : after.cells.failed ≡ false
  pub there : find m base ≡ some p
  pub aligned : base % size ≡ 0

-- What becomes of the pages of a run, and of the one in hand, if one is.
pub record Finds (base size : ℕ) (fast : FastCells) (page : Option ℕ) (after : FastCells)
    : Type 0 where
  pub coherent : IsCoherent after
  pub same : IsSame fast.cells after.cells
  pub in_hand : (number : ℕ) → page ≡ some number → IsInHand base size after number

pub same_memory : {a b : Memory} → some a ≡ some b → a ≡ b
same_memory {a} {b} h = ap (λ (o : Option Memory). elim o [ none ↦ a | some x ↦ x ]) h

find-page_for :
    (m : Memory) (address : ℕ) (write : Bool) (b : ℕ) (p : Page)
    → address < u64
    → b < u64
    → find m b ≡ some p
    → find (page_for m address write) b ≡ some p
find-page_for m address true b p ha hb h = find-ensure m address b ha hb ∙ rw h refl
find-page_for m address false b p ha hb h = h

byte-page_for :
    (m : Memory) (address : ℕ) (write : Bool) (x : ℕ)
    → address < u64
    → x < u64
    → byte (page_for m address write) x ≡ byte m x
byte-page_for m address true x ha hx = byte-ensure m address x ha hx
byte-page_for m address false x ha hx = refl

-- An entry is right after the memory has a page more.
page_for-IsEntry :
    (cells : Cells) (m : Memory) (address : ℕ) (write : Bool) (entry : PageEntry)
    → address < u64
    → cells.pages ≡ some m
    → IsEntry cells entry
    → IsEntry (record cells { pages = some (page_for m address write) }) entry
page_for-IsEntry cells m address write entry ha h (inl e) = inl e
page_for-IsEntry cells m address write entry ha h (inr k) =
    let same : find m (entry.page * 4096) ≡ some k.p =
      ap (λ (x : Memory). find x (entry.page * 4096)) (same_memory (sym h ∙ k.pages)) ∙ k.there in
    inr (record {
      m = page_for m address write;
      p = k.p;
      pages = refl;
      works = k.works;
      tag = k.tag;
      number = k.number;
      there =
          find-page_for m address write (entry.page * 4096) k.p ha (omega (arith, k.number)) same;
    })

same_number : {a b : ℕ} → some a ≡ some b → a ≡ b
same_number {a} {b} h = ap (λ (o : Option ℕ). elim o [ none ↦ a | some x ↦ x ]) h

no_tag : (tag base : ℕ) → base < u64 → tag ≡ 0 → tag == add64 (base / 4096) 1 ≡ true → ⊥
no_tag tag base h z t = ground arith

some_page : {a : ℕ} → none ≡ some a → ⊥
some_page h = ground arith

module _ (fast : FastCells) (base size : ℕ) (hb : base < u64) (coherent : IsCoherent fast) where
  page_for-IsSame :
      (m : Memory) (write : Bool)
      → fast.cells.pages ≡ some m
      → IsSame fast.cells (record (fast.cells) { pages = some (page_for m base write) })
  page_for-IsSame m write e = record {
    items = refl;
    capacity = refl;
    changes = refl;
    failed = refl;
    pages = inr (m, page_for m base write, e, refl, λ x hx. byte-page_for m base write x hb hx);
  }

  -- The page that is looked for is in hand and remembered.
  remember_page-Finds :
      (m : Memory) (write : Bool) (p : Page)
      → fast.cells.pages ≡ some m
      → fast.cells.failed ≡ false
      → base % size ≡ 0
      → find (page_for m base write) base ≡ some p
      → Finds base size fast
          (some (base / 4096))
          (remember_page fast (page_for m base write) (base / 4096))
  remember_page-Finds m write p e works aligned found = record {
    coherent = λ i. elim (Bool-cases (i == base / 4096 % page_entry_count)) [
      | inl k ↦ rw k (
          inr (record {
            m = page_for m base write;
            p = p;
            pages = refl;
            works = works;
            tag = refl;
            number = omega arith;
            there =
                find_congr (page_for m base write) base (base / 4096 * 4096) hb (omega arith)
                  (omega arith)
                ∙ found;
          }))
      | inr k ↦
          rw k (page_for-IsEntry fast.cells m base write (fast.page_entries i) hb e (coherent i))
    ];
    same = page_for-IsSame m write e;
    in_hand = λ number k. record {
      m = page_for m base write;
      p = p;
      is_page = sym (same_number k);
      pages = refl;
      works = works;
      there = found;
      aligned = aligned;
    };
  }

  nothing-Finds :
      (after : FastCells)
      → IsCoherent after
      → IsSame fast.cells after.cells
      → Finds base size fast none after
  nothing-Finds after c s = record {
    coherent = c;
    same = s;
    in_hand = λ number k. absurd (some_page k);
  }

  -- What a look at a page gives, and how that is found.
  abbrev pub FindsAs : Option ℕ × FastCells → Type 0
  FindsAs r = Finds base size fast r.0 r.1

  memory_page-Finds : (write : Bool) → base % size ≡ 0 → FindsAs (memory_page fast base write)
  unfolding memory_page
  memory_page-Finds write aligned = elim (Option-cases fast.cells.pages) [
    | inl e ↦
        let same : memory_page fast base write ≡ (none, fast) = ground (arith, e) in
        subst FindsAs (sym same) (nothing-Finds fast coherent (IsSame-refl fast.cells))
    | inr (m, e) ↦ elim (Bool-cases fast.cells.failed) [
      | inl k ↦
          let same : memory_page fast base write ≡ (none, fast) = ground (arith, e, k) in
          subst FindsAs (sym same) (nothing-Finds fast coherent (IsSame-refl fast.cells))
      | inr k ↦
          let made = page_for m base write in
          elim (Option-cases (find made base)) [
            | inl l ↦
                let after : FastCells = record fast {
                  cells = record (fast.cells) { pages = some made };
                } in
                let same : memory_page fast base write ≡ (none, after) = ground (arith, e, k, l) in
                subst FindsAs (sym same) (
                  nothing-Finds after
                    (λ i.
                      page_for-IsEntry fast.cells m base write (fast.page_entries i) hb e
                        (coherent i))
                    (page_for-IsSame m write e))
            | inr (p, l) ↦
                let same : memory_page fast base write
                    ≡ (some (base / 4096), remember_page fast made (base / 4096)) =
                  ground (arith, e, k, l) in
                subst FindsAs (sym same) (remember_page-Finds m write p e k aligned l)
          ]
    ]
  ]

  -- An entry with the tag of a page has it.
  entry-IsInHand :
      (entry : PageEntry)
      → IsEntry fast.cells entry
      → entry.tag == add64 (base / 4096) 1 ≡ true
      → base % size ≡ 0
      → IsInHand base size fast entry.page
  entry-IsInHand entry (inl z) t aligned = absurd (no_tag entry.tag base hb z t)
  entry-IsInHand entry (inr k) t aligned =
      let number : entry.page ≡ base / 4096 = ground (arith, k.tag, k.number) in
      record {
        m = k.m;
        p = k.p;
        is_page = number;
        pages = k.pages;
        works = k.works;
        there =
            find_congr k.m (entry.page * 4096) base (omega (arith, k.number)) hb
              (omega (arith, number))
            ∙ k.there;
        aligned = aligned;
      }

  pub page_for_access-Finds : (write : Bool) → FindsAs (page_for_access fast base size write)
  unfolding page_for_access
  page_for_access-Finds write =
      let entry = fast.page_entries (base / 4096 % page_entry_count) in
      elim (Bool-cases (base % size == 0)) [
        | inr k ↦
            let same : page_for_access fast base size write ≡ (none, fast) = ground (arith, k) in
            subst FindsAs (sym same) (nothing-Finds fast coherent (IsSame-refl fast.cells))
        | inl k ↦
            let aligned : base % size ≡ 0 = ground arith in
            elim (Bool-cases (entry.tag == add64 (base / 4096) 1)) [
              | inl t ↦
                  let same : page_for_access fast base size write ≡ (some entry.page, fast) =
                    ground (arith, k, t) in
                  subst FindsAs (sym same) (record {
                    coherent = coherent;
                    same = IsSame-refl fast.cells;
                    in_hand = λ number n. subst (IsInHand base size fast) (same_number n) (
                        entry-IsInHand entry (coherent (base / 4096 % page_entry_count)) t aligned);
                  })
              | inr t ↦
                  let same : page_for_access fast base size write ≡ memory_page fast base write =
                    ground (arith, k, t) in
                  subst FindsAs (sym same) (memory_page-Finds write aligned)
            ]
      ]
