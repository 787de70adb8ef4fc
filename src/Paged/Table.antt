-- ===== src/Paged/Table.antt =====
-- native/paged_memory.h: the table of pages that `find` and `ensure` go through.
use bap.Common.{
  ◌-◌, ℕ, zero, suc, ◌+◌, ◌*◌, ◌/◌, ◌%◌, ◌^◌, ◌≡◌, refl, Bool, true, ◌&&◌, Option, none, some,
  arith, ◌==◌, if◌then◌else◌, Option-cases, inl, inr,
}

abbrev pub page_bits : ℕ
page_bits = 12

abbrev pub page_size : ℕ
page_size = 2 ^ 12

abbrev pub word_size : ℕ
word_size = 8

abbrev pub level_bits : ℕ
level_bits = 13

abbrev pub fanout : ℕ
fanout = 2 ^ 13

-- `address & ~(pageSize - 1)`, where the page of an address starts.
abbrev pub page_base : ℕ → ℕ
page_base address = address - address % page_size

-- The bytes of a page, by their offsets below `page_size`.
abbrev pub Page : Type 0
Page = ℕ → ℕ

-- A table with `n` levels of nodes above its pages: each entry of a node is null or what is below.
abbrev pub Table : ℕ → Type 0
Table zero = Page
Table (suc n) = ℕ → Option (Table n)

abbrev pub update {ℓ} : {A : Type ℓ} → (ℕ → A) → ℕ → A → ℕ → A
update f i v j = if j == i then v else f j

-- `indexAt`, by the levels that are below the node instead of those above it.
unfoldable pub index_at : ℕ → ℕ → ℕ
index_at address below = address / 2 ^ (page_bits + below * level_bits) % fanout

unfoldable pub find : (n : ℕ) → Table n → ℕ → Option Page
find zero p address = some p
find (suc n) t address = elim (t (index_at address n)) [
  | none ↦ none
  | some child ↦ find n child address
]

-- A page from `newPage` and the entries of a `Node` as they are made.
abbrev pub zero_page : Page
zero_page offset = 0

-- `ensure`, which leaves a page of `address` in the table: what is there, or new nodes and a page of zeros.
fresh : (n : ℕ) → ℕ → Table n
fresh zero address = zero_page
fresh (suc n) address = update (λ _. none) (index_at address n) (some (fresh n address))

unfoldable pub ensure : (n : ℕ) → Table n → ℕ → Table n
unfolding fresh
ensure zero p address = p
ensure (suc n) t address = elim (t (index_at address n)) [
  | none ↦ update t (index_at address n) (some (fresh n address))
  | some child ↦ update t (index_at address n) (some (ensure n child address))
]

-- A write through the pointer that `find` or `ensure` gave: the page of `address`, if there is one, becomes `f` of it.
unfoldable pub write_page : (n : ℕ) → Table n → ℕ → (Page → Page) → Table n
write_page zero p address f = f p
write_page (suc n) t address f = elim (t (index_at address n)) [
  | none ↦ t
  | some child ↦ update t (index_at address n) (some (write_page n child address f))
]

-- Whether two addresses go through the same entries below a node with `n` levels.
abbrev pub same_path : ℕ → ℕ → ℕ → Bool
same_path zero a b = true
same_path (suc n) a b = index_at b n == index_at a n && same_path n a b

find-fresh : (n a b : ℕ) → find n (fresh n a) b ≡ (if same_path n a b then some zero_page else none)
unfolding find fresh
find-fresh zero a b = refl
find-fresh (suc n) a b = ground (arith, find-fresh n a b)

-- `ensure` keeps the pages that there are, and makes at most that of its address.
pub find-ensure :
    (n : ℕ) (t : Table n) (a b : ℕ)
    → find n (ensure n t a) b ≡ elim (find n t b) [
      | some p ↦ some p
      | none ↦ if same_path n a b then some zero_page else none
    ]
unfolding find ensure
find-ensure zero t a b = refl
find-ensure (suc n) t a b = elim (Option-cases (t (index_at a n))) [
  | inl e ↦ ground (arith, e, find-fresh n a b)
  | inr (c, e) ↦ ground (arith, e, find-ensure n c a b)
]

pub find-write_page :
    (n : ℕ) (t : Table n) (a b : ℕ) (f : Page → Page)
    → find n (write_page n t a f) b
      ≡ elim (find n t b) [ some p ↦ some (if same_path n a b then f p else p) | none ↦ none ]
unfolding find write_page
find-write_page zero t a b f = refl
find-write_page (suc n) t a b f = elim (Option-cases (t (index_at a n))) [
  | inl e ↦ ground (arith, e)
  | inr (c, e) ↦ ground (arith, e, find-write_page n c a b f)
]

-- Two addresses that go through the same entries find the same page.
pub find_congr : (n : ℕ) (t : Table n) (a b : ℕ) → same_path n a b ≡ true → find n t b ≡ find n t a
unfolding find
find_congr zero t a b h = refl
find_congr (suc n) t a b h = elim (Option-cases (t (index_at a n))) [
  | inl e ↦ ground (arith, e)
  | inr (c, e) ↦ ground (arith, e, find_congr n c a b)
]
