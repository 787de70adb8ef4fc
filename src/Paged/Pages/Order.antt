-- ===== src/Paged/Pages/Order.antt =====
-- native/paged_memory.h: `visit` goes through pages by ascending address.
use native.Mathlib.Numerals.{towards_suc}
use bap.Common.{
  ℕ, zero, suc, ◌+◌, ◌*◌, ◌^◌, ◌<◌, ◌≤◌, ◌≡◌, refl, List, [], ◌∷◌, ◌++◌, ◌==◌, if◌then◌else◌,
  Option, none, some, arith, ◌∙◌, ap, inl, inr, ◌⊎◌, subst, Bool-cases, ==→eq,
}
use bap.Paged.Table.{Table, Page, fanout}
use bap.Paged.Pages.{stride, entries, visit}

-- The addresses ascend, from `low` on and below `high`.
abbrev pub IsAscending : ℕ → ℕ → List (ℕ × Page) → Type 0
IsAscending low high [] = low ≤ high
IsAscending low high ((address, page) ∷ rest) =
    (low ≤ address) × IsAscending (suc address) high rest

-- The page that stands with an address.
abbrev pub page_at : List (ℕ × Page) → ℕ → Option Page
page_at [] address = none
page_at ((a, page) ∷ rest) address = if a == address then some page else page_at rest address

pub IsAscending-le : (low high : ℕ) (xs : List (ℕ × Page)) → IsAscending low high xs → low ≤ high
IsAscending-le low high [] h = h
IsAscending-le low high ((a, p) ∷ xs) h = omega (arith, IsAscending-le (suc a) high xs h.1)

IsAscending-lower :
    (low low' high : ℕ) (xs : List (ℕ × Page))
    → low ≤ low'
    → IsAscending low' high xs
    → IsAscending low high xs
IsAscending-lower low low' high [] l h = omega arith
IsAscending-lower low low' high ((a, p) ∷ xs) l h = (omega arith, h.1)

IsAscending-append :
    (low mid high : ℕ) (xs ys : List (ℕ × Page))
    → IsAscending low mid xs
    → IsAscending mid high ys
    → IsAscending low high (xs ++ ys)
IsAscending-append low mid high [] ys h k = IsAscending-lower low mid high ys h k
IsAscending-append low mid high ((a, p) ∷ xs) ys h k =
    (h.0, IsAscending-append (suc a) mid high xs ys h.1 k)

pub page_at_outside :
    (low high : ℕ) (xs : List (ℕ × Page)) (address : ℕ)
    → IsAscending low high xs
    → (address < low) ⊎ (high ≤ address)
    → page_at xs address ≡ none
page_at_outside low high [] address h o = refl
page_at_outside low high ((a, p) ∷ xs) address h (inl o) =
    ground (arith, page_at_outside (suc a) high xs address h.1 (inl (omega arith)))
page_at_outside low high ((a, p) ∷ xs) address h (inr o) =
    ground (
      arith,
      IsAscending-le (suc a) high xs h.1,
      page_at_outside (suc a) high xs address h.1 (inr o),
    )

page_at-append_left :
    (xs ys : List (ℕ × Page)) (address : ℕ)
    → page_at ys address ≡ none
    → page_at (xs ++ ys) address ≡ page_at xs address
page_at-append_left [] ys address h = h
page_at-append_left ((a, p) ∷ xs) ys address h = ground (arith, page_at-append_left xs ys address h)

page_at-append_right :
    (xs ys : List (ℕ × Page)) (address : ℕ)
    → page_at xs address ≡ none
    → page_at (xs ++ ys) address ≡ page_at ys address
page_at-append_right [] ys address h = refl
page_at-append_right ((a, p) ∷ xs) ys address h = ground (arith, page_at-append_right xs ys address)

pow_add_eight : (k : ℕ) → 2 ^ (k + 8) ≡ 256 * 2 ^ k
pow_add_eight k = simp towards_suc (omega arith)

pow_add_five : (k : ℕ) → 2 ^ (k + 5) ≡ 32 * 2 ^ k
pow_add_five k = simp towards_suc (omega arith)

pub stride-suc : (n : ℕ) → stride (suc n) ≡ stride n * fanout
unfolding stride
stride-suc n =
    ap (λ k. 2 ^ k) {y = 12 + n * 13 + 8 + 5} (omega arith)
    ∙ pow_add_five (12 + n * 13 + 8)
    ∙ omega (arith, pow_add_eight (12 + n * 13))

step_le : (low span i j : ℕ) → suc i ≤ j → low + suc i * span ≤ low + j * span
step_le low span i j h = grind arith

module _ (low span : ℕ) (action : ℕ → List (ℕ × Page))
    (ascends : (i : ℕ) → IsAscending (low + i * span) (low + suc i * span) (action i)) where
  entries-IsAscending :
      (count i : ℕ)
      → IsAscending (low + i * span) (low + (i + count) * span) (entries action count i)
  unfolding entries
  entries-IsAscending zero i = grind arith
  entries-IsAscending (suc count) i =
      IsAscending-append (low + i * span) (low + suc i * span) _ (action i) _ (ascends i) (
        subst
          (λ k. IsAscending (low + suc i * span) (low + k * span) (entries action count (suc i)))
          {x = suc i + count} {y = i + suc count} (omega arith) (entries-IsAscending count (suc i)))

  pub page_at-entries :
      (count i j address : ℕ)
      → i ≤ j
      → j < i + count
      → low + j * span ≤ address
      → address < low + suc j * span
      → page_at (entries action count i) address ≡ page_at (action j) address
  unfolding entries
  page_at-entries zero i j address hi hj hl hh = absurd (omega arith)
  page_at-entries (suc count) i j address hi hj hl hh = elim (Bool-cases (i == j)) [
    | inl e ↦ rw (==→eq i j e) (
        page_at-append_left (action j) (entries action count (suc j)) address (
          page_at_outside (low + suc j * span) (low + (suc j + count) * span)
            (entries action count (suc j)) address (entries-IsAscending count (suc j)) (inl hh)))
    | inr e ↦
        page_at-append_right (action i) (entries action count (suc i)) address (
          page_at_outside (low + i * span) (low + suc i * span) (action i) address (ascends i)
            (inr (omega (arith, step_le low span i j (ground arith)))))
        ∙ page_at-entries count (suc i) j address (ground arith) (omega arith) hl hh
  ]

pub entry_IsAscending :
    (n : ℕ)
    → ((t : Table n) (prefix : ℕ) → IsAscending prefix (prefix + stride n) (visit n t prefix))
    → (t : Table (suc n)) (prefix i : ℕ)
    → IsAscending
        (prefix + i * stride n)
        (prefix + suc i * stride n)
        (elim (t i) [ none ↦ [] | some child ↦ visit n child (prefix + i * stride n) ])
entry_IsAscending n h t prefix i = go (t i)
  where
    go :
        (c : Option (Table n))
        → IsAscending
            (prefix + i * stride n)
            (prefix + suc i * stride n)
            (elim c [ none ↦ [] | some child ↦ visit n child (prefix + i * stride n) ])
    go none = grind arith
    go (some child) =
        subst (λ k. IsAscending (prefix + i * stride n) k (visit n child (prefix + i * stride n)))
          {x = prefix + i * stride n + stride n} {y = prefix + suc i * stride n} (grind arith)
          (h child (prefix + i * stride n))

pub visit-IsAscending :
    (n : ℕ) (t : Table n) (prefix : ℕ) → IsAscending prefix (prefix + stride n) (visit n t prefix)
unfolding visit
visit-IsAscending zero t prefix = unfold stride in omega arith
visit-IsAscending (suc n) t prefix =
    subst (λ k. IsAscending prefix k (visit (suc n) t prefix))
      {x = prefix + (0 + fanout) * stride n} {y = prefix + stride (suc n)}
      (omega (arith, stride-suc n))
      (IsAscending-lower prefix (prefix + 0 * stride n) _ _ (omega arith) (
        entries-IsAscending prefix (stride n) _ (entry_IsAscending n (visit-IsAscending n) t prefix)
          fanout 0))
