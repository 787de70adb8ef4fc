-- ===== src/Paged/Pages/Bases.antt =====
-- native/paged_memory.h: `forEachPage` calls with addresses where pages start.
use bap.Common.{
  ℕ, zero, suc, ◌+◌, ◌*◌, ◌%◌, ◌≡◌, refl, List, [], ◌∷◌, ◌++◌, Option, none, some, arith,
}
use bap.Paged.Table.{Table, Page, page_size, fanout}
use bap.Paged.Memory.{Memory, levels}
use bap.Paged.Pages.{stride, entries, visit, pages}
use bap.Paged.Pages.Order.{stride-suc}

-- Every address is one where a page starts.
abbrev pub AreBases : List (ℕ × Page) → Type 0
AreBases [] = Unit
AreBases ((base, page) ∷ rest) = (base % page_size ≡ 0) × AreBases rest

AreBases-append : (xs ys : List (ℕ × Page)) → AreBases xs → AreBases ys → AreBases (xs ++ ys)
AreBases-append [] ys h k = k
AreBases-append ((a, p) ∷ xs) ys h k = (h.0, AreBases-append xs ys h.1 k)

entries-AreBases :
    (action : ℕ → List (ℕ × Page)) (count i : ℕ)
    → ((j : ℕ) → AreBases (action j))
    → AreBases (entries action count i)
unfolding entries
entries-AreBases action zero i h = tt
entries-AreBases action (suc count) i h =
    AreBases-append (action i) _ (h i) (entries-AreBases action count (suc i) h)

stride_aligned : (n : ℕ) → stride n % page_size ≡ 0
stride_aligned zero = unfold stride in refl
stride_aligned (suc n) = omega (arith, stride-suc n, stride_aligned n)

multiple_aligned : (i s p : ℕ) → s % page_size ≡ 0 → p % page_size ≡ 0 → (p + i * s) % page_size ≡ 0
multiple_aligned zero s p hs hp = omega arith
multiple_aligned (suc i) s p hs hp = omega (arith, multiple_aligned i s p hs hp)

visit-AreBases :
    (n : ℕ) (t : Table n) (prefix : ℕ) → prefix % page_size ≡ 0 → AreBases (visit n t prefix)
unfolding visit
visit-AreBases zero t prefix h = (h, tt)
visit-AreBases (suc n) t prefix h =
    entries-AreBases _ fanout 0 (λ j. go (λ child base k. visit-AreBases n child base k) j (t j))
  where
    go :
        ((child : Table n) (base : ℕ) → base % page_size ≡ 0 → AreBases (visit n child base))
        → (j : ℕ) (c : Option (Table n))
        → AreBases (elim c [ none ↦ [] | some child ↦ visit n child (prefix + j * stride n) ])
    go below j none = tt
    go below j (some child) =
        below child (prefix + j * stride n)
          (multiple_aligned j (stride n) prefix (stride_aligned n) h)

pub pages-AreBases : (m : Memory) → AreBases (pages m)
unfolding pages
pages-AreBases m = visit-AreBases levels m.root 0 refl
