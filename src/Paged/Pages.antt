-- ===== src/Paged/Pages.antt =====
-- native/paged_memory.h: `visit` and `forEachPage`, the pages that there are.
pub mod Order
pub mod Visit
pub mod Bases
use bap.Common.{ℕ, zero, suc, ◌+◌, ◌*◌, ◌^◌, List, [], ◌∷◌, ◌++◌, Option, none, some}
use bap.Paged.Table.{Table, Page, page_bits, level_bits, fanout}
use bap.Paged.Memory.{Memory, levels}

-- How many addresses a table with `n` levels of nodes has: an entry of a node above it stands for as many.
unfoldable pub stride : ℕ → ℕ
stride n = 2 ^ (page_bits + n * level_bits)

-- The loop over `count` entries of a node, from `index` on.
unfoldable pub entries {ℓ} : {A : Type ℓ} → (ℕ → List A) → ℕ → ℕ → List A
entries action zero index = []
entries action (suc count) index = action index ++ entries action count (suc index)

-- `visit`: what `action` is called with, in order. The prefix has no bits where the index goes, so that its `|` is a sum.
unfoldable pub visit : (n : ℕ) → Table n → ℕ → List (ℕ × Page)
visit zero page prefix = (prefix, page) ∷ []
visit (suc n) node prefix =
    entries
      (λ index. elim (node index) [
        | none ↦ []
        | some child ↦ visit n child (prefix + index * stride n)
      ])
      fanout 0

-- `forEachPage`.
unfoldable pub pages : Memory → List (ℕ × Page)
pages m = visit levels m.root 0
