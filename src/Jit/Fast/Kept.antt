-- ===== src/Jit/Fast/Kept.antt =====
-- native/bap_jit.cpp: a memory keeps its pages, so that the entries of a run stay right.
use bap.Common.{
  ℕ, zero, suc, ◌+◌, ◌*◌, ◌/◌, ◌<◌, ◌≡◌, refl, ◌==◌, if◌then◌else◌, Bool, true, false, List, [],
  ◌∷◌, some, length, take, drop, arith, Option-cases, inl, inr, ◌∙◌, ap, sym,
}
use bap.Common.Word.{u64, add64}
use bap.Paged.Table.{Page}
use bap.Paged.Memory.{Memory, find, ensure, write_page, find-ensure, find-write_page}
use bap.Paged.Word.{store_in_word, put_page, put_word, all_zero}
use bap.Paged.Access.{store, store_loop, chunk}
use bap.Jit.Access.{Cells}
use bap.Jit.Fast.{PageEntry}
use bap.Jit.Fast.Coherent.{IsEntry, same_memory}

-- A memory that has each page that another has.
unfoldable pub HasPages : Memory → Memory → Type 0
HasPages m m' =
    (b : ℕ) (p : Page) → b < u64 → find m b ≡ some p → (p' : Page) × (find m' b ≡ some p')

ensure-HasPages : (m : Memory) (a : ℕ) → a < u64 → HasPages m (ensure m a)
unfolding HasPages
ensure-HasPages m a ha b p hb h = (p, find-ensure m a b ha hb ∙ rw h refl)

pub write_page-HasPages :
    (m : Memory) (a : ℕ) (f : Page → Page) → a < u64 → HasPages m (write_page m a f)
unfolding HasPages
write_page-HasPages m a f ha b p hb h =
    (if b / 4096 == a / 4096 then f p else p, find-write_page m a b f ha hb ∙ rw h refl)

HasPages-trans : (m m' m'' : Memory) → HasPages m m' → HasPages m' m'' → HasPages m m''
unfolding HasPages
HasPages-trans m m' m'' h k b p hb e = let (p', e') = h b p hb e in k b p' hb e'

HasPages-refl : (m : Memory) → HasPages m m
unfolding HasPages
HasPages-refl m b p hb e = (p, e)

put_page-HasPages :
    (m : Memory) (a : ℕ) (zeros : Bool) (f : Page → Page)
    → a < u64
    → HasPages m (put_page m a zeros f)
unfolding put_page
put_page-HasPages m a true f ha = elim (Option-cases (find m a)) [
  | inl e ↦ rw (put_page, e) (HasPages-refl m)
  | inr (p, e) ↦ rw (put_page, e) (write_page-HasPages m a f ha)
]
put_page-HasPages m a false f ha = elim (Option-cases (find (ensure m a) a)) [
  | inl e ↦ rw (put_page, e) (ensure-HasPages m a ha)
  | inr (p, e) ↦
      rw (put_page, e)
        (HasPages-trans m (ensure m a) _ (ensure-HasPages m a ha)
          (write_page-HasPages (ensure m a) a f ha))
]

store_loop-HasPages :
    (fuel : ℕ) (m : Memory) (address done : ℕ) (bytes : List ℕ)
    → HasPages m (store_loop fuel m address done bytes)
unfolding store_loop store_in_word
store_loop-HasPages zero m address done bytes = HasPages-refl m
store_loop-HasPages (suc fuel) m address done [] = HasPages-refl m
store_loop-HasPages (suc fuel) m address done (b ∷ bytes) =
    let at = add64 address done in
    let count = chunk at (length (b ∷ bytes)) in
    let part = take count (b ∷ bytes) in
    let m' = store_in_word m at part in
    HasPages-trans m m' _ (put_page-HasPages m at (all_zero part) (put_word at part) (omega arith))
      (store_loop-HasPages fuel m' address (done + count) (drop count (b ∷ bytes)))

pub store-HasPages :
    (m : Memory) (address : ℕ) (bytes : List ℕ) → HasPages m (store m address bytes)
unfolding store
store-HasPages m address bytes = store_loop-HasPages (length bytes) m address 0 bytes

-- An entry is right of cells that have the pages of others and fail as they do.
pub has-IsEntry :
    (cells : Cells) (m m' : Memory) (changed : Cells) (entry : PageEntry)
    → cells.pages ≡ some m
    → changed.pages ≡ some m'
    → changed.failed ≡ cells.failed
    → HasPages m m'
    → IsEntry cells entry
    → IsEntry changed entry
unfolding HasPages
has-IsEntry cells m m' changed entry e e' f h (inl z) = inl z
has-IsEntry cells m m' changed entry e e' f h (inr k) =
    let there : find m (entry.page * 4096) ≡ some k.p =
      ap (λ (x : Memory). find x (entry.page * 4096)) (same_memory (sym e ∙ k.pages)) ∙ k.there in
    let (p', there') = h (entry.page * 4096) k.p (omega (arith, k.number)) there in
    inr (record {
      m = m';
      p = p';
      pages = e';
      works = f ∙ k.works;
      tag = k.tag;
      number = k.number;
      there = there';
    })
