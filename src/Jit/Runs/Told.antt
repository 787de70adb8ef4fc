-- ===== src/Jit/Runs/Told.antt =====
-- native/paged_memory.h, native/bap_jit.cpp: what `writeAll`, `zeroRange` and a run tell a step of is what they write.
use bap.Common.{
  ℕ, zero, suc, ◌+◌, ◌-◌, ◌%◌, ◌<◌, ◌≤◌, ◌≡◌, leb, ltb, true, ◌||◌, ◌&&◌, List, [], ◌∷◌, length,
  take, drop, arith, Bool-cases, Option-cases, inl, inr, if◌then◌else◌, min,
}
use bap.Common.Word.{u64}
use bap.Paged.Memory.{Memory, find, page_number}
use bap.Paged.Table.{Page, page_base, page_size, word_size}
use bap.Paged.Word.{word_offset, store_in_word}
use bap.Paged.Access.{distance}
use bap.Paged.Step.{note_step}
use bap.Paged.Step.Addresses.{covered}
use bap.Paged.Step.Log.{covered-append}
use bap.Paged.Pages.{pages}
use bap.Paged.WriteAll.{run_length, values, write_loop, write_all}
use bap.Paged.WriteAll.Pairs.{
  AreAddresses, AreAddresses-drop, store_in_word-step, run_length_bounds,
}
use bap.Paged.ZeroRange.{
  zeros, word_end, zero_word, zero_words, zero_in_page, page_words, zero_by_page, zero_pages,
  zero_range,
}
use bap.Jit.Runs.{note_changes}
use bap.Jit.Runs.Changes.{is_changed}

-- Nothing but what is noted is in the log after it.
covered-note_step :
    (m : Memory) (address size x : ℕ)
    → covered (note_step m address size).step_writes x ≡ true
    → covered m.step_writes x || ltb (distance address x) size ≡ true
unfolding note_step
covered-note_step m address size x h =
    ground (arith, covered-append m.step_writes ((address, size % 256) ∷ []) x)

covered-store :
    (m : Memory) (at size x : ℕ) (bytes : List ℕ)
    → covered (note_step (store_in_word m at bytes) at size).step_writes x ≡ true
    → covered m.step_writes x || ltb (distance at x) size ≡ true
covered-store m at size x bytes h =
    rw (← (store_in_word-step m at bytes).1)
      (covered-note_step (store_in_word m at bytes) at size x h)

is_changed-drop :
    (n : ℕ) (pairs : List (ℕ × ℕ)) (x : ℕ)
    → is_changed (drop n pairs) x ≡ true
    → is_changed pairs x ≡ true
unfolding is_changed
is_changed-drop zero pairs x h = h
is_changed-drop (suc n) [] x h = h
is_changed-drop (suc n) ((a, v) ∷ pairs) x h = ground (arith, is_changed-drop n pairs x h)

-- The addresses of a run are those of its pairs.
is_changed-run_length :
    (room at run : ℕ) (rest : List (ℕ × ℕ)) (x : ℕ)
    → run ≤ room
    → at + room ≤ u64
    → at + run ≤ x
    → x < at + run_length room at run rest
    → is_changed rest x ≡ true
unfolding run_length is_changed
is_changed-run_length room at run [] x h hr lo hi = absurd (omega arith)
is_changed-run_length room at run ((a, v) ∷ rest) x h hr lo hi =
    ground (arith, is_changed-run_length room at (suc run) rest x)

covered-write_loop :
    (fuel : ℕ) (m : Memory) (pairs : List (ℕ × ℕ)) (x : ℕ)
    → x < u64
    → AreAddresses pairs
    → covered (write_loop fuel m pairs).step_writes x ≡ true
    → covered m.step_writes x || is_changed pairs x ≡ true
unfolding write_loop is_changed
covered-write_loop zero m pairs x hx ha h = ground (arith, h)
covered-write_loop (suc fuel) m [] x hx ha h = ground (arith, h)
covered-write_loop (suc fuel) m ((at, value) ∷ rest) x hx ha h =
    let room = word_size - word_offset at in
    let run = run_length room at 1 rest in
    let bytes = take run (value ∷ values rest) in
    let pairs = (at, value) ∷ rest in
    let m' = note_step (store_in_word m at bytes) at run in
    let later =
      covered-write_loop fuel m' (drop run pairs) x hx (AreAddresses-drop run pairs ha) h in
    elim (Bool-cases (is_changed (drop run pairs) x)) [
      | inl e ↦ ground (arith, is_changed-drop run pairs x e)
      | inr e ↦
          let now = covered-store m at run x bytes (ground (arith, later, e)) in
          ground
            (arith, now, run_length_bounds room at 1 rest, is_changed-run_length room at 1 rest x)
    ]

pub covered-write_all :
    (m : Memory) (pairs : List (ℕ × ℕ)) (x : ℕ)
    → x < u64
    → AreAddresses pairs
    → covered (write_all m pairs).step_writes x ≡ true
    → covered m.step_writes x || is_changed pairs x ≡ true
unfolding write_all
covered-write_all m pairs x hx ha h = covered-write_loop (length pairs) m pairs x hx ha h

pub covered-note_changes :
    (m : Memory) (changes : List (ℕ × ℕ)) (x : ℕ)
    → x < u64
    → AreAddresses changes
    → covered (note_changes m changes).step_writes x ≡ true
    → covered m.step_writes x || is_changed changes x ≡ true
unfolding note_changes is_changed
covered-note_changes m [] x hx ha h = ground (arith, h)
covered-note_changes m ((a, v) ∷ changes) x hx ha h = ground (
  arith,
  covered-note_changes (note_step m a 1) changes x hx (ha.1) h,
  covered-note_step m a 1 x,
  ha.0,
)

covered-zero_word :
    (m : Memory) (at count x : ℕ)
    → at + count ≤ u64
    → x < u64
    → covered (zero_word m at count).step_writes x ≡ true
    → covered m.step_writes x || (leb at x && ltb x (at + count)) ≡ true
unfolding zero_word
covered-zero_word m at count x ha hx h = ground (arith, h, covered-store m at count x (zeros count))

module _ (upper : ℕ) (hu : upper < u64) where
  covered-zero_words :
      (fuel : ℕ) (m : Memory) (at x : ℕ)
      → x < u64
      → at ≤ upper
      → covered (zero_words fuel m at upper).step_writes x ≡ true
      → covered m.step_writes x || (leb at x && leb x upper) ≡ true
  unfolding zero_words
  covered-zero_words zero m at x hx hl h = ground (arith, h)
  covered-zero_words (suc fuel) m at x hx hl h =
      let end = min (word_end at) upper in
      ground (
        arith,
        covered-zero_word m at (end - at + 1) x,
        covered-zero_words fuel (zero_word m at (end - at + 1)) (end + 1) x hx,
      )

module _ (first last : ℕ) (hl : last < u64) (h : first ≤ last) where
  covered-zero_in_page :
      (m : Memory) (base x : ℕ)
      → x < u64
      → covered (zero_in_page first last m base).step_writes x ≡ true
      → covered m.step_writes x || (leb first x && leb x last) ≡ true
  unfolding zero_in_page
  covered-zero_in_page m base x hx k =
      let lower = if ltb base first then first else base in
      let upper = if ltb last (base + (page_size - 1)) then last else base + (page_size - 1) in
      ground (arith, k, covered-zero_words upper (ground arith) page_words m lower x hx)

  covered-zero_by_page :
      (fuel : ℕ) (m : Memory) (base x : ℕ)
      → x < u64
      → covered (zero_by_page fuel first last m base).step_writes x ≡ true
      → covered m.step_writes x || (leb first x && leb x last) ≡ true
  unfolding zero_by_page
  covered-zero_by_page zero m base x hx k = ground (arith, k)
  covered-zero_by_page (suc fuel) m base x hx k = elim (Option-cases (find m base)) [
    | inl e ↦ ground (arith, e, k, covered-zero_by_page fuel m (base + page_size) x hx)
    | inr (p, e) ↦ ground (
      arith,
      e,
      k,
      covered-zero_in_page m base x hx,
      covered-zero_by_page fuel (zero_in_page first last m base) (base + page_size) x hx,
    )
  ]

  covered-zero_pages :
      (m : Memory) (xs : List (ℕ × Page)) (x : ℕ)
      → x < u64
      → covered (zero_pages first last m xs).step_writes x ≡ true
      → covered m.step_writes x || (leb first x && leb x last) ≡ true
  unfolding zero_pages
  covered-zero_pages m [] x hx k = ground (arith, k)
  covered-zero_pages m ((base, p) ∷ xs) x hx k = ground (
    arith,
    covered-zero_pages (zero_in_page first last m base) xs x hx k,
    covered-zero_in_page m base x hx,
  )

pub covered-zero_range :
    (m : Memory) (first last x : ℕ)
    → last < u64
    → x < u64
    → covered (zero_range m first last).step_writes x ≡ true
    → covered m.step_writes x || (leb first x && leb x last) ≡ true
unfolding zero_range
covered-zero_range m first last x hl hx k = elim (Bool-cases (ltb last first)) [
  | inl e ↦ ground (arith, k, e)
  | inr e ↦
      let fuel = page_number last - page_number first + 1 in
      ground (
        arith,
        k,
        e,
        covered-zero_by_page first last hl (ground arith) fuel m (page_base first) x hx,
        covered-zero_pages first last hl (ground arith) m (pages m) x hx,
      )
]
