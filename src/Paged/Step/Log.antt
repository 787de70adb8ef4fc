-- ===== src/Paged/Step/Log.antt =====
-- What a step knows of, as operations go on: the log of writes keeps its form and tells of every write since it began.
use bap.Common.{
  ℕ, ◌%◌, ◌<◌, ◌≡◌, refl, List, [], ◌∷◌, ◌++◌, ltb, Bool, true, false, ◌||◌, arith, ◌∙◌,
}
use bap.Common.Word.{u64}
use bap.Paged.Memory.{Memory, byte, find}
use bap.Paged.Access.{distance}
use bap.Paged.Step.{begin_step, note_step}
use bap.Paged.Step.Addresses.{covered, AreWrites}

pub covered-append :
    (ws vs : List (ℕ × ℕ)) (x : ℕ) → covered (ws ++ vs) x ≡ covered ws x || covered vs x
covered-append [] vs x = refl
covered-append ((a, n) ∷ ws) vs x = ground (arith, covered-append ws vs x)

AreWrites-append : (ws vs : List (ℕ × ℕ)) → AreWrites ws → AreWrites vs → AreWrites (ws ++ vs)
AreWrites-append [] vs h k = k
AreWrites-append ((a, n) ∷ ws) vs h k = (h.0, h.1, AreWrites-append ws vs h.2 k)

-- `x` is known to the step: it has overflowed, so that it gives no answer, or the log tells of `x`.
abbrev pub known : Memory → ℕ → Bool
known m x = m.step_overflowed || covered m.step_writes x

-- Since a state of the memory, an open step has lost no write: each byte that differs is known to it.
pub record IsTracked (start m : Memory) : Type 0 where
  pub active : m.step_open ≡ true
  pub writes : AreWrites m.step_writes
  pub tracked : (x : ℕ) → x < u64 → known m x ≡ false → byte m x ≡ byte start x

pub byte-note_step :
    (m : Memory) (address size x : ℕ) → byte (note_step m address size) x ≡ byte m x
unfolding note_step byte find
byte-note_step m address size x = ground arith

pub note_step-active :
    (m : Memory) (address size : ℕ) → (note_step m address size).step_open ≡ m.step_open
unfolding note_step
note_step-active m address size = ground arith

pub note_step-AreWrites :
    (m : Memory) (address size : ℕ)
    → address < u64
    → AreWrites m.step_writes
    → AreWrites (note_step m address size).step_writes
unfolding note_step
note_step-AreWrites m address size ha h =
    ground
      (arith, AreWrites-append m.step_writes ((address, size % 256) ∷ []) h (ha, omega arith, tt))

-- What is not known after `noteStep` was not known before, and is none of its bytes.
pub known-note_step :
    (m : Memory) (address size x : ℕ)
    → size < 256
    → m.step_open ≡ true
    → known (note_step m address size) x ≡ false
    → (known m x ≡ false) × (ltb (distance address x) size ≡ false)
unfolding note_step
known-note_step m address size x hs ho h =
    ground (arith, covered-append m.step_writes ((address, size % 256) ∷ []) x)

-- A change of some bytes at an address keeps a step from losing writes if it is noted.
pub note_step-IsTracked :
    (start m m' : Memory) (address size : ℕ)
    → address < u64
    → size < 256
    → IsTracked start m
    → m'.step_open ≡ m.step_open
    → m'.step_writes ≡ m.step_writes
    → m'.step_overflowed ≡ m.step_overflowed
    → ((x : ℕ) → x < u64 → ltb (distance address x) size ≡ false → byte m' x ≡ byte m x)
    → IsTracked start (note_step m' address size)
note_step-IsTracked start m m' address size ha hs t eo ew ev h = record {
  active = note_step-active m' address size ∙ eo ∙ t.active;
  writes = note_step-AreWrites m' address size ha (rw ew t.writes);
  tracked = λ x hx k.
      let (before, apart) = known-note_step m' address size x hs (eo ∙ t.active) k in
      byte-note_step m' address size x ∙ h x hx apart ∙ t.tracked x hx (rw (ew, ev) at before);
}

-- A step that begins has lost nothing.
pub begin_step-IsTracked : (m : Memory) → IsTracked m (begin_step m)
unfolding begin_step byte find
begin_step-IsTracked m = record { active = refl; writes = tt; tracked = λ x hx k. refl }
