-- ===== src/Jit/Notify/Inline.antt =====
-- native/bap_jit.cpp: compiled code does at a code site what `bap_jit_code_notify` does.
use bap.Common.{ℕ, ◌==◌, ◌≡◌, Bool, not, Option, ◌⊎◌, inl, inr, arith, Option-cases}
use bap.Jit.Filter.{Ranges}
use bap.Jit.Notify.{Watch, code_notify, code_site}

module _ {W E : Type 0} (filter : W → Option Ranges) (observe_code : W → ℕ → (E ⊎ ℕ) × W)
    (observe : W → Bool → ℕ → ℕ → ℕ → Option E × W) where
  -- At a code site, what is compiled stops just when `bap_jit_code_notify` says so, and leaves all that it leaves, also with an error, and
  -- where nothing observes code or the site waits, which it does itself without the call.
  pub code_site-code_notify :
      (w : Watch W E) (pc : ℕ)
      → code_site filter observe_code observe w pc ≡ (
        not ((code_notify filter observe_code observe w pc).0 == 0),
        (code_notify filter observe_code observe w pc).1,
      )
  unfolding code_site code_notify
  code_site-code_notify w pc = elim (Option-cases w.error) [
    | inl e ↦ ground (arith, e)
    | inr (x, e) ↦ ground (arith, e)
  ]
