-- ===== src/Jit/Notify/Sound.antt =====
-- native/bap_jit.cpp: what a run remembers to be quiet stays so, as accesses and code sites go by.
use bap.Common.{
  ℕ, ◌-◌, ◌≡◌, leb, Bool, true, false, not, ◌&&◌, ◌||◌, Option, ◌⊎◌, inl, inr, arith, Option-cases,
  Bool-cases, subst,
}
use bap.Common.Word.{add64}
use bap.Jit.Filter.{Range, Ranges}
use bap.Jit.Notify.{
  Watch, has_error, forget_quiet, quiet_of, set_quiet, find_quiet, memory_notify, notify_observer,
  notify_access, code_site, code_notify, call_observer, call_code_observer,
}
use bap.Jit.Notify.Inline.{code_site-code_notify}
use bap.Jit.Notify.Quiet.{quiet_there, IsSound, forget_quiet-IsSound, find_quiet-quiet_there}

module _ {W E : Type 0} (filter : W → Option Ranges) (observe_code : W → ℕ → (E ⊎ ℕ) × W)
    (observe : W → Bool → ℕ → ℕ → ℕ → Option E × W) where
  notify_observer-forgets :
      (w : Watch W E) (write : Bool) (address size value : ℕ)
      → forget_quiet (notify_observer filter observe_code observe w write address size value)
        ≡ notify_observer filter observe_code observe w write address size value
  unfolding notify_observer call_code_observer call_observer
  notify_observer-forgets w write address size value = ground arith

  forgets-IsSound : (w : Watch W E) → forget_quiet w ≡ w → IsSound filter observe_code observe w
  forgets-IsSound w e =
      subst (IsSound filter observe_code observe) e
        (forget_quiet-IsSound filter observe_code observe w)

  set_quiet-IsSound :
      (w : Watch W E) (kind : Bool) (r : Range)
      → IsSound filter observe_code observe w
      → quiet_there filter observe_code observe w.world r.first r.last kind ≡ true
      → IsSound filter observe_code observe (set_quiet w kind (r.first, r.last))
  set_quiet-IsSound w true r sound q true = inr q
  set_quiet-IsSound w true r sound q false = sound false
  set_quiet-IsSound w false r sound q true = sound true
  set_quiet-IsSound w false r sound q false = inr q

  memory_notify-IsSound :
      (w : Watch W E) (write : Bool) (address size value : ℕ)
      → IsSound filter observe_code observe w
      → IsSound filter observe_code observe
          (memory_notify filter observe_code observe w write address size value)
  unfolding memory_notify
  memory_notify-IsSound w write address size value sound =
      elim (Bool-cases (not w.observer || has_error w)) [
        | inl off ↦ rw off sound
        | inr on ↦
            elim (Option-cases
              (find_quiet filter observe_code observe w.world address size write)) [
                | inl n ↦
                    rw (on, n)
                      (forgets-IsSound
                        (notify_observer filter observe_code observe w write address size value)
                        (notify_observer-forgets w write address size value))
                | inr (r, n) ↦
                    rw (on, n)
                      (set_quiet-IsSound w write r sound (
                        find_quiet-quiet_there filter observe_code observe w.world address size
                          write r n))
              ]
      ]

  pub notify_access-IsSound :
      (w : Watch W E) (write : Bool) (base size value : ℕ)
      → IsSound filter observe_code observe w
      → IsSound filter observe_code observe
          (notify_access filter observe_code observe w write base size value)
  unfolding notify_access
  notify_access-IsSound w write base size value sound =
      elim (Bool-cases (
        leb (quiet_of w write).0 base
        && leb (add64 base (size - 1)) (quiet_of w write).1
        && leb base (add64 base (size - 1)))) [
          | inl e ↦ rw e sound
          | inr e ↦ rw e (memory_notify-IsSound w write base size value sound)
        ]

  call_code_observer-forgets :
      (w : Watch W E) (pc : ℕ)
      → forget_quiet (call_code_observer filter observe_code observe w pc).1
        ≡ (call_code_observer filter observe_code observe w pc).1
  unfolding call_code_observer
  call_code_observer-forgets w pc = ground arith

  pub code_notify-IsSound :
      (w : Watch W E) (pc : ℕ)
      → IsSound filter observe_code observe w
      → IsSound filter observe_code observe (code_notify filter observe_code observe w pc).1
  unfolding code_notify
  code_notify-IsSound w pc sound = elim (Bool-cases (not w.code_observer || has_error w)) [
    | inl off ↦ rw off sound
    | inr on ↦ elim (Bool-cases (w.quiet_sites && not w.lean_ran)) [
      | inl waits ↦ rw (on, waits) sound
      | inr calls ↦
          rw (on, calls)
            (forgets-IsSound (call_code_observer filter observe_code observe w pc).1
              (call_code_observer-forgets w pc))
    ]
  ]

  code_site-IsSound :
      (w : Watch W E) (pc : ℕ)
      → IsSound filter observe_code observe w
      → IsSound filter observe_code observe (code_site filter observe_code observe w pc).1
  code_site-IsSound w pc sound =
      rw (code_site-code_notify filter observe_code observe w pc) (code_notify-IsSound w pc sound)
