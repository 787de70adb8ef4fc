-- ===== src/Jit/Notify/Compiled.antt =====
-- native/bap_jit.cpp: the accesses and the code sites of a run, as compiled code goes about them and as calls at each would.
use bap.Common.{
  ℕ, ◌-◌, ◌<◌, ◌≤◌, ◌≡◌, refl, ◌==◌, leb, if◌then◌else◌, Bool, true, false, not, ◌&&◌, Option, ◌⊎◌,
  inl, inr, arith, Option-cases, Bool-cases, List, [], ◌∷◌, ◌∙◌, ap, sym,
}
use bap.Common.Word.{u64, add64}
use bap.Jit.Filter.{Ranges}
use bap.Jit.Notify.{
  Watch, forget_quiet, quiet_of, find_quiet, memory_notify, notify_observer, notify_access,
  code_site, code_notify, call_observer, call_code_observer,
}
use bap.Jit.Notify.Sound.{notify_access-IsSound, code_notify-IsSound}
use bap.Jit.Notify.Inline.{code_site-code_notify}
use bap.Jit.Notify.Quiet.{IsSound, FiltersApart, quiet_there-find_quiet}

-- What a run tells of, in order: an access, with whether it is a store, and its address, size and value; and a code site, by its pc.
pub data Event : Type 0 where
  access : Bool → ℕ → ℕ → ℕ → Event
  site : ℕ → Event

-- The accesses are of 64 bits and of one byte to eight.
abbrev pub AreAccesses : List Event → Type 0
AreAccesses [] = Unit
AreAccesses (access write base size value ∷ events) =
    (base < u64) × (0 < size) × (size ≤ 8) × AreAccesses events
AreAccesses (site pc ∷ events) = AreAccesses events

module _ {W E : Type 0} (filter : W → Option Ranges) (observe_code : W → ℕ → (E ⊎ ℕ) × W)
    (observe : W → Bool → ℕ → ℕ → ℕ → Option E × W) where
  -- The run as it is compiled: whether a site stopped it, and what it leaves.
  unfoldable pub run_compiled : Watch W E → List Event → Bool × Watch W E
  unfolding notify_access code_site
  run_compiled w [] = (false, w)
  run_compiled w (access write base size value ∷ events) =
      run_compiled (notify_access filter observe_code observe w write base size value) events
  run_compiled w (site pc ∷ events) =
      let (stop, after) = code_site filter observe_code observe w pc in
      let rest = run_compiled after events in if stop then (true, after) else rest

  -- The same by calls, `bap_jit_memory_notify` of each access and `bap_jit_code_notify` of each site.
  unfoldable pub run_called : Watch W E → List Event → Bool × Watch W E
  unfolding memory_notify code_notify
  run_called w [] = (false, w)
  run_called w (access write base size value ∷ events) =
      run_called (memory_notify filter observe_code observe w write base size value) events
  run_called w (site pc ∷ events) =
      let (stop, after) = code_notify filter observe_code observe w pc in
      let rest = run_called after events in if not (stop == 0) then (true, after) else rest

  notify_observer-forget_quiet :
      (w : Watch W E) (write : Bool) (address size value : ℕ)
      → forget_quiet
          (notify_observer filter observe_code observe (forget_quiet w) write address size value)
        ≡ forget_quiet (notify_observer filter observe_code observe w write address size value)
  unfolding notify_observer call_code_observer call_observer
  notify_observer-forget_quiet w write address size value = ground arith

  memory_notify-forget_quiet :
      (w : Watch W E) (write : Bool) (address size value : ℕ)
      → forget_quiet
          (memory_notify filter observe_code observe (forget_quiet w) write address size value)
        ≡ forget_quiet (memory_notify filter observe_code observe w write address size value)
  unfolding memory_notify
  memory_notify-forget_quiet w write address size value =
      elim (Option-cases (find_quiet filter observe_code observe w.world address size write)) [
        | inl n ↦ ground (arith, n, notify_observer-forget_quiet w write address size value)
        | inr (r, n) ↦ ground (arith, n)
      ]

  code_notify-forget_quiet :
      (w : Watch W E) (pc : ℕ)
      → ((code_notify filter observe_code observe (forget_quiet w) pc).0
          ≡ (code_notify filter observe_code observe w pc).0)
        × (forget_quiet (code_notify filter observe_code observe (forget_quiet w) pc).1
            ≡ forget_quiet (code_notify filter observe_code observe w pc).1)
  unfolding code_notify call_code_observer
  code_notify-forget_quiet w pc = (ground arith, ground arith)

  -- Where compiled code doesn't call for an access, the call would have changed nothing but what is remembered to be quiet.
  notify_access-memory_notify :
      (w : Watch W E) (write : Bool) (base size value : ℕ)
      → FiltersApart filter observe_code observe
      → IsSound filter observe_code observe w
      → base < u64
      → 0 < size
      → size ≤ 8
      → forget_quiet (notify_access filter observe_code observe w write base size value)
        ≡ forget_quiet (memory_notify filter observe_code observe w write base size value)
  unfolding notify_access memory_notify
  notify_access-memory_notify w write base size value apart sound hb h0 h8 =
      elim (Bool-cases (
        leb (quiet_of w write).0 base
        && leb (add64 base (size - 1)) (quiet_of w write).1
        && leb base (add64 base (size - 1)))) [
          | inr e ↦ rw e refl
          | inl e ↦ elim (sound write) [
            | inl none_quiet ↦ absurd (ground arith)
            | inr q ↦
                let (r, found) =
                  quiet_there-find_quiet filter observe_code observe w.world (quiet_of w write).0
                    (quiet_of w write).1 base size write apart hb h0 (omega arith) q e in
                ground (arith, e, found)
          ]
        ]

  run_related :
      (w v : Watch W E) (events : List Event)
      → FiltersApart filter observe_code observe
      → IsSound filter observe_code observe w
      → AreAccesses events
      → forget_quiet w ≡ forget_quiet v
      → ((run_compiled w events).0 ≡ (run_called v events).0)
        × (forget_quiet (run_compiled w events).1 ≡ forget_quiet (run_called v events).1)
  unfolding run_compiled run_called
  run_related w v [] apart sound h e = (refl, e)
  run_related w v (access write base size value ∷ events) apart sound h e =
      run_related (notify_access filter observe_code observe w write base size value)
        (memory_notify filter observe_code observe v write base size value) events apart
        (notify_access-IsSound filter observe_code observe w write base size value sound) h.3
        (notify_access-memory_notify w write base size value apart sound h.0 h.1 h.2
          ∙ sym (memory_notify-forget_quiet w write base size value)
          ∙ ap
              (λ u.
                forget_quiet (memory_notify filter observe_code observe u write base size value))
              e
          ∙ memory_notify-forget_quiet v write base size value)
  run_related w v (site pc ∷ events) apart sound h e =
      let called_w = code_notify filter observe_code observe w pc in
      let called_v = code_notify filter observe_code observe v pc in
      let same_stop : called_w.0 ≡ called_v.0 =
        sym (code_notify-forget_quiet w pc).0
        ∙ ap (λ u. (code_notify filter observe_code observe u pc).0) e
        ∙ (code_notify-forget_quiet v pc).0 in
      let same_rest : forget_quiet called_w.1 ≡ forget_quiet called_v.1 =
        sym (code_notify-forget_quiet w pc).1
        ∙ ap (λ u. forget_quiet (code_notify filter observe_code observe u pc).1) e
        ∙ (code_notify-forget_quiet v pc).1 in
      let later =
        run_related called_w.1 called_v.1 events apart
          (code_notify-IsSound filter observe_code observe w pc sound) h same_rest in
      elim (Bool-cases (called_v.0 == 0)) [
        | inl z ↦ rw (code_site-code_notify filter observe_code observe w pc, same_stop, z) later
        | inr z ↦
            rw (code_site-code_notify filter observe_code observe w pc, same_stop, z)
              (refl, same_rest)
      ]

  -- A run as it is compiled stops where the same run by calls does, with the same world, error and site that waits, whatever accesses and
  -- sites it has and whatever the observers do, if what it remembers to be quiet at first is so: they differ at most in that.
  pub run_compiled-run_called :
      (w : Watch W E) (events : List Event)
      → FiltersApart filter observe_code observe
      → IsSound filter observe_code observe w
      → AreAccesses events
      → ((run_compiled w events).0 ≡ (run_called w events).0)
        × (forget_quiet (run_compiled w events).1 ≡ forget_quiet (run_called w events).1)
  run_compiled-run_called w events apart sound h = run_related w w events apart sound h refl
