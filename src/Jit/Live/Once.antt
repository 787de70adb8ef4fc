-- ===== src/Jit/Live/Once.antt =====
-- native/bap_jit.cpp: `bap_jit_live_changes` tells of a value once.
use bap.Common.{
  ℕ, ◌+◌, ◌≡◌, refl, ◌==◌, if◌then◌else◌, Bool, true, false, not, ◌&&◌, ◌||◌, List, [], ◌∷◌, some,
  get_or, arith, Bool-cases, inl, inr, ◌∙◌,
}
use bap.Jit.Live.{
  SiteReport, SiteCells, is_absent, said, say, report_outputs, fresh_report, live_changes,
}

-- Of the outputs, each that there is has been said.
unfoldable pub all_said : List ℕ → SiteReport → List (ℕ × ℕ) → Bool
all_said slots report [] = true
all_said slots report ((slot, flag) ∷ outputs) =
    (is_absent slots slot flag || said slots report slot) && all_said slots report outputs

both_true : (a b : Bool) → a ≡ true → b ≡ true → a && b ≡ true
both_true a b p q = ground arith

or_left : (a b : Bool) → a ≡ true → a || b ≡ true
or_left a b p = ground arith

or_right : (a b : Bool) → b ≡ true → a || b ≡ true
or_right true b p = refl
or_right false b p = p

module _ (slots : List ℕ) where
  said-report_outputs :
      (report : SiteReport) (index : ℕ) (outputs : List (ℕ × ℕ)) (s : ℕ)
      → said slots report s ≡ true
      → said slots (report_outputs slots report index outputs).1 s ≡ true
  unfolding report_outputs
  said-report_outputs report index [] s h = h
  said-report_outputs report index ((slot, flag) ∷ outputs) s h =
      elim (Bool-cases (is_absent slots slot flag || said slots report slot)) [
        | inl e ↦ rw e (said-report_outputs report (index + 1) outputs s h)
        | inr e ↦ rw e (
            said-report_outputs (say report slot (get_or slots slot 0)) (index + 1) outputs s
              (ground arith))
      ]

  -- What the report of an output leaves for the rest of them.
  abbrev next_report : SiteReport → ℕ → ℕ → SiteReport
  next_report report slot flag =
      if is_absent slots slot flag || said slots report slot
      then report
      else say report slot (get_or slots slot 0)

  said-next_report :
      (report : SiteReport) (slot flag : ℕ)
      → is_absent slots slot flag ≡ false
      → said slots (next_report report slot flag) slot ≡ true
  said-next_report report slot flag a = elim (Bool-cases (said slots report slot)) [
    | inl e ↦ rw (a, e) e
    | inr e ↦ rw (a, e) (ground arith)
  ]

  all_said-report_outputs :
      (report : SiteReport) (index : ℕ) (outputs : List (ℕ × ℕ))
      → all_said slots (report_outputs slots report index outputs).1 outputs ≡ true
  unfolding all_said report_outputs
  all_said-report_outputs report index [] = refl
  all_said-report_outputs report index ((slot, flag) ∷ outputs) =
      let next = next_report report slot flag in
      let rest = all_said-report_outputs next (index + 1) outputs in
      elim (Bool-cases (is_absent slots slot flag)) [
        | inl a ↦ both_true _ _ (or_left _ _ a) rest
        | inr a ↦
            both_true _ _
              (or_right _ _ (
                said-report_outputs next (index + 1) outputs slot
                  (said-next_report report slot flag a)))
              rest
      ]

  report_outputs-all_said :
      (report : SiteReport) (index : ℕ) (outputs : List (ℕ × ℕ))
      → all_said slots report outputs ≡ true
      → report_outputs slots report index outputs ≡ ([], report)
  unfolding report_outputs all_said
  report_outputs-all_said report index [] h = refl
  report_outputs-all_said report index ((slot, flag) ∷ outputs) h =
      ground (arith, report_outputs-all_said report (index + 1) outputs)

  -- Asked again for the same outputs while the slots are as they were, nothing is left to tell of, and what was said stays.
  pub report_outputs-report_outputs :
      (report : SiteReport) (outputs : List (ℕ × ℕ))
      → report_outputs slots (report_outputs slots report 0 outputs).1 0 outputs
        ≡ ([], (report_outputs slots report 0 outputs).1)
  report_outputs-report_outputs report outputs =
      report_outputs-all_said (report_outputs slots report 0 outputs).1 0 outputs
        (all_said-report_outputs report 0 outputs)

  serial-report_outputs :
      (report : SiteReport) (index : ℕ) (outputs : List (ℕ × ℕ))
      → (report_outputs slots report index outputs).1.serial ≡ report.serial
  unfolding report_outputs
  serial-report_outputs report index [] = refl
  serial-report_outputs report index ((slot, flag) ∷ outputs) =
      serial-report_outputs (next_report report slot flag) (index + 1) outputs ∙ ground arith

  -- Where `bap_jit_live_changes` says anything, it says nothing more when it is asked again, for the same outputs and without a reset while the
  -- slots are as they were, and leaves what it knows as it is.
  pub live_changes-live_changes :
      (cells : SiteCells) (report : SiteReport) (outputs : List (ℕ × ℕ)) (pc : ℕ) (reset : Bool)
      → cells.slots ≡ some slots
      → cells.slots_live || cells.flushed_pc == pc ≡ true
      → live_changes
          (some cells)
          (live_changes (some cells) report outputs pc reset).1
          outputs
          pc
          false
        ≡ (some [], (live_changes (some cells) report outputs pc reset).1)
  unfolding live_changes
  live_changes-live_changes cells report outputs pc reset e live =
      let start =
        if not (report.serial == cells.serial) || reset
        then fresh_report cells.serial
        else report in
      ground (
        arith,
        e,
        live,
        serial-report_outputs start 0 outputs,
        report_outputs-report_outputs start outputs,
      )
