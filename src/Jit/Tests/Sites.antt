-- ===== src/Jit/Tests/Sites.antt =====
-- native/bap_jit.cpp: the outputs of a code site on concrete inputs.
use bap.Common.{ℕ, ◌≡◌, refl, List, [], ◌∷◌, true, false, some}
use bap.Jit.Live.{SiteCells, fresh_report, live_changes, report_outputs}
use bap.Jit.Live.Once.{live_changes-live_changes}

abbrev some_slots : List ℕ
some_slots = 7 ∷ 0 ∷ 9 ∷ []

abbrev some_cells : SiteCells
some_cells = record { slots = some some_slots; serial = 3; slots_live = true; flushed_pc = 0 }

-- The slot 0, which is there, the slot 2, whose flag in slot 1 is 0, and the slot 2 with no flag.
abbrev some_outputs : List (ℕ × ℕ)
some_outputs = (0, 0) ∷ (2, 2) ∷ (2, 0) ∷ []

-- Both that are there are told of, by their places among the outputs.
first_changes :
    (live_changes (some some_cells) (fresh_report 0) some_outputs 1000 false).0
    ≡ some ((0, 7) ∷ (2, 9) ∷ [])
unfolding live_changes report_outputs
first_changes = refl

live_changes-live_changes_example :
    live_changes
      (some some_cells)
      (live_changes (some some_cells) (fresh_report 0) some_outputs 1000 false).1
      some_outputs
      1000
      false
    ≡ (some [], (live_changes (some some_cells) (fresh_report 0) some_outputs 1000 false).1)
live_changes-live_changes_example =
    live_changes-live_changes some_slots some_cells (fresh_report 0) some_outputs 1000 false refl
      refl
