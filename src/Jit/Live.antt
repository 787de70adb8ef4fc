-- ===== src/Jit/Live.antt =====
-- native/bap_jit.cpp: the outputs of a code site that `bap_jit_live_changes` tells of. They come as pairs of a slot and one more than a flag's
-- slot, or 0 for none, which `get_word` reads, and go as pairs of a place among them and a value.
pub mod Once
use bap.Common.{
  ℕ, zero, suc, ◌+◌, ◌-◌, ◌*◌, ◌/◌, ◌%◌, ◌^◌, ◌==◌, leb, if◌then◌else◌, Bool, true, false, not,
  ◌&&◌, ◌||◌, List, [], ◌∷◌, Option, none, some, length, get_or,
}

-- `SiteReport`: what was last said of the slots of the run of `serial`.
pub record SiteReport : Type 0 where
  pub serial : ℕ
  pub values : ℕ → ℕ
  pub known : ℕ → Bool

-- What of `BapCells` this goes by: the slots, if they are one array, and when they are as the run has them.
pub record SiteCells : Type 0 where
  pub slots : Option (List ℕ)
  pub serial : ℕ
  pub slots_live : Bool
  pub flushed_pc : ℕ

-- An output that has no slot, or that the run hasn't reached.
abbrev pub is_absent : List ℕ → ℕ → ℕ → Bool
is_absent slots slot flag =
    leb (length slots) slot
    || (not (flag == 0) && (leb (length slots) (flag - 1) || get_or slots (flag - 1) 0 == 0))

abbrev pub said : List ℕ → SiteReport → ℕ → Bool
said slots report slot = report.known slot && report.values slot == get_or slots slot 0

abbrev pub say : SiteReport → ℕ → ℕ → SiteReport
say report slot value = record report {
  known = λ s. if s == slot then true else report.known s;
  values = λ s. if s == slot then value else report.values s;
}

-- The loop over the outputs from `index` on.
unfoldable pub report_outputs : List ℕ → SiteReport → ℕ → List (ℕ × ℕ) → List (ℕ × ℕ) × SiteReport
report_outputs slots report index [] = ([], report)
report_outputs slots report index ((slot, flag) ∷ outputs) =
    let value = get_or slots slot 0 in
    let silent = is_absent slots slot flag || said slots report slot in
    let (changes, after) =
      report_outputs slots (if silent then report else say report slot value) (index + 1) outputs in
    (if silent then changes else (index, value) ∷ changes, after)

abbrev pub fresh_report : ℕ → SiteReport
fresh_report serial = record { serial = serial; values = λ _. 0; known = λ _. false }

-- `bap_jit_live_changes`, with `siteCells` and the outputs as their pairs: `none` where it says nothing.
unfoldable pub live_changes :
    Option SiteCells → SiteReport → List (ℕ × ℕ) → ℕ → Bool → Option (List (ℕ × ℕ)) × SiteReport
unfolding report_outputs
live_changes none report outputs pc reset = (none, report)
live_changes (some cells) report outputs pc reset = elim cells.slots [
  | none ↦ (none, report)
  | some slots ↦
      let start =
        if not (report.serial == cells.serial) || reset
        then fresh_report cells.serial
        else report in
      let (changes, after) = report_outputs slots start 0 outputs in
      if cells.slots_live || cells.flushed_pc == pc then (some changes, after) else (none, report)
]
