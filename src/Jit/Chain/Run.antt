-- ===== src/Jit/Chain/Run.antt =====
-- native/bap_jit.cpp: `bap_jit_run_chain`. What the compiled programs do is a parameter, `execute`: it takes the object of a program, the
-- slots, the registers and what is behind `BapCells`, of a type `M`. The vectors of registers are functions from variables, 0 past
-- the ends of the vectors, and no variable is all ones, for which the vectors can't be made longer. Nothing else changes the chain
-- while it runs.
pub mod Round
pub mod Cases
pub mod Ends
pub mod Counts
pub mod Budgets
pub mod Told
pub mod TakeBack
pub mod Wired
pub mod Slots
use bap.Common.{
  ℕ, zero, suc, ◌+◌, ◌-◌, ◌%◌, ◌^◌, ◌==◌, leb, ltb, min, if◌then◌else◌, Bool, true, false, not,
  ◌&&◌, ◌||◌, List, [], ◌∷◌, ◌++◌, Option, none, some, length, get_or,
}
use bap.Common.Word.{add64}
use bap.Jit.Chain.{no_slot, Output, Shape, ChainEntry, Entries, Chain, entry_at, change}

-- `registers`, `bound` and `dirty`.
pub record Registers : Type 0 where
  pub value : ℕ → ℕ
  pub bound : ℕ → ℕ
  pub dirty : List ℕ

abbrev pub update : (ℕ → ℕ) → ℕ → ℕ → ℕ → ℕ
update f at x = λ i. if i == at then x else f i

-- The variables as the caller gives them, with their values.
unfoldable pub bind : Registers → List ℕ → List ℕ → Registers
bind registers [] values = registers
bind registers (variable ∷ variables) [] = registers
bind registers (variable ∷ variables) (value ∷ values) =
    bind
      record registers {
        value = update registers.value variable value;
        bound = update registers.bound variable 1;
      }
      variables values

-- A write to a slot.
unfoldable pub set_slot : List ℕ → ℕ → ℕ → List ℕ
set_slot [] slot value = []
set_slot (x ∷ state) zero value = value ∷ state
set_slot (x ∷ state) (suc slot) value = x ∷ set_slot state slot value

-- `resize`.
unfoldable pub resize : List ℕ → ℕ → List ℕ
resize state zero = []
resize [] (suc n) = 0 ∷ resize [] n
resize (x ∷ state) (suc n) = x ∷ resize state n

abbrev pub narrow : ℕ → ℕ → ℕ
narrow width value = if ltb width 64 then value % 2 ^ width else value

-- That an output is left written, with its value where it is in a slot.
abbrev pub leave : Bool → List ℕ → Registers → Output → Registers
leave copy state registers output =
    if not (output.flag == no_slot) && get_or state output.flag 0 == 0 then registers else record {
      value =
          if copy
          then update registers.value output.variable
              (narrow output.width (get_or state output.slot 0))
          else registers.value;
      bound = update registers.bound output.variable 2;
      dirty =
          if registers.bound output.variable == 2
          then registers.dirty
          else registers.dirty ++ (output.variable ∷ []);
    }

unfoldable pub leave_all : Bool → List ℕ → Registers → List Output → Registers
leave_all copy state registers [] = registers
leave_all copy state registers (output ∷ outputs) =
    leave_all copy state (leave copy state registers output) outputs

unfoldable pub checkpoint_at : List (ℕ × List Output) → ℕ → Option (List Output)
checkpoint_at [] pc = none
checkpoint_at ((p, outputs) ∷ checkpoints) pc =
    if p == pc then some outputs else checkpoint_at checkpoints pc

-- `outputsAt`, where `written` is to copy from the slots.
unfoldable pub outputs_at : ChainEntry → ℕ → List Output
outputs_at entry pc = elim (checkpoint_at entry.shape.checkpoints pc) [
  | none ↦ entry.shape.outputs
  | some outputs ↦ outputs
]

-- `outputsAt` and which of them `written` goes through where they are written already, in a run of the chain.
unfoldable pub outputs_to_say : ℕ → ChainEntry → ℕ → List Output
outputs_to_say run entry pc = elim (checkpoint_at entry.shape.checkpoints pc) [
  | none ↦ if entry.outputs_said == run then entry.flagged else entry.shape.outputs
  | some outputs ↦ outputs
]

-- What `written` notes of it in the entry.
unfoldable pub note_said : ℕ → ℕ → ChainEntry → ChainEntry
note_said run pc entry = elim (checkpoint_at entry.shape.checkpoints pc) [
  | none ↦ record entry { outputs_said = run }
  | some outputs ↦ entry
]

-- What a run of a program gives: where it goes, and its slots, registers, memory, error and whether Lean code ran.
pub record Ran (M : Type 0) : Type 0 where
  pub next : ℕ
  pub slots : List ℕ
  pub values : ℕ → ℕ
  pub cells : M
  pub error : Option ℕ
  pub lean_ran : Bool

-- The variables of the loop, with the chain's entries. `current` is the pc of the entry it is at.
pub record Loop (M : Type 0) : Type 0 where
  pub entries : Entries
  pub current : ℕ
  pub first : Bool
  pub touched : List ℕ
  pub state : List ℕ
  pub spare : List ℕ
  pub budget : ℕ
  pub chained : ℕ
  pub registers : Registers
  pub memory : M

-- What a round of the loop comes to. One that dangles reads an entry that is gone.
pub data Outcome (M : Type 0) : Type 0 where
  goes_on : Loop M → Outcome M
  stops : Loop M → ℕ → Outcome M
  fails : Loop M → ℕ → Outcome M
  dangles : Outcome M

-- The pc of the entry in a place.
unfoldable pub pc_in : Entries → ℕ → Option ℕ
pc_in [] place = none
pc_in ((p, e) ∷ entries) place = if e.place == place then some p else pc_in entries place

-- Where a range goes: to an entry, to none, or to one that is gone.
pub data Target : Type 0 where
  entry_of : ℕ → Target
  no_entry : Target
  gone : Target

unfoldable pub look_up : Entries → ℕ → Target
look_up entries next = elim (entry_at entries next) [ none ↦ no_entry | some e ↦ entry_of next ]

unfoldable pub follow : Entries → ℕ → Target
follow entries place = elim (pc_in entries place) [ none ↦ gone | some pc ↦ entry_of pc ]

-- The entry where it goes, by where the entry it is at went last if it went there.
unfoldable pub target_of : Entries → ChainEntry → ℕ → Target
unfolding look_up follow
target_of entries entry next =
    if entry.last_next == next
    then elim entry.last_target [ none ↦ look_up entries next | some place ↦ follow entries place ]
    else look_up entries next

abbrev pub remember : ℕ → ℕ → ChainEntry → ChainEntry
remember next place entry = record entry { last_next = next; last_target = some place }

-- The slot's value, or the other where there is no such slot.
abbrev pub slot_or : List ℕ → ℕ → ℕ → ℕ
slot_or state slot other = if slot == no_slot then other else get_or state slot 0

-- `ranChained`.
abbrev pub ran_chained : ℕ → ℕ → ℕ
ran_chained budget left = if leb left budget then budget - left else 0

abbrev pub count_run : ℕ → ChainEntry → ChainEntry
count_run executed entry = record entry {
  shape = record (entry.shape) { executions = add64 (entry.shape.executions) executed };
  touched = true;
  runs = add64 entry.runs 1;
  executed = add64 entry.executed executed;
}

unfoldable pub are_bound : (ℕ → ℕ) → List ℕ → Bool
are_bound bound [] = true
are_bound bound (variable ∷ required) = not (bound variable == 0) && are_bound bound required

abbrev pub is_due : ChainEntry → Bool
is_due target =
    not (target.shape.optimize_at == no_slot)
    && leb target.shape.optimize_at (add64 (target.shape.executions) 1)

-- The budget that a range starts with.
abbrev pub budget_for : ChainEntry → ℕ → ℕ
budget_for target budget =
    if target.shape.optimize_at == no_slot
    then budget
    else min budget (target.shape.optimize_at - add64 (target.shape.executions) 1)

unfoldable pub clear_slots : List ℕ → List ℕ → List ℕ
clear_slots state [] = state
clear_slots state (slot ∷ slots) = clear_slots (set_slot state slot 0) slots

unfoldable pub fill_slots : List ℕ → Registers → List (ℕ × ℕ) → List ℕ
fill_slots state registers [] = state
fill_slots state registers ((variable, slot) ∷ layout) =
    fill_slots
      (if registers.bound variable == 0
        then state
        else set_slot state slot (registers.value variable))
      registers layout

abbrev pub set_slot_if : List ℕ → ℕ → ℕ → List ℕ
set_slot_if state slot value = if slot == no_slot then state else set_slot state slot value

-- The slots that a range starts with.
unfoldable pub next_state : ChainEntry → Registers → ℕ → List ℕ → List ℕ
unfolding clear_slots fill_slots
next_state target registers budget spare =
    let cleared = clear_slots (resize spare target.shape.slot_count) target.shape.zeroed in
    let filled =
      if target.direct then cleared else fill_slots cleared registers target.shape.layout in
    set_slot_if (set_slot_if filled target.shape.budget_slot budget) target.shape.observed_slot 0
