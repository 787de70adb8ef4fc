-- ===== src/Jit/Chain.antt =====
-- native/bap_jit.cpp: chains, the ranges that a run goes on with from one to the next.
pub mod Lookup
pub mod Reader
pub mod Add
pub mod Links
pub mod Valid
pub mod Run
pub mod Replace
use bap.Common.{
  ℕ, zero, suc, ◌+◌, ◌-◌, ◌%◌, ◌^◌, ◌==◌, leb, ltb, if◌then◌else◌, Bool, true, false, not, ◌&&◌,
  ◌||◌, List, [], ◌∷◌, ◌++◌, Option, none, some,
}
use bap.Common.Word.{u64, add64}

-- `ChainEntry::none`.
abbrev pub no_slot : ℕ
no_slot = 2 ^ 64 - 1

-- `ChainEntry::Output`.
pub record Output : Type 0 where
  pub variable : ℕ
  pub slot : ℕ
  pub width : ℕ
  pub flag : ℕ

-- What of a `ChainEntry` the array that adds it says.
pub record Shape : Type 0 where
  pub slot_count : ℕ
  pub effect_slot : ℕ
  pub budget_slot : ℕ
  pub observed_slot : ℕ
  pub executions : ℕ
  pub optimize_at : ℕ
  pub zeroed : List ℕ
  pub layout : List (ℕ × ℕ)
  pub required : List ℕ
  pub outputs : List Output
  pub flags : List (ℕ × ℕ)
  pub checkpoints : List (ℕ × List Output)

-- `Program`, as the object of the runtime that it is and what a chain reads of it.
pub record Code : Type 0 where
  pub object : ℕ
  pub max_slot : ℕ
  pub direct : Bool

-- `ChainEntry`. `place` stands for where it is in memory, which `last_target` points to.
pub record ChainEntry : Type 0 where
  pub place : ℕ
  pub id : ℕ
  pub program : ℕ
  pub direct : Bool
  pub shape : Shape
  pub flagged : List Output
  pub last_next : ℕ
  pub last_target : Option ℕ
  pub outputs_said : ℕ
  pub ready_in : ℕ
  pub touched : Bool
  pub runs : ℕ
  pub executed : ℕ

abbrev pub Entries : Type 0
Entries = List (ℕ × ChainEntry)

-- `Chain`: its entries by their pcs, `run`, and a place that none of them has.
pub record Chain : Type 0 where
  pub entries : Entries
  pub run : ℕ
  pub free_place : ℕ

-- `bap_jit_chain_create`.
abbrev pub create : Chain
create = record { entries = []; run = 0; free_place = 0 }

-- `find` in the entries.
unfoldable pub entry_at : Entries → ℕ → Option ChainEntry
entry_at [] pc = none
entry_at ((p, e) ∷ entries) pc = if p == pc then some e else entry_at entries pc

-- `erase` of an entry.
unfoldable pub erase : Entries → ℕ → Entries
erase [] pc = []
erase ((p, e) ∷ entries) pc = if p == pc then entries else (p, e) ∷ erase entries pc

-- A write to the entry of a pc.
unfoldable pub change : Entries → ℕ → (ChainEntry → ChainEntry) → Entries
change [] pc f = []
change ((p, e) ∷ entries) pc f =
    if p == pc then (p, f e) ∷ entries else (p, e) ∷ change entries pc f

-- A write to all entries.
unfoldable pub change_all : Entries → (ChainEntry → ChainEntry) → Entries
change_all [] f = []
change_all ((p, e) ∷ entries) f = (p, f e) ∷ change_all entries f

-- `bap_jit_chain_clear`.
abbrev pub clear : Chain → Chain
clear chain = record chain { entries = [] }

-- `bap_jit_chain_holds`.
unfoldable pub holds_program : Chain → ℕ → ℕ → Bool
holds_program chain pc program = elim (entry_at chain.entries pc) [
  | none ↦ false
  | some entry ↦ entry.program == program
]

abbrev pub optimize_after : ℕ → ChainEntry → ChainEntry
optimize_after more entry = record entry {
  shape = record (entry.shape) { optimize_at = add64 (entry.shape.executions) more };
}

-- `bap_jit_chain_optimizing`.
unfoldable pub optimizing : Chain → ℕ → ℕ → Chain
optimizing chain pc more = record chain { entries = change chain.entries pc (optimize_after more) }
