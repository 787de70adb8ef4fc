-- ===== src/Jit/Tests.antt =====
-- native/bap_jit.cpp: the filter, the log and the accesses on concrete inputs.
mod Programs
mod Sites
mod Chains
mod Objects
mod Fasts
use mathlib.Core.Option.{some-injective}
use bap.Jit.Notify.{Watch, forget_quiet, code_site, code_notify}
use bap.Jit.Notify.Inline.{code_site-code_notify}
use bap.Jit.Notify.Quiet.{IsSound}
use bap.Jit.Notify.Compiled.{Event, access, site, run_compiled, run_called, run_compiled-run_called}
use bap.Common.{if◌then◌else◌, ◌==◌, subst, not, List, Option, inl, inr, ◌⊎◌}
use bap.Common.{
  ℕ, ◌-◌, ◌^◌, ◌≡◌, refl, [], ◌∷◌, Bool, true, false, some, none, arith, ◌⊎◌, ltb, ◌||◌,
}
use bap.Paged.Memory.{Memory}
use bap.Paged.Memory
use bap.Jit.Filter.{
  Range, Ranges, emplace, insert, quiet_range, insert_all, filter_create, erase, erase_all,
  filter_update, upper_bound, before_bound,
}
use bap.Jit.Filter.Insert.{AreApart, any_overlaps, insert_lem}
use bap.Jit.Filter.Covers.{covers, quiet_range_lem, filter_create_lem, filter_update-AreApart}
use bap.Jit.StoreLog.{empty, note, logged, byte_of}
use bap.Jit.StoreLog.Note.{logged-note}
use bap.Jit.Access.{Cells, load_bytes, store_bytes}
use bap.Jit.Access.RoundTrip.{load_bytes-store_bytes}

abbrev range_of : ℕ → ℕ → Range
range_of first last = record { first = first; last = last; read_quiet = true; write_quiet = false }

abbrev two_ranges : Ranges
two_ranges = range_of 10 19 ∷ range_of 30 39 ∷ []

two_ranges_apart : AreApart 0 two_ranges
two_ranges_apart = (omega arith, omega arith, (omega arith, omega arith, tt))

insert_lem_example :
    ((insert two_ranges (range_of 20 29) ≡ none)
      × (ltb 29 20 || any_overlaps (range_of 20 29) two_ranges ≡ true))
    ⊎ ((insert two_ranges (range_of 20 29) ≡ some (emplace (range_of 20 29) two_ranges))
        × (ltb 29 20 || any_overlaps (range_of 20 29) two_ranges ≡ false)
        × AreApart 0 (emplace (range_of 20 29) two_ranges))
insert_lem_example = insert_lem two_ranges (range_of 20 29) two_ranges_apart

quiet_range_lem_example :
    (elim (quiet_range two_ranges 32 4 false) as (λ _. Bool) [ none ↦ false | some r ↦ true ])
    ≡ true
unfolding covers
quiet_range_lem_example =
    quiet_range_lem two_ranges 32 4 false two_ranges_apart (omega arith) (omega arith)

filter_create_lem_example :
    AreApart 0 two_ranges × (covers two_ranges 12 15 false ≡ covers two_ranges 12 15 false)
unfolding filter_create insert_all insert emplace upper_bound before_bound
filter_create_lem_example = filter_create_lem two_ranges two_ranges 12 15 false refl

logged-note_example : logged (note empty 4094 4 true 305419896) 4096 ≡ some 86
unfolding byte_of
logged-note_example =
    logged-note empty 4094 4 true 305419896 4096 (omega arith) (omega arith) (omega arith)

abbrev a_cell : Cells
a_cell = record { items = (7, 1) ∷ []; capacity = 5; pages = none; changes = none; failed = false }

abbrev some_pages : Cells
some_pages = record {
  items = [];
  capacity = 0;
  pages = some Memory.empty;
  changes = some empty;
  failed = false;
}

load_bytes-store_bytes_example :
    load_bytes (store_bytes a_cell (2 ^ 64 - 2) 4 true 305419896) (2 ^ 64 - 2) 4 true ≡ 305419896
load_bytes-store_bytes_example =
    load_bytes-store_bytes (2 ^ 64 - 2) 4 true 305419896 (omega arith) (omega arith) a_cell refl
      (omega arith)

load_bytes_pages :
    load_bytes (store_bytes some_pages 4093 4 false 305419896) 4093 4 false ≡ 305419896
load_bytes_pages =
    load_bytes-store_bytes 4093 4 false 305419896 (omega arith) (omega arith) some_pages refl tt

-- A world that keeps what its observers were called with, where those of code never stop a run and those of memory fail at address 99.
abbrev Seen : Type 0
Seen = List ℕ

abbrev seen_filter : Seen → Option Ranges
seen_filter seen = some two_ranges

abbrev see_code : Seen → ℕ → (ℕ ⊎ ℕ) × Seen
see_code seen pc = (inr 0, pc ∷ seen)

abbrev see_access : Seen → Bool → ℕ → ℕ → ℕ → Option ℕ × Seen
see_access seen write address size value = (if address == 99 then some 5 else none, address ∷ seen)

abbrev first_watch : Watch Seen ℕ
first_watch = record {
  world = [];
  observer = true;
  code_observer = true;
  error = none;
  quiet_sites = true;
  lean_ran = false;
  pending_site = false;
  pending_pc = 0;
  quiet_read = (1, 0);
  quiet_write = (1, 0);
}

two_ranges_given :
    (world : Seen) (ranges : Ranges) → some two_ranges ≡ some ranges → AreApart 0 ranges
two_ranges_given world ranges e =
    subst (AreApart 0) (some-injective two_ranges ranges e) two_ranges_apart

first_watch-IsSound : IsSound seen_filter see_code see_access first_watch
first_watch-IsSound true = inl refl
first_watch-IsSound false = inl refl

-- A site that waits, two reads that are quiet, a write that isn't, and one that fails.
abbrev some_events : List Event
some_events =
    site 1000
    ∷ access false 12 4 0
    ∷ access false 13 1 0
    ∷ access true 12 4 7
    ∷ access true 99 1 7
    ∷ site 1004
    ∷ []

run_compiled-run_called_example :
    ((run_compiled seen_filter see_code see_access first_watch some_events).0
      ≡ (run_called seen_filter see_code see_access first_watch some_events).0)
    × (forget_quiet (run_compiled seen_filter see_code see_access first_watch some_events).1
        ≡ forget_quiet (run_called seen_filter see_code see_access first_watch some_events).1)
run_compiled-run_called_example =
    run_compiled-run_called seen_filter see_code see_access first_watch some_events two_ranges_given
      first_watch-IsSound
      (
        omega arith,
        omega arith,
        omega arith,
        (
          omega arith,
          omega arith,
          omega arith,
          (omega arith, omega arith, omega arith, (omega arith, omega arith, omega arith, tt)),
        ),
      )
