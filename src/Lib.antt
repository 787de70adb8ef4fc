-- ===== src/Lib.antt =====
-- Verification of the native layer of bap: the memory that emulated programs run on, and what runs compiled code on it.
--
-- native/paged_memory.h is `PagedMemory`, an address space of 64 bits as a table of pages with four levels, read and written a word at a
-- time, with a log of what a step wrote. native/bap_jit.cpp compiles operations to native code and runs it: compiled code loads and stores
-- through the memory, logs its stores, and tells observers of its accesses and code sites, but where a filter says that they would do nothing.
--
-- Common: names of the libraries passed on, Boolean tests, lists by native numbers, and words of 64 bits.
-- Paged/Table, Paged/Memory: `Node`, `indexAt`, `find` and `ensure`. A table with n levels of nodes is a function from an index to an entry
--   that may be null, and a page a function from an offset to a byte; a write through a pointer to a page is `write_page`.
-- Paged/Word, Paged/Access: `loadWord`, `storeInWord`, `load`, `store`, `read` and `readRange`. A word is its eight bytes in memory order.
-- Paged/Step, Paged/WriteAll: `beginStep`, `endStep`, `noteStep`, `stepAddresses` and `writeAll`.
-- Paged/Fill, Paged/Pages, Paged/ZeroRange, Paged/Copy, Paged/Trim: `fill`, `forEachPage`, `zeroRange`, `copyFrom` with
--   `bap_jit_memory_clone`, and `trim`.
-- Jit/Filter: `MemoryFilter`, `bap_jit_memory_filter_create` and `bap_jit_memory_filter_update`; a `std::map` is its entries in order.
-- Jit/StoreLog: `StoreLog::note`. Jit/Access: `bap_jit_memory_load_bytes`, `bap_jit_memory_store_bytes` and `bap_jit_memory_note`.
-- Jit/Notify: `bap_jit_memory_notify`, `bap_jit_code_notify`, and what `compileOps` compiles for them. The observers are parameters.
-- Jit/Op, Jit/Compile: the operations, what binary ones work out, and what `compileOps` refuses and keeps of a program.
--   A division of LLVM that has no defined behaviour for its operands gives none, and so does the operation then.
-- Jit/Live: `bap_jit_live_changes`, with its outputs and changes as pairs of numbers.
-- Jit/Bytes: `lazyZeros`, `sliceBytes`, `bap_bytes_pieces`, `bap_bytes_resident` and `bap_bytes_fill`, on lists of bytes.
-- Jit/Object: `bap_jit_memory_create`, `_create_chunks`, `_write`, `_region_bytes`, `_dump`, `_size`, `_matches` and `_read_range`.
-- Jit/Fast: `bap_jit_memory_page`, and the loads and stores that `compileOps` compiles with `pageForAccess`. A pointer to a page is its number.
-- Jit/Runs: `bap_jit_run`, `bap_jit_run_memory_code`, `runMemoryObject` and `StoreLog::forEach`.
--   Jit/Runs/Steps puts runs, `bap_jit_memory_write` and `bap_jit_memory_zero` in a row, between the begin of a step and its end.
-- Jit/Chain: `Chain`, `ChainEntry` and `bap_jit_chain_create`, `_clear`, `_holds`, `_optimizing` and, in Jit/Chain/Add, `_add`. A pointer to an
--   entry is the place of it, a number that no other has. Jit/Chain/Run: the loop of `bap_jit_run_chain`, in Run/Round, and its start and end,
--   in Run/Ends; Run/Cases tells apart the ways that a round ends, which the other modules of Run go by.
-- Paged/Tests, Jit/Tests: concrete inputs.
--
-- Numbers are natural numbers, with what wraps at 64 bits written out, and a `|` of bits that are apart is a sum. Each loop that is not over
-- a list runs on fuel: as many rounds as there are bytes or pairs, of which each round does one or more, as many as there are words of a
-- page, or as many as there are pages in the range. A run of a chain has one round more than its budget has blocks. The theorems are about
-- the functions with that fuel, so that it is enough.
--
-- Everything is as one thread runs it: the loops of atomic exchanges succeed at once. Not modelled are the chunks that pages come from, what
-- frees memory, the code that LLVM makes of operations, the stores of a run of a chain, and what wraps all this for the runtime of Lean. The
-- host's `madvise` and its size of pages, what a compiled program does in a run, the room that a vector reserves and the order of a map are
-- parameters. Errors of allocation are left out. The disassembler's bindings, the solver's process and the guest programs that the emulator is
-- tested with are other parts of the repository, which this says nothing of.
pub mod Common
pub mod Paged
pub mod Jit
