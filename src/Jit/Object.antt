-- ===== src/Jit/Object.antt =====
-- native/bap_jit.cpp: what the runtime does with a memory as an object. Where a function returns an error, its result here is `none`.
pub mod Region
pub mod Dump
pub mod Create
use bap.Common.{
  ℕ, zero, suc, ◌+◌, ◌-◌, ◌*◌, ◌/◌, ◌%◌, ◌^◌, ◌==◌, leb, ltb, if◌then◌else◌, Bool, true, false, not,
  ◌&&◌, List, [], ◌∷◌, ◌++◌, Option, none, some, length, min,
}
use bap.Common.Word.{add64}
use bap.Paged.Table.{Page, page_size, word_size}
use bap.Paged.Memory.{Memory, empty, find}
use bap.Paged.Word.{copy_into, all_zero, read_bytes}
use bap.Paged.Access.{read_range}
use bap.Paged.WriteAll.{write_all}
use bap.Paged.Fill.{fill}
use bap.Paged.Pages.{pages}
use bap.Paged.ZeroRange.{zeros}
use bap.Jit.Bytes.{is_scalar}

-- The arrays of addresses and of values, which are made bytes.
unfoldable pub pair_up : List ℕ → List ℕ → List (ℕ × ℕ)
pair_up [] values = []
pair_up (a ∷ addresses) [] = []
pair_up (a ∷ addresses) (v ∷ values) = (a, v % 256) ∷ pair_up addresses values

-- `bap_jit_memory_write`.
unfoldable pub write : Memory → List ℕ → List ℕ → Option Memory
unfolding pair_up
write m addresses values =
    if not (length addresses == length values)
    then none
    else some (write_all m (pair_up addresses values))

-- `bap_jit_memory_create`.
unfoldable pub create : List ℕ → List ℕ → Option Memory
unfolding pair_up
create addresses values =
    if not (length addresses == length values)
    then none
    else some (write_all empty (pair_up addresses values))

-- The loop of `bap_jit_memory_create_chunks`.
unfoldable pub fill_chunks : Memory → List ℕ → List (List ℕ) → Memory
fill_chunks m [] chunks = m
fill_chunks m (base ∷ bases) [] = m
fill_chunks m (base ∷ bases) (chunk ∷ chunks) = fill_chunks (fill m base chunk) bases chunks

-- `bap_jit_memory_create_chunks`.
unfoldable pub create_chunks : List ℕ → List (List ℕ) → Option Memory
unfolding fill_chunks
create_chunks bases chunks =
    if not (length bases == length chunks) then none else some (fill_chunks empty bases chunks)

-- The loop of `bap_jit_memory_region_bytes`, with the bytes `to` and `done` of them done: a round does what lies in one page.
unfoldable pub region_loop : ℕ → Memory → ℕ → List ℕ → ℕ → List ℕ
region_loop zero m address to done = to
region_loop (suc fuel) m address to done =
    let at = add64 address done in
    let offset = at % page_size in
    let count = min (page_size - offset) (length to - done) in
    let next : List ℕ = elim (find m at) [
      | none ↦ to
      | some page ↦
          if all_zero (read_bytes page offset count)
          then to
          else copy_into to done (read_bytes page offset count)
    ] in
    let rest = region_loop fuel m address next (done + count) in
    if ltb done (length to) then rest else to

-- `bap_jit_memory_region_bytes`.
unfoldable pub region_bytes : Memory → ℕ → ℕ → List ℕ
unfolding region_loop
region_bytes m address size = region_loop size m address (zeros size) 0

-- The bytes of a word that aren't 0, with their addresses from `at` on.
unfoldable pub dump_bytes : List ℕ → ℕ → List (ℕ × ℕ)
dump_bytes [] at = []
dump_bytes (b ∷ bytes) at =
    let rest = dump_bytes bytes (at + 1) in if b == 0 then rest else (at, b) ∷ rest

-- The loop over the words of a page from `offset` on, `count` of them.
unfoldable pub dump_words : Page → ℕ → ℕ → ℕ → List (ℕ × ℕ)
dump_words page address zero offset = []
dump_words page address (suc count) offset =
    let word = read_bytes page offset word_size in
    (if all_zero word then [] else dump_bytes word (address + offset))
    ++ dump_words page address count (offset + word_size)

unfoldable pub dump_pages : List (ℕ × Page) → List (ℕ × ℕ)
dump_pages [] = []
dump_pages ((address, page) ∷ rest) = dump_words page address 512 0 ++ dump_pages rest

-- `bap_jit_memory_dump`: its two arrays as pairs.
unfoldable pub dump : Memory → List (ℕ × ℕ)
unfolding dump_pages
dump m = dump_pages (pages m)

-- The bytes of a page from `offset` on, `count` of them, that aren't 0.
unfoldable pub count_bytes : Page → ℕ → ℕ → ℕ
count_bytes page zero offset = 0
count_bytes page (suc count) offset =
    (if page offset == 0 then 0 else 1) + count_bytes page count (offset + 1)

unfoldable pub size_pages : List (ℕ × Page) → ℕ
size_pages [] = 0
size_pages ((address, page) ∷ rest) = count_bytes page 4096 0 + size_pages rest

-- `bap_jit_memory_size`.
unfoldable pub size : Memory → ℕ
unfolding size_pages
size m = size_pages (pages m)

-- `memcmp`, whether it is 0.
unfoldable pub bytes_eq : List ℕ → List ℕ → Bool
bytes_eq [] ys = true
bytes_eq (x ∷ xs) [] = true
bytes_eq (x ∷ xs) (y ∷ ys) = x == y && bytes_eq xs ys

-- `bap_jit_memory_matches`.
unfoldable pub matches : Memory → ℕ → List ℕ → Bool
unfolding bytes_eq
matches m address bytes = bytes_eq (read_range m address (length bytes)) bytes

-- `bap_jit_memory_read_range`.
unfoldable pub read_object : Memory → ℕ → ℕ → Option (List ℕ)
read_object m address count = if is_scalar count then some (read_range m address count) else none
