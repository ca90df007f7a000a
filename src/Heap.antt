-- ===== src/Heap.antt =====
-- src/memory/heap/heap.c: the block allocator behind kmalloc. A heap is a table of one byte per
-- 4096-byte block and the address of the first block. `none` is an access outside the table.
-- Pointers are 32-bit numbers, and NULL is 0.
pub mod Runs
pub mod FirstFit
pub mod Mark
pub mod Address
pub mod Laws
pub mod Layout
pub mod Refine
pub mod Create
mod Tests
use peachos.Base.{
  ℕ, zero, suc, ◌+◌, ◌-◌, ◌*◌, ◌/◌, ◌%◌, ◌^◌, bit_and, bit_or, Bool, true, false, not, ◌||◌, Option,
  none, some, List, [], ◌∷◌, get_elem?, set?, take, length, ltb, leb, ◌==◌, if◌then◌else◌, ◌>>=◌,
}
use peachos.Status.{Result, ok, err, einvagr}
use peachos.Memory.{memset}

abbrev pub block_size : ℕ
block_size = 4096

abbrev pub entry_taken : ℕ
entry_taken = 0x01

abbrev pub entry_free : ℕ
entry_free = 0x00

abbrev pub has_next : ℕ
has_next = 0b10000000

abbrev pub is_first : ℕ
is_first = 0b01000000

pub record HeapTable : Type 0 where
  pub entries : List ℕ
  pub total : ℕ

pub record Heap : Type 0 where
  pub table : HeapTable
  pub saddr : ℕ

-- `end - ptr` is a 32-bit difference.
pub validate_table : ℕ → ℕ → HeapTable → Result (Unit {0})
validate_table ptr end table =
    let total_blocks = (end + 2 ^ 32 - ptr) % 2 ^ 32 / block_size in
    if table.total == total_blocks then ok tt else err einvagr

pub validate_alignment : ℕ → Bool
validate_alignment ptr = ptr % block_size == 0

-- The heap that `*heap` holds afterwards, and the result.
pub create : Heap → ℕ → ℕ → HeapTable → Option (Heap × Result (Unit {0}))
create heap ptr end table =
    if not (validate_alignment ptr) || not (validate_alignment end)
    then some (heap, err einvagr)
    else elim (validate_table ptr end table) [
      | err e ↦ some (record { table = table; saddr = ptr }, err e)
      | ok _ ↦ do
        cleared ← memset table.entries entry_free table.total
        some (record { table = record table { entries = cleared }; saddr = ptr }, ok tt)
    ]

unfoldable pub align_value_to_upper : ℕ → ℕ
align_value_to_upper val =
    if val % block_size == 0 then val else (val - val % block_size + block_size) % 2 ^ 32

pub get_entry_type : ℕ → ℕ
get_entry_type entry = bit_and entry 0x0f

unfoldable pub is_free : ℕ → Bool
unfolding get_entry_type
is_free entry = get_entry_type entry == entry_free

-- `bs == -1` is `none`.
abbrev start_or : Option ℕ → ℕ → ℕ
start_or none i = i
start_or (some s) i = s

-- The loop of heap_get_start_block over the entries from index `i` on.
start_loop : List ℕ → ℕ → ℕ → ℕ → Option ℕ → Option ℕ
start_loop [] total_blocks i bc bs = bs
start_loop (e ∷ es) total_blocks i bc bs = elim (is_free e) [
  | false ↦ start_loop es total_blocks (i + 1) 0 none
  | true ↦
      let s = start_or bs i in
      let rest = start_loop es total_blocks (i + 1) (bc + 1) (some s) in
      if bc + 1 == total_blocks then some s else rest
]

-- `none` is -ENOMEM.
pub get_start_block : Heap → ℕ → Option ℕ
unfolding start_loop is_free
get_start_block heap total_blocks =
    start_loop (take heap.table.total heap.table.entries) total_blocks 0 0 none

unfoldable pub block_to_address : Heap → ℕ → ℕ
block_to_address heap block = (heap.saddr + block * block_size) % 2 ^ 32

-- The rounds left, `i`, `end_block`, and the entry to write next. `i != end_block - 1` is written
-- with the addition, since `end_block` may be 0.
mark_loop : ℕ → ℕ → ℕ → ℕ → List ℕ → Option (List ℕ)
mark_loop zero i end_block entry entries = some entries
mark_loop (suc n) i end_block entry entries = do
  entries' ← set? entries i entry
  let next = if i + 1 == end_block then entry_taken else bit_or entry_taken has_next
  mark_loop n (i + 1) end_block next entries'

-- `start_block`, `total_blocks` and `end_block` are ints. An `end_block` of 2 ^ 31 - 1 never ends the
-- loop, which comes to a negative entry. A greater one is negative, and the loop does not run.
pub mark_blocks_taken : Heap → ℕ → ℕ → Option Heap
unfolding mark_loop
mark_blocks_taken heap start_block total_blocks = do
  let first = bit_or entry_taken is_first
  let entry = if ltb 1 total_blocks then bit_or first has_next else first
  let end_block = start_block + total_blocks - 1
  let marked = mark_loop total_blocks start_block end_block entry heap.table.entries
  entries' ←
      if ltb (start_block + total_blocks) (2 ^ 31)
      then marked
      else if start_block + total_blocks == 2 ^ 31
      then none
      else some (heap.table.entries)
  some (record heap { table = record (heap.table) { entries = entries' } })

pub malloc_blocks : Heap → ℕ → Option (ℕ × Heap)
unfolding get_start_block block_to_address mark_blocks_taken
malloc_blocks heap total_blocks = elim (get_start_block heap total_blocks) [
  | none ↦ some (0, heap)
  | some start_block ↦ do
    heap' ← mark_blocks_taken heap start_block total_blocks
    some (block_to_address heap start_block, heap')
]

-- The rounds left, `total - i`.
free_loop : ℕ → ℕ → List ℕ → Option (List ℕ)
free_loop zero i entries = some entries
free_loop (suc n) i entries = do
  entry ← get_elem? entries i
  entries' ← set? entries i entry_free
  let rest = free_loop n (i + 1) entries'
  if bit_and entry has_next == 0 then some entries' else rest

pub mark_blocks_free : Heap → ℕ → Option Heap
unfolding free_loop
mark_blocks_free heap starting_block = do
  let rounds = heap.table.total - starting_block
  entries' ← free_loop rounds starting_block heap.table.entries
  some (record heap { table = record (heap.table) { entries = entries' } })

-- A signed division, towards zero. `none` is a negative block: the entry before the table that it
-- names is not one of the heap's.
pub address_to_block : Heap → ℕ → Option ℕ
address_to_block heap address =
    let d = (address + 2 ^ 32 - heap.saddr) % 2 ^ 32 in
    if ltb d (2 ^ 31)
    then some (d / block_size)
    else if ltb (2 ^ 32 - d) block_size
    then some 0
    else none

unfoldable pub malloc : Heap → ℕ → Option (ℕ × Heap)
unfolding align_value_to_upper malloc_blocks
malloc heap size = malloc_blocks heap (align_value_to_upper size / block_size)

pub free : Heap → ℕ → Option Heap
unfolding address_to_block mark_blocks_free
free heap ptr = do block ← address_to_block heap ptr; mark_blocks_free heap block
