-- ===== src/Paging.antt =====
-- src/memory/paging/paging.c over a memory of 32-bit words by their byte address. Addresses are
-- 32-bit numbers; a `struct paging_4gb_chunk` is the address of its directory.
pub mod Address
pub mod Directory
pub mod Range
pub mod Sample
mod Tests
use peachos.Base.{
  ℕ, zero, suc, ◌+◌, ◌-◌, ◌*◌, ◌/◌, ◌%◌, ◌^◌, bit_and, bit_or, Bool, true, false, not, ◌||◌, Option,
  none, some, List, [], ◌∷◌, ltb, ◌==◌, if◌then◌else◌, ◌++◌,
}
use peachos.Status.{Result, ok, err, einvagr}

abbrev pub page_size : ℕ
page_size = 4096

abbrev pub entries_per_table : ℕ
entries_per_table = 1024

-- The word at each address.
abbrev pub Mem : Type 0
Mem = ℕ → ℕ

unfoldable pub store : Mem → ℕ → ℕ → Mem
store mem a v b = if b == a then v % 2 ^ 32 else mem b

-- `(uint32_t*)(entry & 0xfffff000)`
unfoldable pub table_of : ℕ → ℕ
table_of entry = bit_and entry 0xfffff000

unfoldable pub is_aligned : ℕ → Bool
is_aligned addr = addr % page_size == 0

-- The directory index and the table index.
unfoldable pub get_indexes : ℕ → Result (ℕ × ℕ)
unfolding is_aligned
get_indexes virtual_address =
    if not (is_aligned virtual_address)
    then err einvagr
    else ok (
      virtual_address / (entries_per_table * page_size),
      virtual_address % (entries_per_table * page_size) / page_size,
    )

unfoldable pub align_address : ℕ → ℕ
align_address ptr =
    if not (ptr % page_size == 0) then (ptr + page_size - ptr % page_size) % 2 ^ 32 else ptr

unfoldable pub align_to_lower_page : ℕ → ℕ
align_to_lower_page addr = addr - addr % page_size

unfoldable pub set : Mem → ℕ → ℕ → ℕ → Mem × Result (Unit {0})
unfolding is_aligned get_indexes store table_of
set mem directory virt val =
    if not (is_aligned virt) then (mem, err einvagr) else elim (get_indexes virt) [
      | err e ↦ (mem, err e)
      | ok (directory_index, table_index) ↦
          let table = table_of (mem (directory + 4 * directory_index)) in
          (store mem (table + 4 * table_index) val, ok tt)
    ]

-- An address off a page boundary leaves both indexes 0.
unfoldable pub get : Mem → ℕ → ℕ → ℕ
unfolding get_indexes table_of
get mem directory virt = elim (get_indexes virt) [
  | err e ↦ mem (table_of (mem directory))
  | ok (directory_index, table_index) ↦
      mem (table_of (mem (directory + 4 * directory_index)) + 4 * table_index)
]

unfoldable pub get_physical_address : Mem → ℕ → ℕ → ℕ
unfolding align_to_lower_page get table_of
get_physical_address mem directory virt =
    let virt_addr_new = align_to_lower_page virt in
    (table_of (get mem directory virt_addr_new) + (virt - virt_addr_new)) % 2 ^ 32

unfoldable pub map : Mem → ℕ → ℕ → ℕ → ℕ → Mem × Result (Unit {0})
unfolding set
map mem directory virt phys flags =
    if not (virt % page_size == 0) || not (phys % page_size == 0)
    then (mem, err einvagr)
    else set mem directory virt (bit_or phys flags)

-- The loop of paging_map_range, with the rounds left; it stops at the first error.
unfoldable pub map_range : ℕ → Mem → ℕ → ℕ → ℕ → ℕ → Mem × Result (Unit {0})
unfolding map
map_range zero mem directory virt phys flags = (mem, ok tt)
map_range (suc count) mem directory virt phys flags =
    let (mem', res) = map mem directory virt phys flags in
    elim res [
      | err e ↦ (mem', err e)
      | ok _ ↦
          map_range count mem' directory ((virt + page_size) % 2 ^ 32) ((phys + page_size) % 2 ^ 32)
            flags
    ]

unfoldable pub map_to : Mem → ℕ → ℕ → ℕ → ℕ → ℕ → Mem × Result (Unit {0})
unfolding map_range
map_to mem directory virt phys phys_end flags =
    if not (virt % page_size == 0)
    then (mem, err einvagr)
    else if not (phys % page_size == 0)
    then (mem, err einvagr)
    else if not (phys_end % page_size == 0)
    then (mem, err einvagr)
    else if ltb phys_end phys
    then (mem, err einvagr)
    else map_range ((phys_end - phys) / page_size) mem directory virt phys flags

-- The inner loop of paging_new_4gb: the rounds left, `b`, and the table's address.
table_loop : ℕ → ℕ → ℕ → ℕ → ℕ → Mem → Mem
table_loop zero b entry offset flags mem = mem
table_loop (suc n) b entry offset flags mem =
    table_loop n (b + 1) entry offset flags
      (store mem (entry + 4 * b) (bit_or ((offset + b * page_size) % 2 ^ 32) flags))

-- The outer loop. `tables i` is the address that kzalloc returns in round `i`.
directory_loop : ℕ → ℕ → (ℕ → ℕ) → ℕ → ℕ → ℕ → Mem → Mem
directory_loop zero i tables directory offset flags mem = mem
directory_loop (suc n) i tables directory offset flags mem =
    let mem' = table_loop entries_per_table 0 (tables i) offset flags mem in
    let entry = bit_or (bit_or (tables i) flags) 0b10 in
    directory_loop n (i + 1) tables directory ((offset + entries_per_table * page_size) % 2 ^ 32)
      flags (store mem' (directory + 4 * i) entry)

-- The memory after paging_new_4gb, with the addresses that kzalloc returned for the directory and
-- the tables. The zeros that kzalloc writes are all written over.
unfoldable pub new_4gb : Mem → ℕ → (ℕ → ℕ) → ℕ → Mem
unfolding directory_loop table_loop store
new_4gb mem directory tables flags = directory_loop entries_per_table 0 tables directory 0 flags mem

-- The tables that paging_free_4gb passes to kfree, from entry `i` on, with the rounds left.
tables_loop : ℕ → ℕ → Mem → ℕ → List ℕ
tables_loop zero i mem directory = []
tables_loop (suc n) i mem directory =
    table_of (mem (directory + 4 * i)) ∷ tables_loop n (i + 1) mem directory

-- The pointers passed to kfree, in order; `chunk` is the address of the struct itself.
unfoldable pub free_4gb : Mem → ℕ → ℕ → List ℕ
unfolding tables_loop table_of
free_4gb mem directory chunk =
    tables_loop entries_per_table 0 mem directory ++ (directory ∷ (chunk ∷ []))
