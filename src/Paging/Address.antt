-- ===== src/Paging/Address.antt =====
-- Pages, indexes and flags as arithmetic.
use peachos.Base.{ℕ, ◌+◌, ◌-◌, ◌*◌, ◌/◌, ◌%◌, ◌^◌, ◌≤◌, ◌<◌, ◌≡◌, bit_or, arith}
use peachos.Base.Bits.{bit_and_page, bit_or_disjoint}
use peachos.Status.{ok}
use peachos.Paging.{page_size, entries_per_table, table_of, get_indexes, align_address}

pub table_of_lem : (a : ℕ) → a < 2 ^ 32 → table_of a ≡ a - a % page_size
unfolding table_of
table_of_lem a h = bit_and_page a h

-- A page address with flags below the page size.
pub with_flags :
    (page flags : ℕ) → page % page_size ≡ 0 → flags < page_size → bit_or page flags ≡ page + flags
with_flags page flags a f =
    let e : page / page_size * 2 ^ 12 ≡ page = omega arith in
    rw e at (bit_or_disjoint 12 (page / page_size) flags f)

-- For an aligned address the two indexes are below 1024 and make up the address; any other is
-- refused.
pub get_indexes_lem :
    (virt : ℕ)
    → virt < 2 ^ 32
    → virt % page_size ≡ 0
    → (d : ℕ) × (t : ℕ) × (get_indexes virt ≡ ok (d, t))
      × (d < entries_per_table)
      × (t < entries_per_table)
      × (virt ≡ (d * entries_per_table + t) * page_size)
unfolding get_indexes
get_indexes_lem virt h a = (
  virt / (entries_per_table * page_size),
  virt % (entries_per_table * page_size) / page_size,
  ground arith,
  omega arith,
  omega arith,
  omega arith,
)

-- paging_align_address rounds up to the next page, and to 0 in the last page of the address space.
pub align_address_lem :
    (ptr : ℕ)
    → ptr < 2 ^ 32
    → let r = align_address ptr in
      (r % page_size ≡ 0)
      × (ptr ≤ 2 ^ 32 - page_size → (ptr ≤ r) × (r < ptr + page_size))
      × (2 ^ 32 - page_size < ptr → r ≡ 0)
unfolding align_address
align_address_lem ptr h = ground arith
