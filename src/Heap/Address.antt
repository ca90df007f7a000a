-- ===== src/Heap/Address.antt =====
-- Sizes in blocks, and blocks as addresses.
use peachos.Base.{ℕ, ◌+◌, ◌-◌, ◌*◌, ◌/◌, ◌%◌, ◌^◌, ◌≤◌, ◌<◌, ◌≡◌, some, arith}
use peachos.Heap.{Heap, block_size, align_value_to_upper, block_to_address, address_to_block}

-- Up to the last block of the address space a size is rounded up to the least multiple of the
-- block size that holds it; a size beyond that wraps to 0.
pub align_value_to_upper_lem :
    (val : ℕ)
    → val < 2 ^ 32
    → let r = align_value_to_upper val in
      (r % block_size ≡ 0)
      × (val ≤ 2 ^ 32 - block_size → (val ≤ r) × (r < val + block_size))
      × (2 ^ 32 - block_size < val → r ≡ 0)
unfolding align_value_to_upper
align_value_to_upper_lem val h = ground arith

-- The number of blocks that heap_malloc asks for: the least that hold `size` bytes.
pub blocks_for :
    (size : ℕ)
    → size ≤ 2 ^ 32 - block_size
    → let n = align_value_to_upper size / block_size in
      (size ≤ n * block_size) × (n * block_size < size + block_size)
unfolding align_value_to_upper
blocks_for size h = ground arith

-- Every address inside a block leads back to the block.
pub address_to_block-block_to_address :
    (heap : Heap) (block offset : ℕ)
    → heap.saddr < 2 ^ 32
    → block * block_size + offset < 2 ^ 31
    → offset < block_size
    → address_to_block heap ((block_to_address heap block + offset) % 2 ^ 32) ≡ some block
unfolding address_to_block block_to_address
address_to_block-block_to_address heap block offset s b o = ground arith

pub address_to_block-start :
    (heap : Heap) (block : ℕ)
    → heap.saddr < 2 ^ 32
    → block * block_size < 2 ^ 31
    → address_to_block heap (block_to_address heap block) ≡ some block
unfolding address_to_block block_to_address
address_to_block-start heap block s b = ground arith
