-- ===== src/Kheap/Tests.antt =====
-- The theorem on kzalloc at a heap with free blocks only.
use peachos.Base.{
  ℕ, ◌+◌, ◌/◌, ◌≤◌, ◌<◌, ◌≡◌, refl, arith, some, List, replicate, length-replicate, ◌⊎◌,
}
use peachos.Heap.{is_free, align_value_to_upper}
use peachos.Heap.Runs.{first_fit}
use peachos.Heap.Laws.{free_blocks}
use peachos.Heap.Layout.{Segment, vacant, Holds, Allocates}
use peachos.Heap.Create.{encode-replicate}
use peachos.Kheap.{Kernel, heap_size_bytes, heap_block_size, heap_address, kzalloc}
use peachos.Kheap.Laws.{kzalloc-Allocates}

abbrev fresh : Kernel
fresh = record {
  kernel_heap = record {
    table = record { entries = replicate 25600 0; total = 25600 };
    saddr = heap_address;
  };
  memory = λ a. 7;
}

fresh-Holds : Holds fresh.kernel_heap (replicate 25600 vacant)
fresh-Holds = record {
  table = encode-replicate 25600;
  sized = let zero_byte : ℕ = 0 in omega (arith, length-replicate 25600 zero_byte);
  small = let zero_byte : ℕ = 0 in omega (arith, length-replicate 25600 zero_byte);
}

fits :
    first_fit (align_value_to_upper 5000 / heap_block_size) (free_blocks fresh.kernel_heap) ≡ some 0
unfolding first_fit is_free align_value_to_upper
fits = refl

kzalloc-Allocates_example :
    (p : ℕ) × (s' : Kernel) × (m : List Segment) × (kzalloc 5000 fresh ≡ some (p, s'))
    × (heap_address ≤ p)
    × (p + 5000 ≤ heap_address + heap_size_bytes)
    × ((i : ℕ) → i < 5000 → s'.memory (p + i) ≡ 0)
    × ((a : ℕ) → (a < p) ⊎ (p + 5000 ≤ a) → s'.memory a ≡ fresh.memory a)
    × Allocates (align_value_to_upper 5000 / heap_block_size) 0 (replicate 25600 vacant) m
    × Holds s'.kernel_heap m
kzalloc-Allocates_example =
    kzalloc-Allocates fresh (replicate 25600 vacant) 5000 0 fresh-Holds refl
      (let zero_byte : ℕ = 0 in length-replicate 25600 zero_byte) (omega arith) (omega arith) fits
