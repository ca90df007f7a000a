-- ===== src/Kheap/Laws.antt =====
-- What an allocation of the kernel gives.
use peachos.Base.{
  ℕ, ◌+◌, ◌-◌, ◌*◌, ◌/◌, ◌^◌, ◌≤◌, ◌<◌, ◌≡◌, refl, some, List, arith, ◌==◌, length, replicate, ◌⊎◌,
  inl, inr, false,
}
use peachos.Heap.{Heap, is_free, block_to_address, align_value_to_upper, malloc}
use peachos.Heap.FirstFit.{first_fit-within}
use peachos.Heap.Runs.{first_fit}
use peachos.Heap.Address.{blocks_for}
use peachos.Heap.Mark.{with_entries}
use peachos.Heap.Laws.{free_blocks, length-map}
use peachos.Heap.Create.{create-Holds}
use peachos.Heap.Layout.{Segment, vacant, encode, Holds, Allocates}
use peachos.Heap.Refine.{malloc_blocks-Allocates}
use peachos.Memory.Fill.{fill, fill-before, fill-after, fill-inside}
use peachos.Kheap.{
  Kernel, heap_size_bytes, heap_block_size, heap_address, kheap_init, kmalloc, kzalloc,
}

-- The first `size` bytes of `n` blocks, from block `b` on, lie inside the heap.
start_bounds :
    (h : Heap) (size b n : ℕ)
    → h.saddr ≡ heap_address
    → size ≤ n * 4096
    → b + n ≤ heap_size_bytes / heap_block_size
    → 0 < n
    → (heap_address ≤ block_to_address h b)
      × (block_to_address h b + size ≤ heap_address + heap_size_bytes)
unfolding block_to_address
start_bounds h size b n e fits room p = ground (arith)

-- In a kernel whose heap begins at PEACHOS_HEAP_ADDRESS, has an entry for each block and holds a
-- layout, a request of `size` bytes, at least one and at most 2 ^ 32 - 4096, for which enough free
-- blocks stand together: kzalloc returns an address from which `size` bytes lie inside the
-- kernel's heap, all of them zero. It changes no other byte, but for the table's own, and the heap
-- holds the layout with an allocation made at the first place that fits.
pub kzalloc-Allocates :
    (s : Kernel) (l : List Segment) (size b : ℕ)
    → Holds s.kernel_heap l
    → s.kernel_heap.saddr ≡ heap_address
    → length s.kernel_heap.table.entries ≡ heap_size_bytes / heap_block_size
    → 0 < size
    → size ≤ 2 ^ 32 - heap_block_size
    → let n = align_value_to_upper size / heap_block_size in
      first_fit n (free_blocks s.kernel_heap) ≡ some b
      → (p : ℕ) × (s' : Kernel) × (m : List Segment) × (kzalloc size s ≡ some (p, s'))
        × (heap_address ≤ p)
        × (p + size ≤ heap_address + heap_size_bytes)
        × ((i : ℕ) → i < size → s'.memory (p + i) ≡ 0)
        × ((a : ℕ) → (a < p) ⊎ (p + size ≤ a) → s'.memory a ≡ s.memory a)
        × Allocates (align_value_to_upper size / heap_block_size) b l m
        × Holds s'.kernel_heap m
unfolding kzalloc kmalloc malloc
kzalloc-Allocates s l size b holds at_start whole some_size small fit =
    let n = align_value_to_upper size / heap_block_size in
    let (enough, tight) = blocks_for size small in
    let some_block : 0 < n = omega arith in
    let (m, a, e, holds') = malloc_blocks-Allocates s.kernel_heap l n b holds some_block fit in
    let room : b + n ≤ heap_size_bytes / heap_block_size = omega (
      arith,
      first_fit-within n b (free_blocks s.kernel_heap) fit,
      length-map is_free s.kernel_heap.table.entries,
      whole,
    ) in
    let (low, high) = start_bounds s.kernel_heap size b n at_start enough room some_block in
    let p = block_to_address s.kernel_heap b in
    let not_null : (p == 0) ≡ false = ground arith in
    (
      p,
      record {
        kernel_heap = with_entries s.kernel_heap (encode m);
        memory = fill size p 0 s.memory;
      },
      m,
      rw (e, not_null) refl,
      low,
      high,
      λ i h. fill-inside size p 0 (p + i) s.memory (omega arith) (omega arith),
      λ x. elim [
        | inl below ↦ fill-before size p 0 x s.memory below
        | inr above ↦ fill-after size p 0 x s.memory above
      ],
      a,
      holds',
    )

-- With one byte of the table for each block, kheap_init leaves a heap at PEACHOS_HEAP_ADDRESS with
-- free blocks only.
pub kheap_init-Holds :
    (kernel_heap : Heap) (entries : List ℕ)
    → length entries ≡ heap_size_bytes / heap_block_size
    → (h : Heap) × (kheap_init kernel_heap entries ≡ some h)
      × Holds h (replicate (heap_size_bytes / heap_block_size) vacant)
      × (h.saddr ≡ heap_address)
unfolding kheap_init
kheap_init-Holds kernel_heap entries whole =
    let (h, e, holds, at_start) =
      create-Holds kernel_heap heap_address (heap_address + heap_size_bytes)
        (record { entries = entries; total = heap_size_bytes / heap_block_size }) (omega arith)
        (omega arith) (omega arith) (omega arith) (omega arith) (omega (arith, whole)) in
    (h, rw e refl, holds, at_start)
