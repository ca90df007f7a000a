-- ===== src/Kheap.antt =====
-- src/memory/heap/kheap.c: the kernel's heap over heap.c. The memory is the byte at each address; of
-- the table of entries at PEACHOS_HEAP_TABLE_ADDRESS only the list of its bytes enters.
pub mod Laws
mod Tests
use peachos.Base.{ℕ, zero, suc, ◌+◌, ◌*◌, ◌/◌, Option, none, some, List, ◌>>=◌, ◌==◌, if◌then◌else◌}
use peachos.Memory.Fill.{fill}
use peachos.Heap.{Heap, HeapTable, create, malloc, free}

abbrev pub heap_size_bytes : ℕ
heap_size_bytes = 104857600

abbrev pub heap_block_size : ℕ
heap_block_size = 4096

abbrev pub heap_address : ℕ
heap_address = 0x01000000

pub record Kernel : Type 0 where
  pub kernel_heap : Heap
  pub memory : ℕ → ℕ

-- With what stands in `kernel_heap` and at the address of the table. An error is only printed.
unfoldable pub kheap_init : Heap → List ℕ → Option Heap
kheap_init kernel_heap entries = do
  let table : HeapTable = record { entries = entries; total = heap_size_bytes / heap_block_size }
  (heap, res) ← create kernel_heap heap_address (heap_address + heap_size_bytes) table
  some heap

unfoldable pub kmalloc : ℕ → Kernel → Option (ℕ × Kernel)
kmalloc size s = do
  (ptr, heap) ← malloc s.kernel_heap size
  some (ptr, record s { kernel_heap = heap })

unfoldable pub kzalloc : ℕ → Kernel → Option (ℕ × Kernel)
kzalloc size s = do
  (ptr, s') ← kmalloc size s
  some (if ptr == 0 then (0, s') else (ptr, record s' { memory = fill size ptr 0 s'.memory }))

unfoldable pub kfree : ℕ → Kernel → Option Kernel
kfree ptr s = do heap ← free s.kernel_heap ptr; some (record s { kernel_heap = heap })
