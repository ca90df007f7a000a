-- ===== src/Heap/Tests.antt =====
-- The heap's theorems on a table of six blocks.
use mathlib.Core.List.{map}
use peachos.Base.{ℕ, ◌≡◌, refl, arith, none, some, List, [], ◌∷◌, ◌++◌, replicate}
use peachos.Heap.{
  Heap, HeapTable, is_free, get_start_block, block_to_address, malloc_blocks, malloc, free,
}
use peachos.Heap.FirstFit.{get_start_block-find_run}
use peachos.Heap.Runs.{first_fit, last_run, find_run}
use peachos.Heap.Mark.{chain, with_entries}
use peachos.Heap.Laws.{free_blocks, malloc_blocks-overruns}
use peachos.Heap.Layout.{Segment, vacant, used, encode, Holds, Allocates}
use peachos.Heap.Refine.{malloc_blocks-Allocates, free-Holds, free-malloc_blocks}

abbrev heap_of : List ℕ → Heap
heap_of es = record { table = record { entries = es; total = 6 }; saddr = 0x1000000 }

-- A hole of one block, an allocation of two, and three free blocks.
abbrev layout : List Segment
layout = vacant ∷ used 1 ∷ vacant ∷ vacant ∷ vacant ∷ []

abbrev heap : Heap
heap = heap_of (0 ∷ 0xC1 ∷ 0x01 ∷ 0 ∷ 0 ∷ 0 ∷ [])

abbrev full : Heap
full = heap_of (0 ∷ 0xC1 ∷ 0x81 ∷ 0x81 ∷ 0x81 ∷ 0x01 ∷ [])

heap-Holds : Holds heap layout
unfolding encode chain
heap-Holds = record { table = refl; sized = refl; small = omega arith }

fits_at_three : first_fit 2 (free_blocks heap) ≡ some 3
unfolding first_fit is_free
fits_at_three = refl

malloc_runs : malloc heap 5000 ≡ some (0x1003000, heap_of (0 ∷ 0xC1 ∷ 0x01 ∷ 0xC1 ∷ 0x01 ∷ 0 ∷ []))
unfolding malloc
malloc_runs = refl

free_runs : free heap 0x1001000 ≡ some (heap_of (0 ∷ 0 ∷ 0 ∷ 0 ∷ 0 ∷ 0 ∷ []))
unfolding free
free_runs = refl

malloc_blocks-Allocates_example :
    (m : List Segment) × Allocates 2 3 layout m
    × (malloc_blocks heap 2 ≡ some (block_to_address heap 3, with_entries heap (encode m)))
    × Holds (with_entries heap (encode m)) m
malloc_blocks-Allocates_example =
    malloc_blocks-Allocates heap layout 2 3 heap-Holds (omega arith) fits_at_three

free-Holds_example :
    let l = (vacant ∷ []) ++ (replicate 2 vacant ++ (vacant ∷ vacant ∷ vacant ∷ [])) in
    (free heap (block_to_address heap 1) ≡ some (with_entries heap (encode l)))
    × Holds (with_entries heap (encode l)) l
unfolding encode
free-Holds_example =
    free-Holds heap (vacant ∷ []) (vacant ∷ vacant ∷ vacant ∷ []) 1 heap-Holds (omega arith)
      (omega arith)

free-malloc_blocks_example :
    (p : ℕ) × (h' : Heap) × (malloc_blocks heap 2 ≡ some (p, h')) × (free h' p ≡ some heap)
free-malloc_blocks_example =
    free-malloc_blocks heap layout 2 3 heap-Holds (omega arith) fits_at_three (omega arith)
      (omega arith)

get_start_block-find_run_example :
    get_start_block heap 2 ≡ find_run 2 (map is_free (0 ∷ 0xC1 ∷ 0x01 ∷ 0 ∷ 0 ∷ 0 ∷ []))
get_start_block-find_run_example = get_start_block-find_run heap 2 (omega arith)

-- Four blocks asked for where three are left.
malloc_blocks-overruns_example : malloc_blocks heap 4 ≡ none
unfolding first_fit last_run is_free
malloc_blocks-overruns_example =
    malloc_blocks-overruns heap 4 refl (omega arith) 3 refl refl (omega arith)

abbrev raw_table : HeapTable
raw_table = record { entries = 7 ∷ 7 ∷ []; total = 2 }
