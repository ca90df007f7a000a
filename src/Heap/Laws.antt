-- ===== src/Heap/Laws.antt =====
-- heap_malloc_blocks on every outcome of the search, at the level of the table's entries.
use mathlib.Core.List.{map}
use peachos.Base.{
  ℕ, zero, suc, ◌<◌, ◌≡◌, refl, ap, ◌∙◌, Bool, none, some, List, [], ◌∷◌, ◌++◌, arith, length, take,
  drop, ◌+◌, ◌≤◌, ◌^◌,
}
use peachos.Heap.{Heap, is_free, get_start_block, block_to_address, malloc_blocks}
use peachos.Heap.FirstFit.{get_start_block-find_run, first_fit-within, last_run-short_of}
use peachos.Heap.Runs.{first_fit, last_run, find_run}
use peachos.Heap.Mark.{chain, with_entries, mark_blocks_taken-chain, mark_blocks_taken-faults}

-- The table's count is the length of its array.
abbrev pub IsSized : Heap → Type 0
IsSized h = h.table.total ≡ length h.table.entries

abbrev pub free_blocks : Heap → List Bool
free_blocks h = map is_free h.table.entries

pub length-map : (f : ℕ → Bool) (xs : List ℕ) → length (map f xs) ≡ length xs
length-map f [] = refl
length-map f (x ∷ xs) = ap suc (length-map f xs)

take_all : (xs : List ℕ) (n : ℕ) → n ≡ length xs → take n xs ≡ xs
take_all [] zero e = refl
take_all [] (suc n) e = refl
take_all (x ∷ xs) zero e = absurd (omega arith)
take_all (x ∷ xs) (suc n) e = ap (λ r. x ∷ r) (take_all xs n (omega arith))

module _ (h : Heap) (n : ℕ) (sized : IsSized h) (some_block : 0 < n) where
  pub search_lem : get_start_block h n ≡ find_run n (free_blocks h)
  search_lem =
      get_start_block-find_run h n some_block
      ∙ ap (λ es. find_run n (map is_free es)) (take_all h.table.entries h.table.total sized)

  -- In a table of fewer than 2 ^ 31 entries, where enough free blocks stand together, heap_malloc_blocks returns the address of the first
  -- such run, marks its blocks as one allocation and changes nothing else.
  pub malloc_blocks-fits :
      (s : ℕ)
      → length h.table.entries < 2 ^ 31
      → first_fit n (free_blocks h) ≡ some s
      → let es = h.table.entries in
        malloc_blocks h n
        ≡ some (block_to_address h s, with_entries h (take s es ++ (chain n ++ drop n (drop s es))))
  unfolding malloc_blocks
  malloc_blocks-fits s small fit =
      let found : get_start_block h n ≡ some s = search_lem ∙ rw fit refl in
      let room : s + n ≤ length h.table.entries =
        omega
          (arith, first_fit-within n s (free_blocks h) fit, length-map is_free h.table.entries) in
      rw (found, malloc_blocks, mark_blocks_taken-chain h s n some_block room (omega arith)) refl

  -- Where no run is long enough and the last block is taken, it returns NULL and changes nothing.
  pub malloc_blocks-full :
      first_fit n (free_blocks h) ≡ none
      → last_run (free_blocks h) ≡ none
      → malloc_blocks h n ≡ some (0, h)
  unfolding malloc_blocks
  malloc_blocks-full no_fit no_last =
      let lost : get_start_block h n ≡ none = search_lem ∙ rw (no_fit, no_last) refl in
      rw (lost, malloc_blocks) refl

  -- A request of at least one block, where no run of free blocks is long enough, the last block is
  -- free, and the request ends at most 2 ^ 31 blocks after the start of the heap if it is put where
  -- the free blocks at the end begin: heap_malloc_blocks marks blocks past the end of the table
  -- instead of returning NULL.
  pub malloc_blocks-overruns :
      (s : ℕ)
      → first_fit n (free_blocks h) ≡ none
      → last_run (free_blocks h) ≡ some s
      → s + n ≤ 2 ^ 31
      → malloc_blocks h n ≡ none
  unfolding malloc_blocks
  malloc_blocks-overruns s no_fit at_end short =
      let found : get_start_block h n ≡ some s = search_lem ∙ rw (no_fit, at_end) refl in
      let over : length h.table.entries < s + n = omega (
        arith,
        last_run-short_of n s (free_blocks h) no_fit at_end,
        length-map is_free h.table.entries,
      ) in
      rw (found, malloc_blocks, mark_blocks_taken-faults h s n some_block over short) refl
