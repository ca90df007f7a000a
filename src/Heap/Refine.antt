-- ===== src/Heap/Refine.antt =====
-- heap_malloc_blocks and heap_free as operations on layouts.

use mathlib.Core.Path.{subst}
use peachos.Base.{
  ℕ, suc, ◌*◌, ◌^◌, ◌≤◌, ◌<◌, ◌≡◌, refl, ap, ◌∙◌, sym, some, List, ◌∷◌, ◌++◌, arith, length, take,
  drop, replicate, length-append, length-replicate, ◌-◌,
}
use peachos.Heap.{Heap, block_size, block_to_address, malloc_blocks, free}
use peachos.Heap.Runs.{first_fit}
use peachos.Heap.Mark.{chain, with_entries, mark_blocks_free-chain, length-chain}
use peachos.Heap.Address.{address_to_block-start}
use peachos.Heap.Laws.{free_blocks, malloc_blocks-fits}
use peachos.Heap.Layout.{
  Segment, vacant, used, encode, Holds, Allocates, first_fit-Allocates, Allocates-entries,
  length-Allocates, encode-append, encode-vacant,
}

-- In a heap that holds the layout `l`, a request of `n` blocks that fits somewhere returns the
-- address of the first place where it fits, and the heap holds `l` with the allocation made there.
pub malloc_blocks-Allocates :
    (h : Heap) (l : List Segment) (n s : ℕ)
    → Holds h l
    → 0 < n
    → first_fit n (free_blocks h) ≡ some s
    → (m : List Segment) × Allocates n s l m
      × (malloc_blocks h n ≡ some (block_to_address h s, with_entries h (encode m)))
      × Holds (with_entries h (encode m)) m
malloc_blocks-Allocates h l n s holds p fit =
    let (m, a) = first_fit-Allocates n s l p (rw (holds.table) at fit) in
    let new =
      ap (λ es. take s es ++ (chain n ++ drop n (drop s es))) (holds.table)
      ∙ Allocates-entries a p in
    (
      m,
      a,
      malloc_blocks-fits h n holds.sized p s holds.small fit
          ∙ ap (λ es. some (block_to_address h s, with_entries h es)) new,
      record {
        table = refl;
        sized = omega (arith, holds.sized, ap length holds.table, length-Allocates a p);
        small = omega (arith, holds.small, ap length holds.table, length-Allocates a p);
      },
    )

encode-freed :
    (before after : List Segment) (n : ℕ)
    → encode (before ++ (replicate n vacant ++ after))
      ≡ encode before ++ (replicate n 0 ++ encode after)
encode-freed before after n =
    encode-append before (replicate n vacant ++ after)
    ∙ ap (λ r. encode before ++ r) (encode-vacant n after)

length-middle :
    (b o v a : List ℕ) → length o ≡ length v → length (b ++ (o ++ a)) ≡ length (b ++ (v ++ a))
length-middle b o v a e = omega (
  arith,
  length-append b (o ++ a),
  length-append b (v ++ a),
  length-append o a,
  length-append v a,
)

-- heap_free of an allocation's address frees its blocks and no other.
pub free-Holds :
    (h : Heap) (before after : List Segment) (k : ℕ)
    → Holds h (before ++ (used k ∷ after))
    → h.saddr < 2 ^ 32
    → length h.table.entries * block_size ≤ 2 ^ 31
    → let l = before ++ (replicate (suc k) vacant ++ after) in
      (free h (block_to_address h (length (encode before))) ≡ some (with_entries h (encode l)))
      × Holds (with_entries h (encode l)) l
unfolding free encode
free-Holds h before after k holds small fits =
    let s = length (encode before) in
    let n = suc k in
    let e : h.table.entries ≡ encode before ++ (chain n ++ encode after) =
      holds.table ∙ encode-append before (used k ∷ after) in
    let inside : s * block_size < 2 ^ 31 = omega (
      arith,
      ap length e,
      length-append (encode before) (chain n ++ encode after),
      length-append (chain n) (encode after),
      length-chain n,
    ) in
    let same =
      length-middle (encode before) (chain n) (replicate n 0) (encode after)
        (length-chain n ∙ sym (length-replicate n 0)) in
    (
      rw (encode-freed before after n, address_to_block-start h s small inside)
          (mark_blocks_free-chain h (encode before) (encode after) s n e holds.sized refl
            (omega arith)),
      record {
        table = refl;
        sized =
            omega (arith, holds.sized, ap length e, ap length (encode-freed before after n), same);
        small =
            omega (arith, holds.small, ap length e, ap length (encode-freed before after n), same);
      },
    )

-- Freeing what heap_malloc_blocks has just returned restores the heap.
pub free-malloc_blocks :
    (h : Heap) (l : List Segment) (n s : ℕ)
    → Holds h l
    → 0 < n
    → first_fit n (free_blocks h) ≡ some s
    → h.saddr < 2 ^ 32
    → length h.table.entries * block_size ≤ 2 ^ 31
    → (p : ℕ) × (h' : Heap) × (malloc_blocks h n ≡ some (p, h')) × (free h' p ≡ some h)
unfolding block_to_address
free-malloc_blocks h l n s holds p fit small fits =
    let (m, a, e, holds') = malloc_blocks-Allocates h l n s holds p fit in
    let whole : suc (n - 1) ≡ n = omega arith in
    let h' = with_entries h (encode m) in
    let freed =
      free-Holds h' a.before a.after (n - 1) (subst (λ r. Holds h' r) a.made holds') small
        (omega (arith, ap length holds.table, length-Allocates a p)) in
    let back : encode (a.before ++ (replicate (suc (n - 1)) vacant ++ a.after)) ≡ h.table.entries =
      ap (λ k. encode (a.before ++ (replicate k vacant ++ a.after))) whole
      ∙ ap encode (sym a.found)
      ∙ sym holds.table in
    (
      block_to_address h s,
      h',
      e,
      ap (λ b. free h' (block_to_address h b)) a.block
          ∙ freed.0
          ∙ ap (λ es. some (with_entries h es)) back,
    )
