-- ===== src/Heap/Create.antt =====
-- heap_create and the kernel heap of kheap.c.
use peachos.Base.{
  ℕ, zero, suc, ◌+◌, ◌-◌, ◌*◌, ◌/◌, ◌%◌, ◌^◌, ◌≤◌, ◌<◌, ◌≡◌, refl, ap, ◌∙◌, sym, true, some, List,
  [], ◌∷◌, arith, length, replicate, drop, append-nil, length-replicate, ◌==◌, ◌⊎◌, ◌≢◌,
}
use peachos.Status.{ok, err, einvagr}
use peachos.Memory.{memset}
use peachos.Memory.Laws.{memset-fills}
use peachos.Heap.{Heap, HeapTable, block_size, create, validate_table, validate_alignment}
use peachos.Heap.Layout.{vacant, encode, Holds}

drop_all : (xs : List ℕ) → drop (length xs) xs ≡ []
drop_all [] = refl
drop_all (x ∷ xs) = drop_all xs

memset-whole : (es : List ℕ) (n : ℕ) → n ≡ length es → memset es 0 n ≡ some (replicate n 0)
memset-whole es n e =
    memset-fills es 0 n (omega arith)
    ∙ rw (e, drop_all es) (ap some (append-nil (replicate (length es) 0)))

pub encode-replicate : (n : ℕ) → replicate n 0 ≡ encode (replicate n vacant)
unfolding encode
encode-replicate zero = refl
encode-replicate (suc n) = ap (λ r. 0 ∷ r) (encode-replicate n)

-- Between two block boundaries, with one entry for each block, heap_create succeeds and the heap
-- holds free blocks only.
pub create-Holds :
    (h : Heap) (ptr end : ℕ) (table : HeapTable)
    → ptr ≤ end
    → end < 2 ^ 32
    → ptr % block_size ≡ 0
    → end % block_size ≡ 0
    → table.total * block_size ≡ end - ptr
    → table.total ≡ length table.entries
    → (h' : Heap) × (create h ptr end table ≡ some (h', ok tt))
      × Holds h' (replicate table.total vacant)
      × (h'.saddr ≡ ptr)
unfolding create validate_table validate_alignment
create-Holds h ptr end table le small a b t sized =
    let n = table.total in
    let cleared = memset-whole table.entries n sized in
    let count : (n == (end + 2 ^ 32 - ptr) % 2 ^ 32 / block_size) ≡ true = ground arith in
    (
      record { table = record { entries = replicate n 0; total = n }; saddr = ptr },
      ground (arith, cleared),
      record {
        table = encode-replicate n;
        sized = sym (length-replicate n 0);
        small = let zero_byte : ℕ = 0 in omega (arith, length-replicate n zero_byte);
      },
      refl,
    )

-- heap_create refuses a range that does not begin and end at a block boundary, and leaves the
-- heap as it was.
pub create-misaligned :
    (h : Heap) (ptr end : ℕ) (table : HeapTable)
    → (ptr % block_size ≢ 0) ⊎ (end % block_size ≢ 0)
    → create h ptr end table ≡ some (h, err einvagr)
unfolding create validate_alignment
create-misaligned h ptr end table off = ground arith

-- heap_create refuses a table whose count is not the number of blocks of an aligned range.
pub create-miscounted :
    (h : Heap) (ptr end : ℕ) (table : HeapTable)
    → ptr ≤ end
    → end < 2 ^ 32
    → ptr % block_size ≡ 0
    → end % block_size ≡ 0
    → table.total ≢ (end - ptr) / block_size
    → create h ptr end table ≡ some (record { table = table; saddr = ptr }, err einvagr)
unfolding create validate_alignment validate_table
create-miscounted h ptr end table le small a b off = ground arith
