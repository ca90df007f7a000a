-- ===== src/Heap/Mark.antt =====
-- The entries that heap_mark_blocks_taken writes and heap_mark_blocks_free clears.
use peachos.Base.{
  ℕ, zero, suc, ◌+◌, ◌-◌, ◌^◌, Bool-cases, ◌≤◌, ◌<◌, ◌≡◌, refl, ap, ◌∙◌, none, some, List, [], ◌∷◌,
  ◌++◌, arith, length, take, drop, replicate, if◌then◌else◌, ◌==◌, inl, inr, Option-cases,
  append_assoc, set?, get_elem?-at, set?-at, snoc_length, length-set?, length-take, length-drop,
  cut_twice, set?-none, false, ltb, true, length-append,
}
use peachos.Heap.{Heap, mark_loop, mark_blocks_taken, free_loop, mark_blocks_free}

-- The entries of the `n` blocks behind the first of an allocation.
unfoldable pub tail_entries : ℕ → List ℕ
tail_entries zero = []
tail_entries (suc zero) = 0x01 ∷ []
tail_entries (suc (suc n)) = 0x81 ∷ tail_entries (suc n)

-- The entries of an allocation of `n` blocks.
unfoldable pub chain : ℕ → List ℕ
unfolding tail_entries
chain zero = []
chain (suc zero) = 0x41 ∷ []
chain (suc (suc n)) = 0xC1 ∷ tail_entries (suc n)

abbrev pub with_entries : Heap → List ℕ → Heap
with_entries h es = record h { table = record (h.table) { entries = es } }

length-tail_entries : (n : ℕ) → length (tail_entries n) ≡ n
unfolding tail_entries
length-tail_entries zero = refl
length-tail_entries (suc zero) = refl
length-tail_entries (suc (suc n)) = ap suc (length-tail_entries (suc n))

pub length-chain : (n : ℕ) → length (chain n) ≡ n
unfolding chain
length-chain zero = refl
length-chain (suc zero) = refl
length-chain (suc (suc n)) = ap suc (length-tail_entries (suc n))

-- What the marking loop writes with `n` rounds left and `entry` next.
written : ℕ → ℕ → List ℕ
written zero entry = []
written (suc n) entry = entry ∷ written n (if n == 1 then 0x01 else 0x81)

written-tail : (n : ℕ) → written n (if n == 1 then 0x01 else 0x81) ≡ tail_entries n
unfolding written tail_entries
written-tail zero = refl
written-tail (suc zero) = refl
written-tail (suc (suc n)) =
    let more : (suc (suc n) == 1) ≡ false = ground arith in
    rw more (ap (λ r. 0x81 ∷ r) (written-tail (suc n)))

mark_loop-written :
    (n i end entry : ℕ) (before old after : List ℕ)
    → i ≡ length before
    → length old ≡ n
    → i + n ≡ end + 1
    → mark_loop n i end entry (before ++ (old ++ after))
      ≡ some (before ++ (written n entry ++ after))
unfolding mark_loop written
mark_loop-written zero i end entry before [] after e l f = refl
mark_loop-written zero i end entry before (x ∷ old) after e l f = absurd (omega arith)
mark_loop-written (suc n) i end entry before [] after e l f = absurd (omega arith)
mark_loop-written (suc n) i end entry before (x ∷ old) after e l f =
    let same : (i + 1 == end) ≡ (n == 1) = ground arith in
    rw (set?-at before x (old ++ after) i entry e, same)
      (mark_loop-written n (i + 1) end (if n == 1 then 0x01 else 0x81) (before ++ (entry ∷ [])) old
          after (snoc_length before entry i e) (omega arith) (omega arith)
        ∙ ap some (append_assoc before (entry ∷ []) _))

written-chain : (n : ℕ) → written n (if ltb 1 n then 0xC1 else 0x41) ≡ chain n
unfolding written chain
written-chain zero = refl
written-chain (suc zero) = refl
written-chain (suc (suc n)) =
    let long : ltb 1 (suc (suc n)) ≡ true = ground arith in
    rw long (ap (λ r. 0xC1 ∷ r) (written-tail (suc n)))

-- Inside the table heap_mark_blocks_taken writes the entries of one allocation and no other.
pub mark_blocks_taken-chain :
    (h : Heap) (s n : ℕ)
    → 0 < n
    → s + n ≤ length h.table.entries
    → s + n < 2 ^ 31
    → let es = h.table.entries in
      mark_blocks_taken h s n ≡ some (with_entries h (take s es ++ (chain n ++ drop n (drop s es))))
unfolding mark_blocks_taken
mark_blocks_taken-chain h s n p fits short =
    let runs : ltb (s + n) (2 ^ 31) ≡ true = ground arith in
    let es = h.table.entries in
    let old = take n (drop s es) in
    let after = drop n (drop s es) in
    let entry : ℕ = if ltb 1 n then 0xC1 else 0x41 in
    let w =
      mark_loop-written n s (s + n - 1) entry (take s es) old after
        (omega (arith, length-take s es))
        (omega (arith, length-take n (drop s es), length-drop s es)) (omega arith) in
    let w' = rw (cut_twice es s n, written-chain n) at w in rw (runs, w') refl

mark_loop-faults :
    (n i end entry : ℕ) (es : List ℕ)
    → 0 < n
    → length es < i + n
    → mark_loop n i end entry es ≡ none
unfolding mark_loop
mark_loop-faults zero i end entry es p h = absurd (omega arith)
mark_loop-faults (suc zero) i end entry es p h = rw (set?-none es i entry (omega arith))
mark_loop-faults (suc (suc n)) i end entry es p h = elim (Option-cases (set? es i entry)) [
  | inl out ↦ rw out
  | inr (es', w) ↦ rw w (
      mark_loop-faults (suc n) (i + 1) end _ es' (omega arith)
        (omega (arith, length-set? es i entry es' w)))
]

-- Past the end of the table heap_mark_blocks_taken writes outside it.
pub mark_blocks_taken-faults :
    (h : Heap) (s n : ℕ)
    → 0 < n
    → length h.table.entries < s + n
    → s + n ≤ 2 ^ 31
    → mark_blocks_taken h s n ≡ none
unfolding mark_blocks_taken
mark_blocks_taken-faults h s n p over short =
    let entry : ℕ = if ltb 1 n then 0xC1 else 0x41 in
    let out = mark_loop-faults n s (s + n - 1) entry h.table.entries p over in
    elim (Bool-cases (ltb (s + n) (2 ^ 31))) [
      | inl runs ↦ rw (runs, out) refl
      | inr at_end ↦ let last : (s + n == 2 ^ 31) ≡ true = ground arith in rw (at_end, last) refl
    ]

free_loop-tail :
    (m rounds i : ℕ) (before after : List ℕ)
    → i ≡ length before
    → suc m ≤ rounds
    → free_loop rounds i (before ++ (tail_entries (suc m) ++ after))
      ≡ some (before ++ (replicate (suc m) 0 ++ after))
unfolding free_loop tail_entries
free_loop-tail m zero i before after e h = absurd (omega arith)
free_loop-tail zero (suc rounds) i before after e h =
    rw (get_elem?-at before 0x01 after i e, set?-at before 0x01 after i 0 e)
      (ap some (append_assoc before (0 ∷ []) after))
free_loop-tail (suc m) (suc rounds) i before after e h =
    let rest = tail_entries (suc m) ++ after in
    rw (get_elem?-at before 0x81 rest i e, set?-at before 0x81 rest i 0 e)
      (free_loop-tail m rounds (i + 1) (before ++ (0 ∷ [])) after (snoc_length before 0 i e)
          (omega arith)
        ∙ ap some (append_assoc before (0 ∷ []) (replicate (suc m) 0 ++ after)))

free_loop-chain :
    (n rounds i : ℕ) (before after : List ℕ)
    → i ≡ length before
    → 0 < n
    → n ≤ rounds
    → free_loop rounds i (before ++ (chain n ++ after)) ≡ some (before ++ (replicate n 0 ++ after))
unfolding free_loop chain
free_loop-chain zero rounds i before after e p h = absurd (omega arith)
free_loop-chain (suc n) zero i before after e p h = absurd (omega arith)
free_loop-chain (suc zero) (suc rounds) i before after e p h =
    rw (get_elem?-at before 0x41 after i e, set?-at before 0x41 after i 0 e)
      (ap some (append_assoc before (0 ∷ []) after))
free_loop-chain (suc (suc n)) (suc rounds) i before after e p h =
    let rest = tail_entries (suc n) ++ after in
    rw (get_elem?-at before 0xC1 rest i e, set?-at before 0xC1 rest i 0 e)
      (free_loop-tail n rounds (i + 1) (before ++ (0 ∷ [])) after (snoc_length before 0 i e)
          (omega arith)
        ∙ ap some (append_assoc before (0 ∷ []) (replicate (suc n) 0 ++ after)))

-- heap_mark_blocks_free at the first block of an allocation clears its entries and no other.
pub mark_blocks_free-chain :
    (h : Heap) (before after : List ℕ) (s n : ℕ)
    → h.table.entries ≡ before ++ (chain n ++ after)
    → h.table.total ≡ length h.table.entries
    → s ≡ length before
    → 0 < n
    → mark_blocks_free h s ≡ some (with_entries h (before ++ (replicate n 0 ++ after)))
unfolding mark_blocks_free
mark_blocks_free-chain h before after s n e t l p =
    let room : n ≤ h.table.total - s = omega (
      arith,
      ap length e,
      length-append before (chain n ++ after),
      length-append (chain n) after,
      length-chain n,
    ) in
    rw (e, free_loop-chain n (h.table.total - s) s before after l p room) refl
