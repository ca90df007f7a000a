-- ===== src/Heap/Layout.antt =====
-- The heap as a sequence of free blocks and allocations, which heap_malloc and heap_free refine.
use mathlib.Core.List.{map}
use peachos.Base.{
  ℕ, zero, suc, ◌+◌, ◌-◌, ◌^◌, ◌<◌, ◌≡◌, refl, ap, ◌∙◌, sym, Bool, true, false, Option, none, some,
  List, [], ◌∷◌, ◌++◌, arith, length, take, drop, replicate, append_assoc, Bool-cases, inl, inr,
  length-append, take-append, drop-append, length-replicate,
}
use peachos.Heap.{Heap, is_free}
use peachos.Heap.Runs.{free_run, first_fit, shift, shift-zero, shift-shift}
use peachos.Heap.Mark.{chain, tail_entries, length-chain}
use peachos.Heap.Laws.{IsSized}

-- A free block, or an allocation of `k + 1` blocks.
pub data Segment : Type 0 where
  vacant : Segment
  used : ℕ → Segment

unfoldable pub encode : List Segment → List ℕ
encode [] = []
encode (vacant ∷ l) = 0 ∷ encode l
encode (used k ∷ l) = chain (suc k) ++ encode l

-- The heap's table holds exactly the allocations of `l`, in order, and an int counts its entries.
pub record Holds (h : Heap) (l : List Segment) : Type 0 where
  pub table : h.table.entries ≡ encode l
  pub sized : IsSized h
  pub small : length h.table.entries < 2 ^ 31

-- `l` with an allocation of `n` blocks put for `n` free blocks, of which the first is at block `s`.
pub record Allocates (n s : ℕ) (l m : List Segment) : Type 0 where
  pub before : List Segment
  pub after : List Segment
  pub found : l ≡ before ++ (replicate n vacant ++ after)
  pub made : m ≡ before ++ (used (n - 1) ∷ after)
  pub block : s ≡ length (encode before)

map-append : (xs ys : List ℕ) → map is_free (xs ++ ys) ≡ map is_free xs ++ map is_free ys
map-append [] ys = refl
map-append (x ∷ xs) ys = ap (λ r. is_free x ∷ r) (map-append xs ys)

free-tail_entries : (k : ℕ) → map is_free (tail_entries k) ≡ replicate k false
unfolding tail_entries is_free
free-tail_entries zero = refl
free-tail_entries (suc zero) = refl
free-tail_entries (suc (suc k)) = ap (λ r. false ∷ r) (free-tail_entries (suc k))

free-chain : (k : ℕ) → map is_free (chain k) ≡ replicate k false
unfolding chain is_free
free-chain zero = refl
free-chain (suc zero) = refl
free-chain (suc (suc k)) = ap (λ r. false ∷ r) (free-tail_entries (suc k))

pub encode-append : (l m : List Segment) → encode (l ++ m) ≡ encode l ++ encode m
unfolding encode
encode-append [] m = refl
encode-append (vacant ∷ l) m = ap (λ r. 0 ∷ r) (encode-append l m)
encode-append (used k ∷ l) m =
    rw (encode-append l m) (sym (append_assoc (chain (suc k)) (encode l) (encode m)))

pub encode-vacant :
    (n : ℕ) (l : List Segment) → encode (replicate n vacant ++ l) ≡ replicate n 0 ++ encode l
unfolding encode
encode-vacant zero l = refl
encode-vacant (suc n) l = ap (λ r. 0 ∷ r) (encode-vacant n l)

-- Free blocks at the front of the table are free segments at the front of the layout.
free_run-vacant :
    (n : ℕ) (l : List Segment)
    → free_run n (map is_free (encode l)) ≡ true
    → (m : List Segment) × (l ≡ replicate n vacant ++ m)
unfolding free_run encode is_free
free_run-vacant zero l h = (l, refl)
free_run-vacant (suc n) [] h = absurd (cc)
free_run-vacant (suc n) (vacant ∷ l) h =
    let (m, e) = free_run-vacant n l h in (m, ap (λ r. vacant ∷ r) e)
free_run-vacant (suc n) (used k ∷ l) h =
    let e = rw (map-append (chain (suc k)) (encode l), free-chain (suc k)) at h in absurd (cc)

first_fit-taken :
    (k n : ℕ) (fs : List Bool)
    → 0 < n
    → first_fit n (replicate k false ++ fs) ≡ shift k (first_fit n fs)
unfolding first_fit free_run
first_fit-taken k zero fs p = absurd (omega arith)
first_fit-taken zero (suc n) fs p = sym (shift-zero (first_fit (suc n) fs))
first_fit-taken (suc k) (suc n) fs p =
    rw (first_fit-taken k (suc n) fs p) (
      shift-shift 1 k (first_fit (suc n) fs)
      ∙ ap (λ t. shift t (first_fit (suc n) fs)) (one_more k))
  where
    one_more : (k : ℕ) → 1 + k ≡ suc k
    one_more k = omega arith

length-skip :
    (x : Segment) (l : List Segment)
    → length (encode (x ∷ l)) ≡ length (encode (x ∷ [])) + length (encode l)
unfolding encode
length-skip vacant l = omega arith
length-skip (used k) l =
    omega (arith, length-append (chain (suc k)) (encode l), length-append (chain (suc k)) [])

-- A step over the first segment of a layout.
skip :
    (x : Segment) {n s t : ℕ} {l m : List Segment}
    → Allocates n t l m
    → s ≡ length (encode (x ∷ [])) + t
    → Allocates n s (x ∷ l) (x ∷ m)
skip x a e = record {
  before = x ∷ a.before;
  after = a.after;
  found = ap (λ r. x ∷ r) a.found;
  made = ap (λ r. x ∷ r) a.made;
  block = omega (arith, length-skip x a.before);
}

unshift : (k : ℕ) (o : Option ℕ) (s : ℕ) → shift k o ≡ some s → (t : ℕ) × (o ≡ some t) × (s ≡ k + t)
unshift k none s e = absurd (cc)
unshift k (some t) s e = (t, refl, ground arith)

-- First fit over the table finds first free blocks of the layout that stand together.
pub first_fit-Allocates :
    (n s : ℕ) (l : List Segment)
    → 0 < n
    → first_fit n (map is_free (encode l)) ≡ some s
    → (m : List Segment) × Allocates n s l m
unfolding first_fit encode
first_fit-Allocates n s [] p h = absurd (cc)
first_fit-Allocates n s (vacant ∷ l) p h =
    elim (Bool-cases (free_run n (map is_free (encode (vacant ∷ l))))) [
      | inl run ↦
          let (m, e) = free_run-vacant n (vacant ∷ l) run in
          let z : s ≡ 0 = ground arith in
          (used (n - 1) ∷ m, record { before = []; after = m; found = e; made = refl; block = z })
      | inr no_run ↦
          let (t, e, d) = unshift 1 (first_fit n (map is_free (encode l))) s (rw no_run at h) in
          let (m, a) = first_fit-Allocates n t l p e in (vacant ∷ m, skip vacant a d)
    ]
first_fit-Allocates n s (used k ∷ l) p h =
    let h' =
      rw
        (
          map-append (chain (suc k)) (encode l),
          free-chain (suc k),
          first_fit-taken (suc k) n (map is_free (encode l)) p,
        )
        at h in
    let (t, e, d) = unshift (suc k) (first_fit n (map is_free (encode l))) s h' in
    let (m, a) = first_fit-Allocates n t l p e in
    let len : length (encode (used k ∷ [])) ≡ suc k =
      omega (arith, length-append (chain (suc k)) [], length-chain (suc k)) in
    (used k ∷ m, skip (used k) a (omega (arith, d)))

-- Replacing a middle part of known place and length.
replace :
    (b o a v : List ℕ) (s n : ℕ)
    → s ≡ length b
    → n ≡ length o
    → let es = b ++ (o ++ a) in take s es ++ (v ++ drop n (drop s es)) ≡ b ++ (v ++ a)
replace b o a v s n e d = rw (e, d, take-append b (o ++ a), drop-append b (o ++ a), drop-append o a)

-- The table with free blocks where `l` has them, and with the new allocation.
pub Allocates-found :
    {n s : ℕ} {l m : List Segment} (a : Allocates n s l m)
    → encode l ≡ encode a.before ++ (replicate n 0 ++ encode a.after)
Allocates-found {n} a =
    ap encode a.found
    ∙ encode-append a.before (replicate n vacant ++ a.after)
    ∙ ap (λ r. encode a.before ++ r) (encode-vacant n a.after)

pub Allocates-made :
    {n s : ℕ} {l m : List Segment} (a : Allocates n s l m)
    → 0 < n
    → encode m ≡ encode a.before ++ (chain n ++ encode a.after)
unfolding encode
Allocates-made {n} a p =
    let whole : suc (n - 1) ≡ n = omega arith in
    ap encode a.made
    ∙ encode-append a.before (used (n - 1) ∷ a.after)
    ∙ ap (λ k. encode a.before ++ (chain k ++ encode a.after)) whole

pub Allocates-entries :
    {n s : ℕ} {l m : List Segment} (a : Allocates n s l m)
    → 0 < n
    → let es = encode l in take s es ++ (chain n ++ drop n (drop s es)) ≡ encode m
Allocates-entries {n} {s} a p =
    rw (Allocates-found a, Allocates-made a p)
      (replace (encode a.before) (replicate n 0) (encode a.after) (chain n) s n a.block
        (sym (length-replicate n 0)))

pub length-Allocates :
    {n s : ℕ} {l m : List Segment} (a : Allocates n s l m)
    → 0 < n
    → length (encode m) ≡ length (encode l)
length-Allocates {n} a p =
    rw (Allocates-found a, Allocates-made a p)
      (omega (
        arith,
        length-append (encode a.before) (replicate n 0 ++ encode a.after),
        length-append (encode a.before) (chain n ++ encode a.after),
        length-append (replicate n 0) (encode a.after),
        length-append (chain n) (encode a.after),
        length-chain n,
        length-replicate {A = ℕ} n 0,
      ))
