-- ===== src/Memory/Laws.antt =====
-- What the three byte loops of memory.c compute, and where they leave their buffers.
use peachos.Base.{
  ℕ, zero, suc, ◌+◌, ◌%◌, ◌≤◌, ◌≡◌, refl, ap, ◌∙◌, ◌↔◌, some, List, [], ◌∷◌, ◌++◌, arith, length,
  take, drop, replicate, ◌==◌, if◌then◌else◌, append_assoc, length-take, get_elem?-at, set?-at,
  snoc_length,
}
use peachos.Base.Int.{ℤ, pos, negsuc}
use peachos.Memory.{memset, memset_loop, memcpy, memcpy_loop, memcmp, memcmp_loop, char_ltb}

memset_loop-fills :
    (n i c : ℕ) (before ptr : List ℕ)
    → i ≡ length before
    → n ≤ length ptr
    → memset_loop n i c (before ++ ptr) ≡ some (before ++ (replicate n (c % 256) ++ drop n ptr))
unfolding memset_loop
memset_loop-fills zero i c before ptr e h = refl
memset_loop-fills (suc n) i c before [] e h = absurd (omega arith)
memset_loop-fills (suc n) i c before (x ∷ ptr) e h =
    let b = c % 256 in
    rw (set?-at before x ptr i b e) (
      memset_loop-fills n (i + 1) c (before ++ (b ∷ [])) ptr (snoc_length before b i e)
        (omega arith)
      ∙ ap some (append_assoc before (b ∷ []) (replicate n b ++ drop n ptr)))

-- `memset` inside the buffer writes the low byte of `c` to the first `size` bytes and no other.
pub memset-fills :
    (ptr : List ℕ) (c size : ℕ)
    → size ≤ length ptr
    → memset ptr c size ≡ some (replicate size (c % 256) ++ drop size ptr)
unfolding memset
memset-fills ptr c size h = memset_loop-fills size 0 c [] ptr refl h

memcpy_loop-copies :
    (n i : ℕ) (old new dest src : List ℕ)
    → i ≡ length old
    → i ≡ length new
    → n ≤ length dest
    → n ≤ length src
    → memcpy_loop n i (new ++ dest) (old ++ src) ≡ some (new ++ (take n src ++ drop n dest))
unfolding memcpy_loop
memcpy_loop-copies zero i old new dest src e d h k = refl
memcpy_loop-copies (suc n) i old new [] src e d h k = absurd (omega arith)
memcpy_loop-copies (suc n) i old new (x ∷ dest) [] e d h k = absurd (omega arith)
memcpy_loop-copies (suc n) i old new (x ∷ dest) (y ∷ src) e d h k =
    rw (get_elem?-at old y src i e, set?-at new x dest i y d, ← append_assoc old (y ∷ []) src)
      (memcpy_loop-copies n (i + 1) (old ++ (y ∷ [])) (new ++ (y ∷ [])) dest src
          (snoc_length old y i e) (snoc_length new y i d) (omega arith) (omega arith)
        ∙ ap some (append_assoc new (y ∷ []) (take n src ++ drop n dest)))

-- `memcpy` inside both buffers replaces the first `len` bytes of `dest` by those of `src`, and
-- changes no other.
pub memcpy-copies :
    (dest src : List ℕ) (len : ℕ)
    → len ≤ length dest
    → len ≤ length src
    → memcpy dest src len ≡ some (take len src ++ drop len dest)
unfolding memcpy
memcpy-copies dest src len h k = memcpy_loop-copies len 0 [] [] dest src refl refl h k

-- The lexicographic order of two byte lists by signed bytes, as `memcmp` reports it.
unfoldable pub lex : List ℕ → List ℕ → ℤ
lex (x ∷ xs) (y ∷ ys) = if x == y then lex xs ys else if char_ltb x y then negsuc 0 else pos 1
lex _ _ = pos 0

memcmp_loop-lex :
    (n i : ℕ) (old new s1 s2 : List ℕ)
    → i ≡ length old
    → i ≡ length new
    → n ≤ length s1
    → n ≤ length s2
    → memcmp_loop n i (old ++ s1) (new ++ s2) ≡ some (lex (take n s1) (take n s2))
unfolding memcmp_loop lex
memcmp_loop-lex zero i old new s1 s2 e d h k = refl
memcmp_loop-lex (suc n) i old new [] s2 e d h k = absurd (omega arith)
memcmp_loop-lex (suc n) i old new (x ∷ s1) [] e d h k = absurd (omega arith)
memcmp_loop-lex (suc n) i old new (x ∷ s1) (y ∷ s2) e d h k =
    let ih =
      memcmp_loop-lex n (i + 1) (old ++ (x ∷ [])) (new ++ (y ∷ [])) s1 s2 (snoc_length old x i e)
        (snoc_length new y i d) (omega arith) (omega arith) in
    let ih' = rw (append_assoc old (x ∷ []) s1, append_assoc new (y ∷ []) s2) at ih in
    rw (get_elem?-at old x s1 i e, get_elem?-at new y s2 i d) (ground (arith, ih'))

-- `memcmp` of two buffers that both hold `count` bytes is their order by signed bytes.
pub memcmp-lex :
    (s1 s2 : List ℕ) (count : ℕ)
    → count ≤ length s1
    → count ≤ length s2
    → memcmp s1 s2 count ≡ some (lex (take count s1) (take count s2))
unfolding memcmp
memcmp-lex s1 s2 count h k = memcmp_loop-lex count 0 [] [] s1 s2 refl refl h k

pub lex-eq-zero : (xs ys : List ℕ) → length xs ≡ length ys → lex xs ys ≡ pos 0 → xs ≡ ys
unfolding lex
lex-eq-zero [] [] h e = refl
lex-eq-zero [] (y ∷ ys) h e = absurd (omega arith)
lex-eq-zero (x ∷ xs) [] h e = absurd (omega arith)
lex-eq-zero (x ∷ xs) (y ∷ ys) h e = ground (arith, lex-eq-zero xs ys (omega arith))

pub lex_refl : (xs : List ℕ) → lex xs xs ≡ pos 0
unfolding lex
lex_refl [] = refl
lex_refl (x ∷ xs) = ground (arith, lex_refl xs)

-- `memcmp` is zero exactly when the first `count` bytes agree.
pub memcmp-eq-zero_iff :
    (s1 s2 : List ℕ) (count : ℕ)
    → count ≤ length s1
    → count ≤ length s2
    → (memcmp s1 s2 count ≡ some (pos 0)) ↔ (take count s1 ≡ take count s2)
memcmp-eq-zero_iff s1 s2 count h k = (
  λ e.
      let z : lex (take count s1) (take count s2) ≡ pos 0 = cc (memcmp-lex s1 s2 count h k) in
      lex-eq-zero _ _ (omega (arith, length-take count s1, length-take count s2)) z,
  λ e. rw (memcmp-lex s1 s2 count h k, e, lex_refl (take count s2)),
)
