-- ===== src/Stringos/Laws.antt =====
-- The lengths of C strings: a text with no zero byte, a zero byte, and whatever follows.
use peachos.Base.{
  ℕ, zero, suc, ◌+◌, ◌≡◌, ◌≢◌, refl, ap, ◌∙◌, some, List, [], ◌∷◌, ◌++◌, arith, length, min, ◌==◌,
  append_assoc, get_elem?-at, snoc_length, if◌then◌else◌, false,
}
use peachos.Stringos.{
  strlen, strlen_loop, strnlen, strnlen_loop, strnlen_terminator, strnlen_terminator_loop,
}

abbrev pub NonZero : List ℕ → Type 0
NonZero [] = Unit
NonZero (c ∷ s) = (c ≢ 0) × NonZero s

strlen_loop-length :
    (s r : List ℕ) (i : ℕ) → NonZero s → strlen_loop (s ++ (0 ∷ r)) i ≡ some (i + length s)
unfolding strlen_loop
strlen_loop-length [] r i z = ap some (omega arith)
strlen_loop-length (c ∷ s) r i z = ground (arith, strlen_loop-length s r (i + 1) z.1)

-- `strlen` counts the bytes before the first zero byte.
pub strlen-length : (s r : List ℕ) → NonZero s → strlen (s ++ (0 ∷ r)) ≡ some (length s)
unfolding strlen
strlen-length s r z = strlen_loop-length s r 0 z ∙ ap some (omega arith)

strnlen_loop-min :
    (n i : ℕ) (before s r : List ℕ)
    → i ≡ length before
    → NonZero s
    → strnlen_loop n i (before ++ (s ++ (0 ∷ r))) ≡ some (i + min n (length s))
unfolding strnlen_loop
strnlen_loop-min zero i before s r e z = ap some (omega arith)
strnlen_loop-min (suc n) i before [] r e z =
    rw (get_elem?-at before 0 r i e) (ap some (omega arith))
strnlen_loop-min (suc n) i before (c ∷ s) r e z =
    let go : (c == 0) ≡ false = ground (arith, z.0) in
    rw (get_elem?-at before c (s ++ (0 ∷ r)) i e, go, ← append_assoc before (c ∷ []) (s ++ (0 ∷ r)))
      (strnlen_loop-min n (i + 1) (before ++ (c ∷ [])) s r (snoc_length before c i e) z.1
        ∙ ap some (omega arith))

-- `strnlen` counts the bytes before the first zero byte, `max` at most.
pub strnlen-min :
    (s r : List ℕ) (max : ℕ) → NonZero s → strnlen (s ++ (0 ∷ r)) max ≡ some (min max (length s))
unfolding strnlen
strnlen-min s r max z = strnlen_loop-min max 0 [] s r refl z ∙ ap some (omega arith)

-- The bytes of a text before the first `t`.
unfoldable pub before_byte : ℕ → List ℕ → ℕ
before_byte t [] = 0
before_byte t (c ∷ s) = if c == t then 0 else suc (before_byte t s)

strnlen_terminator_loop-before :
    (n i t : ℕ) (before s r : List ℕ)
    → i ≡ length before
    → NonZero s
    → strnlen_terminator_loop n i (before ++ (s ++ (0 ∷ r))) t ≡ some (i + min n (before_byte t s))
unfolding strnlen_terminator_loop before_byte
strnlen_terminator_loop-before zero i t before s r e z = ap some (omega arith)
strnlen_terminator_loop-before (suc n) i t before [] r e z =
    rw (get_elem?-at before 0 r i e) (ap some (omega arith))
strnlen_terminator_loop-before (suc n) i t before (c ∷ s) r e z =
    let ih = rw (append_assoc before (c ∷ []) (s ++ (0 ∷ r))) at (
      strnlen_terminator_loop-before n (i + 1) t (before ++ (c ∷ [])) s r (snoc_length before c i e)
        z.1) in
    rw (get_elem?-at before c (s ++ (0 ∷ r)) i e) (ground (arith, z.0, ih))

-- `strnlen_terminator` counts the bytes before the first zero byte or terminator, `max` at most.
pub strnlen_terminator-before :
    (s r : List ℕ) (max t : ℕ)
    → NonZero s
    → strnlen_terminator (s ++ (0 ∷ r)) max t ≡ some (min max (before_byte t s))
unfolding strnlen_terminator
strnlen_terminator-before s r max t z =
    strnlen_terminator_loop-before max 0 t [] s r refl z ∙ ap some (omega arith)
