-- ===== src/Stringos/Copy.antt =====
-- What strcpy and strncpy leave in their destination.
use peachos.Base.{
  ℕ, zero, suc, ◌+◌, ◌-◌, ◌<◌, ◌≡◌, refl, ap, ◌∙◌, some, List, [], ◌∷◌, ◌++◌, arith, length, take,
  drop, ◌==◌, append_assoc, get_elem?-at, set?-at, snoc_length, false,
}
use peachos.Stringos.{strcpy, strncpy, strncpy_loop}
use peachos.Stringos.Laws.{NonZero}

-- `strcpy` into a destination with room for the text and its zero byte writes exactly these.
pub strcpy-copies :
    (dest s r : List ℕ)
    → NonZero s
    → length s < length dest
    → strcpy dest (s ++ (0 ∷ r)) ≡ some (s ++ (0 ∷ drop (length s + 1) dest))
unfolding strcpy
strcpy-copies [] s r z h = absurd (omega arith)
strcpy-copies (d ∷ dest) [] r z h = refl
strcpy-copies (d ∷ dest) (c ∷ s) r z h =
    let e : suc (length s) + 1 ≡ suc (length s + 1) = omega arith in
    let go : (c == 0) ≡ false = ground (arith, z.0) in
    rw (go, strcpy-copies dest s r z.1 (omega arith), e)

strncpy_loop-copies :
    (n i : ℕ) (new old dest s r : List ℕ)
    → i ≡ length new
    → i ≡ length old
    → NonZero s
    → length (take n s) < length dest
    → strncpy_loop n i (new ++ dest) (old ++ (s ++ (0 ∷ r)))
      ≡ some (new ++ (take n s ++ (0 ∷ drop (length (take n s) + 1) dest)))
unfolding strncpy_loop
strncpy_loop-copies zero i new old [] s r e d z h = absurd (omega arith)
strncpy_loop-copies zero i new old (x ∷ dest) s r e d z h =
    rw (set?-at new x dest i 0 e) (ap some (append_assoc new (0 ∷ []) dest))
strncpy_loop-copies (suc n) i new old [] s r e d z h = absurd (omega arith)
strncpy_loop-copies (suc n) i new old (x ∷ dest) [] r e d z h =
    rw (get_elem?-at old 0 r i d, set?-at new x dest i 0 e)
      (ap some (append_assoc new (0 ∷ []) dest))
strncpy_loop-copies (suc n) i new old (x ∷ dest) (c ∷ s) r e d z h =
    let go : (c == 0) ≡ false = ground (arith, z.0) in
    let l = suc (length (take n s)) in
    let f : l + 1 ≡ suc (length (take n s) + 1) = omega arith in
    rw
      (
        get_elem?-at old c (s ++ (0 ∷ r)) i d,
        go,
        set?-at new x dest i c e,
        ← append_assoc old (c ∷ []) (s ++ (0 ∷ r)),
        f,
      )
      (strncpy_loop-copies n (i + 1) (new ++ (c ∷ [])) (old ++ (c ∷ [])) dest s r
          (snoc_length new c i e) (snoc_length old c i d) z.1 (omega arith)
        ∙ ap some (append_assoc new (c ∷ []) _))

-- `strncpy` writes the first `count - 1` bytes of the text, or all of a shorter one, then a zero
-- byte, and nothing else.
pub strncpy-copies :
    (dest s r : List ℕ) (count : ℕ)
    → NonZero s
    → length (take (count - 1) s) < length dest
    → let p = take (count - 1) s in
      strncpy dest (s ++ (0 ∷ r)) count ≡ some (p ++ (0 ∷ drop (length p + 1) dest))
unfolding strncpy
strncpy-copies dest s r count z h = strncpy_loop-copies (count - 1) 0 [] [] dest s r refl refl z h
