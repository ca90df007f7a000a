-- ===== src/Base/Lists.antt =====
-- Lists measured and indexed by native numbers, under the library's names.
use Prim.Native.Nat.{ℕ, zero, suc, ◌+◌, ◌-◌, ◌≤◌, min}
use mathlib.Core.Path.{◌≡◌, refl, ap}
use mathlib.Core.Logic.{inl, inr}
use mathlib.Core.List.{List, [], ◌∷◌, ◌++◌, append_assoc}
use mathlib.Core.Option.{Option, none, some}
use native.Mathlib.Omega.{arith}
use peachos.Base.Tests.{Option-cases}

module _ {ℓ} {A : Type ℓ} where
  abbrev pub length : List A → ℕ
  length [] = 0
  length (x ∷ xs) = suc (length xs)

  abbrev pub get_elem? : List A → ℕ → Option A
  get_elem? [] i = none
  get_elem? (x ∷ xs) zero = some x
  get_elem? (x ∷ xs) (suc i) = get_elem? xs i

  -- A write to an array: out of bounds it faults.
  abbrev pub set? : List A → ℕ → A → Option (List A)
  set? [] i v = none
  set? (x ∷ xs) zero v = some (v ∷ xs)
  set? (x ∷ xs) (suc i) v = elim (set? xs i v) [ none ↦ none | some ys ↦ some (x ∷ ys) ]

  abbrev pub take : ℕ → List A → List A
  take zero xs = []
  take (suc n) [] = []
  take (suc n) (x ∷ xs) = x ∷ take n xs

  abbrev pub drop : ℕ → List A → List A
  drop zero xs = xs
  drop (suc n) [] = []
  drop (suc n) (x ∷ xs) = drop n xs

  abbrev pub replicate : ℕ → A → List A
  replicate zero a = []
  replicate (suc n) a = a ∷ replicate n a

module _ {ℓ} {A : Type ℓ} where
  pub length-append : (xs ys : List A) → length (xs ++ ys) ≡ length xs + length ys
  length-append [] ys = omega arith
  length-append (x ∷ xs) ys = omega (arith, length-append xs ys)

  pub take-append-drop : (n : ℕ) (xs : List A) → take n xs ++ drop n xs ≡ xs
  take-append-drop zero xs = refl
  take-append-drop (suc n) [] = refl
  take-append-drop (suc n) (x ∷ xs) = ap (λ r. x ∷ r) (take-append-drop n xs)

  pub length-take : (n : ℕ) (xs : List A) → length (take n xs) ≡ min n (length xs)
  length-take zero xs = omega arith
  length-take (suc n) [] = omega arith
  length-take (suc n) (x ∷ xs) = omega (arith, length-take n xs)

  pub length-drop : (n : ℕ) (xs : List A) → length (drop n xs) ≡ length xs - n
  length-drop zero xs = omega arith
  length-drop (suc n) [] = omega arith
  length-drop (suc n) (x ∷ xs) = omega (arith, length-drop n xs)

  pub length-replicate : (n : ℕ) (a : A) → length (replicate n a) ≡ n
  length-replicate zero a = refl
  length-replicate (suc n) a = ap suc (length-replicate n a)

  -- Behind a prefix of known length the array functions reach the rest.
  pub get_elem?-append :
      (xs ys : List A) (i : ℕ) → get_elem? (xs ++ ys) (length xs + i) ≡ get_elem? ys i
  get_elem?-append [] ys i = ap (get_elem? ys) (omega arith)
  get_elem?-append (x ∷ xs) ys i =
      let e : suc (length xs) + i ≡ suc (length xs + i) = omega arith in
      rw e (get_elem?-append xs ys i)

  pub set?-append :
      (xs ys : List A) (y v : A) → set? (xs ++ y ∷ ys) (length xs) v ≡ some (xs ++ v ∷ ys)
  set?-append [] ys y v = refl
  set?-append (x ∷ xs) ys y v =
      ap (λ (o : Option (List A)). elim o [ none ↦ none | some zs ↦ some (x ∷ zs) ])
        (set?-append xs ys y v)

  pub take-append : (xs ys : List A) → take (length xs) (xs ++ ys) ≡ xs
  take-append [] ys = refl
  take-append (x ∷ xs) ys = ap (λ r. x ∷ r) (take-append xs ys)

  pub drop-append : (xs ys : List A) → drop (length xs) (xs ++ ys) ≡ ys
  drop-append [] ys = refl
  drop-append (x ∷ xs) ys = drop-append xs ys

  pub get_elem?-none : (xs : List A) (i : ℕ) → length xs ≤ i → get_elem? xs i ≡ none
  get_elem?-none [] i h = refl
  get_elem?-none (x ∷ xs) zero h = absurd (omega arith)
  get_elem?-none (x ∷ xs) (suc i) h = get_elem?-none xs i (omega arith)

  pub set?-none : (xs : List A) (i : ℕ) (v : A) → length xs ≤ i → set? xs i v ≡ none
  set?-none [] i v h = refl
  set?-none (x ∷ xs) zero v h = absurd (omega arith)
  set?-none (x ∷ xs) (suc i) v h =
      ap (λ (o : Option (List A)). elim o [ none ↦ none | some zs ↦ some (x ∷ zs) ])
        (set?-none xs i v (omega arith))

-- A read and a write behind a prefix of the length of the index.
module _ {ℓ} {A : Type ℓ} where
  pub get_elem?-at :
      (before : List A) (x : A) (xs : List A) (i : ℕ)
      → i ≡ length before
      → get_elem? (before ++ x ∷ xs) i ≡ some x
  get_elem?-at [] x xs zero e = refl
  get_elem?-at [] x xs (suc i) e = absurd (omega arith)
  get_elem?-at (y ∷ before) x xs zero e = absurd (omega arith)
  get_elem?-at (y ∷ before) x xs (suc i) e = get_elem?-at before x xs i (omega arith)

  pub set?-at :
      (before : List A) (x : A) (xs : List A) (i : ℕ) (v : A)
      → i ≡ length before
      → set? (before ++ x ∷ xs) i v ≡ some ((before ++ (v ∷ [])) ++ xs)
  set?-at before x xs i v e = rw (e, set?-append before xs x v, append_assoc before (v ∷ []) xs)

  pub snoc_length :
      (before : List A) (x : A) (i : ℕ) → i ≡ length before → i + 1 ≡ length (before ++ (x ∷ []))
  snoc_length before x i e = omega (arith, length-append before (x ∷ []))

  pub length-set? :
      (xs : List A) (i : ℕ) (v : A) (ys : List A) → set? xs i v ≡ some ys → length ys ≡ length xs
  length-set? [] i v ys e = absurd (cc)
  length-set? (x ∷ xs) zero v ys e = ground arith
  length-set? (x ∷ xs) (suc i) v ys e = elim (Option-cases (set? xs i v)) [
    | inl no_room ↦ ground arith
    | inr (zs, f) ↦ ground (arith, length-set? xs i v zs f)
  ]

  -- A list cut at `s` and `s + n`.
  pub cut_twice :
      (xs : List A) (s n : ℕ) → take s xs ++ (take n (drop s xs) ++ drop n (drop s xs)) ≡ xs
  cut_twice xs s n = rw (take-append-drop n (drop s xs)) (take-append-drop s xs)

  pub drop-drop : (s n : ℕ) (xs : List A) → drop n (drop s xs) ≡ drop (s + n) xs
  drop-drop zero n xs = let e : 0 + n ≡ n = omega arith in rw e
  drop-drop (suc s) zero [] = let e : suc s + 0 ≡ suc s = omega arith in rw e
  drop-drop (suc s) (suc n) [] = let e : suc s + suc n ≡ suc (s + suc n) = omega arith in rw e
  drop-drop (suc s) n (x ∷ xs) =
      let e : suc s + n ≡ suc (s + n) = omega arith in rw e (drop-drop s n xs)
