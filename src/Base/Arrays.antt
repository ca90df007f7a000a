-- ===== src/Base/Arrays.antt =====
-- An array cell that is written: the other cells stay, and a later write covers it.
use Prim.Native.Nat.{ℕ, zero, suc, ◌+◌, ◌≤◌, ◌<◌}
use mathlib.Core.Path.{◌≡◌, refl, ap, ◌∙◌}
use mathlib.Core.Logic.{◌≢◌}
use mathlib.Core.List.{List, [], ◌∷◌}
use mathlib.Core.Option.{Option, none, some}
use native.Mathlib.Omega.{arith}
use native.Mathlib.Decide.{ℕ_discrete}
use peachos.Base.Lists.{get_elem?, set?, length, length-set?}

module _ {ℓ} {A : Type ℓ} where
  -- What a write to a cell that exists leaves.
  pub record IsWritten (xs ys : List A) (i : ℕ) (old v : A) : Type ℓ where
    pub written : set? xs i v ≡ some ys
    pub reads : get_elem? ys i ≡ some v
    pub restores : set? ys i old ≡ some xs
    pub covers : (w : A) → set? ys i w ≡ set? xs i w
    pub others : (j : ℕ) → j ≢ i → get_elem? ys j ≡ get_elem? xs j

  abbrev prepend : A → Option (List A) → Option (List A)
  prepend x none = none
  prepend x (some ys) = some (x ∷ ys)

  others_zero :
      (x v : A) (xs : List A) (j : ℕ) → j ≢ 0 → get_elem? (v ∷ xs) j ≡ get_elem? (x ∷ xs) j
  others_zero x v xs zero h = absurd (h refl)
  others_zero x v xs (suc j) h = refl

  others_suc :
      (x : A) (xs ys : List A) (i : ℕ)
      → ((j : ℕ) → j ≢ i → get_elem? ys j ≡ get_elem? xs j)
      → (j : ℕ) → j ≢ suc i
      → get_elem? (x ∷ ys) j ≡ get_elem? (x ∷ xs) j
  others_suc x xs ys i same zero h = refl
  others_suc x xs ys i same (suc j) h = same j (λ e. h (ap suc e))

  pub set?-IsWritten :
      (xs : List A) (i : ℕ) (old v : A)
      → get_elem? xs i ≡ some old
      → (ys : List A) × IsWritten xs ys i old v
  set?-IsWritten [] i old v h = absurd (cc)
  set?-IsWritten (x ∷ xs) zero old v h = (
    v ∷ xs,
    record {
      written = refl;
      reads = refl;
      restores = cc;
      covers = λ w. refl;
      others = others_zero x v xs;
    },
  )
  set?-IsWritten (x ∷ xs) (suc i) old v h =
      let (ys, w) = set?-IsWritten xs i old v h in
      (
        x ∷ ys,
        record {
          written = ap (prepend x) w.written;
          reads = w.reads;
          restores = ap (prepend x) w.restores;
          covers = λ u. ap (prepend x) (w.covers u);
          others = others_suc x xs ys i w.others;
        },
      )

  pub cell_at : (xs : List A) (i : ℕ) → i < length xs → (x : A) × (get_elem? xs i ≡ some x)
  cell_at [] i h = absurd (omega arith)
  cell_at (x ∷ xs) zero h = (x, refl)
  cell_at (x ∷ xs) (suc i) h = cell_at xs i (omega arith)

  -- A write below the length.
  pub write_at :
      (xs : List A) (i : ℕ) (v : A)
      → i < length xs
      → (ys : List A) × (set? xs i v ≡ some ys)
        × (length ys ≡ length xs)
        × (get_elem? ys i ≡ some v)
        × ((j : ℕ) → j ≢ i → get_elem? ys j ≡ get_elem? xs j)
  write_at xs i v h =
      let (old, e) = cell_at xs i h in
      let (ys, w) = set?-IsWritten xs i old v e in
      (ys, w.written, length-set? xs i v ys w.written, w.reads, w.others)

  -- The cells from `i` on, `n` of them, hold the values of `f`, and the others what they held.
  pub record IsFilled (xs ys : List A) (i n : ℕ) (f : ℕ → A) : Type ℓ where
    pub size : length ys ≡ length xs
    pub inside : (j : ℕ) → i ≤ j → j < i + n → get_elem? ys j ≡ some (f j)
    pub below : (j : ℕ) → j < i → get_elem? ys j ≡ get_elem? xs j
    pub above : (j : ℕ) → i + n ≤ j → get_elem? ys j ≡ get_elem? xs j

  pub IsFilled-zero : (xs : List A) (i : ℕ) (f : ℕ → A) → IsFilled xs xs i 0 f
  IsFilled-zero xs i f = record {
    size = refl;
    inside = λ j a b. absurd (omega arith);
    below = λ j a. refl;
    above = λ j a. refl;
  }

  -- A write of the first cell, in front of the others.
  pub IsFilled-suc :
      (xs ys zs : List A) (i n : ℕ) (f : ℕ → A)
      → length ys ≡ length xs
      → get_elem? ys i ≡ some (f i)
      → ((j : ℕ) → j ≢ i → get_elem? ys j ≡ get_elem? xs j)
      → IsFilled ys zs (i + 1) n f
      → IsFilled xs zs i (suc n) f
  IsFilled-suc xs ys zs i n f same here others rest = record {
    size = rest.size ∙ same;
    inside = λ j a b. elim (ℕ_discrete j i) [
      | yes e ↦ rw e (rest.below i (omega arith) ∙ here)
      | no e ↦ rest.inside j (omega arith) (omega arith)
    ];
    below = λ j a. rest.below j (omega arith) ∙ others j (omega arith);
    above = λ j a. rest.above j (omega arith) ∙ others j (omega arith);
  }
