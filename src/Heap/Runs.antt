-- ===== src/Heap/Runs.antt =====
-- Runs of free entries: where the first one of a length starts.
use peachos.Base.{
  ℕ, zero, suc, ◌+◌, ◌<◌, ◌≡◌, refl, ap, ◌∙◌, Bool, true, false, Option, none, some, List, [], ◌∷◌,
  ◌++◌, arith, replicate, if◌then◌else◌,
}
use peachos.Heap.{start_or}

-- The first `n` blocks exist and are free.
unfoldable pub free_run : ℕ → List Bool → Bool
free_run zero fs = true
free_run (suc n) [] = false
free_run (suc n) (true ∷ fs) = free_run n fs
free_run (suc n) (false ∷ fs) = false

-- A position counted from `k` blocks further to the left.
abbrev pub shift : ℕ → Option ℕ → Option ℕ
shift k none = none
shift k (some s) = some (k + s)

-- The least position from which `n` blocks are free.
unfoldable pub first_fit : ℕ → List Bool → Option ℕ
unfolding free_run
first_fit n [] = none
first_fit n (f ∷ fs) = if free_run n (f ∷ fs) then some 0 else shift 1 (first_fit n fs)

unfoldable pub all_free : List Bool → Bool
all_free [] = true
all_free (true ∷ fs) = all_free fs
all_free (false ∷ fs) = false

-- The position from which every block to the end of the table is free.
unfoldable pub last_run : List Bool → Option ℕ
unfolding all_free
last_run [] = none
last_run (f ∷ fs) = if all_free (f ∷ fs) then some 0 else shift 1 (last_run fs)

abbrev pub or_else : Option ℕ → Option ℕ → Option ℕ
or_else none o = o
or_else (some s) o = some s

-- First fit; failing that, the run at the end of the table, however short.
abbrev pub find_run : ℕ → List Bool → Option ℕ
find_run n fs = or_else (first_fit n fs) (last_run fs)

shift-or_else : (k : ℕ) (o p : Option ℕ) → or_else (shift k o) (shift k p) ≡ shift k (or_else o p)
shift-or_else k none p = refl
shift-or_else k (some s) p = refl

pub shift-zero : (o : Option ℕ) → shift 0 o ≡ o
shift-zero none = refl
shift-zero (some s) = ap some (omega arith)

pub shift-shift : (a b : ℕ) (o : Option ℕ) → shift a (shift b o) ≡ shift (a + b) o
shift-shift a b none = refl
shift-shift a b (some s) = ap some (omega arith)

pub snoc_run :
    (n : ℕ) (fs : List Bool) → replicate n true ++ (true ∷ fs) ≡ true ∷ (replicate n true ++ fs)
snoc_run zero fs = refl
snoc_run (suc n) fs = ap (λ r. true ∷ r) (snoc_run n fs)

free_run-short : (k n : ℕ) → k < n → free_run n (replicate k true) ≡ false
unfolding free_run
free_run-short k zero h = absurd (omega arith)
free_run-short zero (suc n) h = refl
free_run-short (suc k) (suc n) h = free_run-short k n (omega arith)

free_run-cut :
    (k n : ℕ) (fs : List Bool) → k < n → free_run n (replicate k true ++ (false ∷ fs)) ≡ false
unfolding free_run
free_run-cut k zero fs h = absurd (omega arith)
free_run-cut zero (suc n) fs h = refl
free_run-cut (suc k) (suc n) fs h = free_run-cut k n fs (omega arith)

free_run-long : (n : ℕ) (fs : List Bool) → free_run n (replicate n true ++ fs) ≡ true
unfolding free_run
free_run-long zero fs = refl
free_run-long (suc n) fs = free_run-long n fs

pub first_fit-short : (k n : ℕ) → k < n → first_fit n (replicate k true) ≡ none
unfolding first_fit
first_fit-short zero n h = refl
first_fit-short (suc k) n h = rw (free_run-short (suc k) n h, first_fit-short k n (omega arith))

first_fit-cut :
    (k n : ℕ) (fs : List Bool)
    → k < n
    → first_fit n (replicate k true ++ (false ∷ fs)) ≡ shift (suc k) (first_fit n fs)
unfolding first_fit
first_fit-cut zero n fs h = rw (free_run-cut 0 n fs h)
first_fit-cut (suc k) n fs h =
    rw (free_run-cut (suc k) n fs h, first_fit-cut k n fs (omega arith))
      (shift-shift 1 (suc k) (first_fit n fs) ∙ ap (λ t. shift t (first_fit n fs)) (omega arith))

first_fit-long :
    (n : ℕ) (fs : List Bool) → first_fit (suc n) (replicate (suc n) true ++ fs) ≡ some 0
unfolding first_fit
first_fit-long n fs = rw (free_run-long (suc n) fs)

all_free-run : (k : ℕ) → all_free (replicate k true) ≡ true
unfolding all_free
all_free-run zero = refl
all_free-run (suc k) = all_free-run k

all_free-cut : (k : ℕ) (fs : List Bool) → all_free (replicate k true ++ (false ∷ fs)) ≡ false
unfolding all_free
all_free-cut zero fs = refl
all_free-cut (suc k) fs = all_free-cut k fs

last_run-cut :
    (k : ℕ) (fs : List Bool)
    → last_run (replicate k true ++ (false ∷ fs)) ≡ shift (suc k) (last_run fs)
unfolding last_run
last_run-cut zero fs = refl
last_run-cut (suc k) fs =
    rw (all_free-cut (suc k) fs, last_run-cut k fs)
      (shift-shift 1 (suc k) (last_run fs) ∙ ap (λ t. shift t (last_run fs)) (omega arith))

pub find_run-cut :
    (k n : ℕ) (fs : List Bool)
    → k < n
    → find_run n (replicate k true ++ (false ∷ fs)) ≡ shift (suc k) (find_run n fs)
find_run-cut k n fs h =
    rw (first_fit-cut k n fs h, last_run-cut k fs)
      (shift-or_else (suc k) (first_fit n fs) (last_run fs))

-- The start of a run of `k` blocks at `b`, as the loop keeps it.
abbrev pub run_start : ℕ → ℕ → Option ℕ
run_start b zero = none
run_start b (suc k) = some b

pub last_run-short : (b k : ℕ) → run_start b k ≡ shift b (last_run (replicate k true))
unfolding last_run
last_run-short b zero = refl
last_run-short b (suc k) = rw (all_free-run (suc k)) (ap some (omega arith))

pub start_or-run_start : (b k i : ℕ) → i ≡ b + k → start_or (run_start b k) i ≡ b
start_or-run_start b zero i e = omega arith
start_or-run_start b (suc k) i e = refl

pub find_run-long :
    (k n : ℕ) (fs : List Bool) → suc k ≡ n → find_run n (true ∷ (replicate k true ++ fs)) ≡ some 0
find_run-long k n fs e =
    rw (← e) (ap (λ o. or_else o (last_run (replicate (suc k) true ++ fs))) (first_fit-long k fs))
