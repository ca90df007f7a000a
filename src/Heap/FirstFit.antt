-- ===== src/Heap/FirstFit.antt =====
-- The search of heap_get_start_block against a first-fit search that tries every position.
use peachos.Base.{
  ℕ, zero, suc, ◌+◌, ◌<◌, ◌≡◌, refl, ap, sym, ◌∙◌, Bool, true, false, Option, none, some, List, [],
  ◌∷◌, ◌++◌, arith, take, append-nil, replicate, if◌then◌else◌, ◌==◌, inl, inr, Bool-cases, ◌≤◌,
  Option-cases, dec_lt, length,
}
use mathlib.Core.List.{map}
use peachos.Heap.{Heap, is_free, start_loop, start_or, get_start_block}
use peachos.Heap.Runs.{
  free_run, shift, first_fit, all_free, last_run, or_else, find_run, shift-zero, shift-shift,
  snoc_run, first_fit-short, find_run-cut, run_start, last_run-short, start_or-run_start,
  find_run-long,
}

start_loop-taken :
    (x : ℕ) (es : List ℕ) (n i k : ℕ) (bs : Option ℕ)
    → is_free x ≡ false
    → start_loop (x ∷ es) n i k bs ≡ start_loop es n (i + 1) 0 none
unfolding start_loop
start_loop-taken x es n i k bs t = rw (t, start_loop)

start_loop-free :
    (x : ℕ) (es : List ℕ) (n i k : ℕ) (bs : Option ℕ) (b : ℕ)
    → is_free x ≡ true
    → start_or bs i ≡ b
    → start_loop (x ∷ es) n i k bs
      ≡ (if k + 1 == n then some b else start_loop es n (i + 1) (k + 1) (some b))
unfolding start_loop
start_loop-free x es n i k bs b f e = rw (f, start_loop) (rw e)

-- The loop, `k` blocks into a run that starts at `b`.
start_loop-find_run :
    (es : List ℕ) (n i b k : ℕ)
    → k < n
    → i ≡ b + k
    → start_loop es n i k (run_start b k)
      ≡ shift b (find_run n (replicate k true ++ map is_free es))
unfolding start_loop
start_loop-find_run [] n i b k h e = rw append-nil (
    last_run-short b k
    ∙ ap (λ o. shift b (or_else o (last_run (replicate k true)))) (sym (first_fit-short k n h)))
start_loop-find_run (x ∷ es) n i b k h e = elim (Bool-cases (is_free x)) [
  | inl f ↦
      rw (f, snoc_run k (map is_free es))
        (start_loop-free x es n i k (run_start b k) b f (start_or-run_start b k i e)
          ∙ elim (Bool-cases (k + 1 == n)) [
            | inl hit ↦
                rw (hit, find_run-long k n (map is_free es) (ground arith)) (ap some (omega arith))
            | inr more ↦
                let s : k + 1 ≡ suc k = omega arith in
                rw (more, s)
                  (start_loop-find_run es n (i + 1) b (suc k) (ground arith) (omega arith))
          ])
  | inr t ↦
      rw (t, find_run-cut k n (map is_free es) h)
        (start_loop-taken x es n i k (run_start b k) t
          ∙ start_loop-find_run es n (i + 1) (b + suc k) 0 (omega arith) (omega arith)
          ∙ sym (shift-shift b (suc k) (find_run n (map is_free es))))
]

-- For a request of at least one block, heap_get_start_block returns the least position from which
-- all the blocks asked for are free. If there is none it returns the start of the free blocks at
-- the end of the table, and -ENOMEM if the last block is taken.
pub get_start_block-find_run :
    (h : Heap) (n : ℕ)
    → 0 < n
    → get_start_block h n ≡ find_run n (map is_free (take h.table.total h.table.entries))
unfolding get_start_block
get_start_block-find_run h n p =
    start_loop-find_run (take h.table.total h.table.entries) n 0 0 0 p refl ∙ shift-zero _

free_run-length : (n : ℕ) (fs : List Bool) → free_run n fs ≡ true → n ≤ length fs
unfolding free_run
free_run-length zero fs h = omega arith
free_run-length (suc n) [] h = absurd (cc)
free_run-length (suc n) (true ∷ fs) h = omega (arith, free_run-length n fs h)
free_run-length (suc n) (false ∷ fs) h = absurd (cc)

-- A fit lies inside the table.
pub first_fit-within : (n s : ℕ) (fs : List Bool) → first_fit n fs ≡ some s → s + n ≤ length fs
unfolding first_fit
first_fit-within n s [] h = absurd (cc)
first_fit-within n s (f ∷ fs) h = elim (Bool-cases (free_run n (f ∷ fs))) [
  | inl run ↦ ground (arith, free_run-length n (f ∷ fs) run)
  | inr no_run ↦ elim (Option-cases (first_fit n fs)) [
    | inl none_left ↦ ground arith
    | inr (t, e) ↦ ground (arith, first_fit-within n t fs e)
  ]
]

all_free-free_run :
    (n : ℕ) (fs : List Bool) → all_free fs ≡ true → n ≤ length fs → free_run n fs ≡ true
unfolding all_free free_run
all_free-free_run zero fs a h = refl
all_free-free_run (suc n) [] a h = absurd (omega arith)
all_free-free_run (suc n) (true ∷ fs) a h = all_free-free_run n fs a (omega arith)
all_free-free_run (suc n) (false ∷ fs) a h = absurd (cc)

-- Where nothing fits, the last run is too short.
pub last_run-short_of :
    (n s : ℕ) (fs : List Bool) → first_fit n fs ≡ none → last_run fs ≡ some s → length fs < s + n
unfolding first_fit last_run
last_run-short_of n s [] h e = absurd (cc)
last_run-short_of n s (f ∷ fs) h e = elim (Bool-cases (free_run n (f ∷ fs))) [
  | inl run ↦ absurd (ground arith)
  | inr no_run ↦ elim (Bool-cases (all_free (f ∷ fs))) [
    | inl all ↦ elim (dec_lt (length (f ∷ fs)) n) [
      | yes short ↦ omega arith
      | no long ↦ absurd (let r = all_free-free_run n (f ∷ fs) all (omega arith) in cc)
    ]
    | inr some_taken ↦ elim (Option-cases (last_run fs)) [
      | inl none_left ↦ absurd (ground arith)
      | inr (t, d) ↦
          let nf : first_fit n fs ≡ none = unshift _ (rw no_run at h) in
          ground (arith, last_run-short_of n t fs nf d)
    ]
  ]
]
  where
    unshift : (o : Option ℕ) → shift 1 o ≡ none → o ≡ none
    unshift none q = refl
    unshift (some t) q = absurd (cc)
