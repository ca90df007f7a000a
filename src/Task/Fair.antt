-- ===== src/Task/Fair.antt =====
-- Every task gets its turn.
use native.Mathlib.Nat.{mod-eq_of_lt, mod-add-mod, add-mod_right, mod-lt}
use mathlib.Core.Option.{some-injective}
use peachos.Base.{
  ℕ, zero, suc, ◌+◌, ◌-◌, ◌%◌, ◌<◌, ◌≤◌, ◌≡◌, ◌≢◌, refl, sym, ap, ◌∙◌, Option, some, arith, length,
  get_elem?, dec_lt,
}
use peachos.Base.Arrays.{cell_at}
use peachos.Run.{Run, done, ◌>>=◌}
use peachos.Task.{Task, Tasks, task_next}
use peachos.Task.List.{Nodes, Linked, tasks_of}
use peachos.Task.Places.{get_elem?-lt}
use peachos.Task.Switch.{task_next-turn}

-- The timer interrupts one after another, without the code that runs in between.
unfoldable pub ticks : ℕ → Tasks → Run Tasks
ticks zero s = done s
ticks (suc n) s = do (_, s') ← task_next s; ticks n s'

module _ (cells : ℕ → Option Task) (ns : Nodes) (linked : Linked cells 0 ns 0)
    (mapped : (i a : ℕ) (t : Task) → get_elem? ns i ≡ some (a, t) → t.page_directory ≢ 0) where
  -- One tick, from place `i` to the next place `k`.
  tick :
      (n i k a b directory : ℕ) (t u : Task)
      → get_elem? ns i ≡ some (a, t)
      → (i + 1) % length ns ≡ k
      → get_elem? ns k ≡ some (b, u)
      → ticks (suc n) (tasks_of cells ns a directory)
        ≡ ticks n (tasks_of cells ns b u.page_directory)
  unfolding ticks
  tick n i k a b directory t u at_i e at_k =
      let at_next = ap (get_elem? ns) e ∙ at_k in
      rw (task_next-turn cells ns i a b directory t u linked at_i at_next (mapped k b u at_k)) refl

  -- `n` ticks from the task at place `i`, whose directory is loaded, to the one `n` places on.
  round :
      (n i j a b : ℕ) (t u : Task)
      → get_elem? ns i ≡ some (a, t)
      → get_elem? ns j ≡ some (b, u)
      → (i + n) % length ns ≡ j
      → ticks n (tasks_of cells ns a t.page_directory) ≡ done (tasks_of cells ns b u.page_directory)
  unfolding ticks
  round zero i j a b t u at_i at_j e =
      let small = get_elem?-lt ns i a t at_i in
      let start : i + 0 ≡ i = omega arith in
      let same : i ≡ j = sym (mod-eq_of_lt small) ∙ (rw start at e) in
      let at_same : get_elem? ns j ≡ some (a, t) = ap (get_elem? ns) (sym same) ∙ at_i in
      let node : (a, t) ≡ (b, u) = some-injective (a, t) (b, u) (sym at_same ∙ at_j) in
      ap (λ (n : ℕ × Task). done (tasks_of cells ns n.0 n.1.page_directory)) node
  round (suc n) i j a b t u at_i at_j e =
      let small = get_elem?-lt ns i a t at_i in
      let k = (i + 1) % length ns in
      let below : k < length ns = mod-lt (i + 1) (omega arith) in
      let ((c, w), at_k) = cell_at ns k below in
      let there : (k + n) % length ns ≡ j =
        mod-add-mod (i + 1) (length ns) n ∙ ap (λ (m : ℕ). m % length ns) (omega arith) ∙ e in
      tick n i k a c t.page_directory t w at_i refl at_k ∙ round n k j c b w u at_k at_j there

  -- A well-formed list of tasks that all have a page directory, with the task at place `i` as the
  -- current one: the task at any place is the current one, with its page directory loaded,
  -- after at least one and at most as many timer interrupts as there are tasks. Nothing else
  -- changes.
  pub task_next_fair :
      (i j a b directory : ℕ) (t u : Task)
      → get_elem? ns i ≡ some (a, t)
      → get_elem? ns j ≡ some (b, u)
      → (n : ℕ) × (0 < n)
        × (n ≤ length ns)
        × (ticks n (tasks_of cells ns a directory) ≡ done (tasks_of cells ns b u.page_directory))
  task_next_fair i j a b directory t u at_i at_j =
      let small = get_elem?-lt ns i a t at_i in
      let within = get_elem?-lt ns j b u at_j in
      let k = (i + 1) % length ns in
      let below : k < length ns = mod-lt (i + 1) (omega arith) in
      let ((c, w), at_k) = cell_at ns k below in
      let reach = λ (m : ℕ) (e : (k + m) % length ns ≡ j).
        tick m i k a c directory t w at_i refl at_k ∙ round m k j c b w u at_k at_j e in
      elim (dec_lt j k) [
        | no ahead ↦
            let e : k + (j - k) ≡ j = omega arith in
            let there : (k + (j - k)) % length ns ≡ j = rw e (mod-eq_of_lt within) in
            (suc (j - k), omega arith, omega arith, reach (j - k) there)
        | yes behind ↦
            let m = j + length ns - k in
            let e : k + m ≡ j + length ns = omega arith in
            let there : (k + m) % length ns ≡ j =
              rw e (add-mod_right j (length ns) ∙ mod-eq_of_lt within) in
            (suc m, omega arith, omega arith, reach m there)
      ]
