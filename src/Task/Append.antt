-- ===== src/Task/Append.antt =====
-- task_new puts a task behind the last one.
use peachos.Base.{ℕ, ◌≡◌, refl, sym, ◌∙◌, ◌≢◌, inl, inr, Option, some, [], ◌∷◌, ◌++◌, ne→==}
use mathlib.Core.Path.{subst}
use peachos.Run.{done}
use peachos.Status.{ok}
use peachos.Task.{Task, Tasks, update, append, task_new, task_init, zero_registers}
use peachos.Task.Steps.{store_lem, set_next_lem}
use peachos.Task.List.{
  Nodes, first, last_of, Linked, Avoids, Distinct, Distinct-append, Distinct-snoc, Avoids-append,
  snoc_cases, Linked-update, Linked-cut, Linked-join, last_of-append, first-snoc, update-at,
  update-other, tasks_of,
}

-- A task that starts at the program's entry in user mode, with an empty stack.
abbrev pub fresh_task : ℕ → ℕ → Task
fresh_task page_directory process = record {
  page_directory = page_directory;
  registers = record zero_registers { ip = 0x400000; cs = 0x1b; ss = 0x23; esp = 0x3FF000 };
  process = process;
  next = 0;
  prev = 0;
}

-- A new task at the end of a list that is not empty.
module _ (cells : ℕ → Option Task) (xs : Nodes) (x : ℕ) (t : Task) (task : ℕ) (n : Task)
    (current directory : ℕ) (linked : Linked cells 0 (xs ++ ((x, t) ∷ [])) 0) (real : task ≢ 0)
    (other : task ≢ x) (blank : n.next ≡ 0) where
  abbrev ns : Nodes
  ns = xs ++ ((x, t) ∷ [])

  abbrev cells₀ : ℕ → Option Task
  cells₀ = update cells task (some n)

  abbrev last_task : Task
  last_task = record t { next = task; prev = last_of 0 xs }

  abbrev cells₁ : ℕ → Option Task
  cells₁ = update cells₀ x (some last_task)

  abbrev cells₂ : ℕ → Option Task
  cells₂ = update cells₁ task (some (record n { prev = x }))

  ends : Linked cells 0 xs x × Linked cells (last_of 0 xs) ((x, t) ∷ []) 0
  ends = Linked-cut cells ((x, t) ∷ []) 0 0 xs linked

  first-real :
      (q : ℕ) (zs : Nodes)
      → Linked cells q (zs ++ ((x, t) ∷ [])) 0
      → first (zs ++ ((x, t) ∷ [])) 0 ≢ 0
  first-real q [] l = l.0
  first-real q ((a, u) ∷ zs) l = l.0

  append_steps :
      append task n (tasks_of cells₀ ns current directory)
      ≡ done (record {
        cells = cells₂;
        current_task = current;
        task_tail = task;
        task_head = first ns 0;
        directory = directory;
      })
  unfolding append
  append_steps =
      let tail_at : last_of 0 ns ≡ x = last_of-append 0 xs ((x, t) ∷ []) in
      let s₀ = λ (q : ℕ). record (tasks_of cells₀ ns current directory) { task_tail = q } in
      let stands : cells₀ x ≡ some (record t { next = 0; prev = last_of 0 xs }) =
        update-other cells task x (some n) other ∙ ends.1.1 in
      rw
        (
          ne→== (first ns 0) 0 (first-real 0 xs linked),
          tail_at,
          set_next_lem x (s₀ x) (record t { next = 0; prev = last_of 0 xs }) ends.1.0 stands task,
          store_lem task (record (s₀ x) { cells = cells₁ }) n real
              (update-other cells₀ x task (some last_task) (λ e. other (sym e))
                ∙ update-at cells task (some n))
              (record n { prev = x }),
        )
        refl

  -- The nodes in front of the last one are not written.
  front : Avoids x xs → Avoids task xs → Linked cells₂ 0 xs x
  front h k = Linked-update cells₁ task (some (record n { prev = x })) 0 xs x k (
      Linked-update cells₀ x (some last_task) 0 xs x h
        (Linked-update cells task (some n) 0 xs x k ends.0))

  appended : Avoids x xs → Avoids task xs → Linked cells₂ 0 (ns ++ ((task, n) ∷ [])) 0
  appended h k =
      let tail_at : last_of 0 ns ≡ x = last_of-append 0 xs ((x, t) ∷ []) in
      let last_kept =
        update-other cells₁ task x (some (record n { prev = x })) other
        ∙ update-at cells₀ x (some last_task) in
      Linked-join cells₂ ((task, n) ∷ []) 0 0 ns
        (Linked-join cells₂ ((x, t) ∷ []) task 0 xs (front h k) (ends.1.0, last_kept, tt))
        (rw tail_at (
          real,
          update-at cells₁ task (some (record n { prev = x }))
              ∙ (λ i. some (record n { next = blank i; prev = x })),
          tt,
        ))

  appended_state :
      Avoids x xs
      → Avoids task xs
      → (cells' : ℕ → Option Task) × (append task n (tasks_of cells₀ ns current directory)
          ≡ done (tasks_of cells' (ns ++ ((task, n) ∷ [])) current directory))
        × Linked cells' 0 (ns ++ ((task, n) ∷ [])) 0
  appended_state h k =
      let head_at : first (ns ++ ((task, n) ∷ [])) 0 ≡ first ns 0 =
        first-snoc xs x t ((task, n) ∷ []) 0 in
      let tail_at : last_of 0 (ns ++ ((task, n) ∷ [])) ≡ task =
        last_of-append 0 ns ((task, n) ∷ []) in
      (cells₂, rw (tail_at, head_at) append_steps, appended h k)

-- The first task of all becomes the current one.
abbrev pub current_after : Nodes → ℕ → ℕ → ℕ
current_after [] task current = task
current_after (n ∷ rest) task current = current

current_after-snoc :
    (xs : Nodes) (x : ℕ) (t : Task) (task current : ℕ)
    → current_after (xs ++ ((x, t) ∷ [])) task current ≡ current
current_after-snoc [] x t task current = refl
current_after-snoc (n ∷ xs) x t task current = refl

module _ (cells : ℕ → Option Task) (current directory task page_directory process : ℕ)
    (real : task ≢ 0) (mapped : page_directory ≢ 0) where
  abbrev new : Task
  new = fresh_task page_directory process

  abbrev Appended : Nodes → Type 0
  Appended ns =
      (cells' : ℕ → Option Task) × (task_new task page_directory process
          (tasks_of cells ns current directory)
        ≡ done (
          ok task,
          tasks_of cells' (ns ++ ((task, new) ∷ [])) (current_after ns task current) directory,
        ))
      × Linked cells' 0 (ns ++ ((task, new) ∷ [])) 0
      × Distinct (ns ++ ((task, new) ∷ []))

  init_lem : task_init page_directory process ≡ (new, ok tt)
  unfolding task_init
  init_lem = rw (ne→== page_directory 0 mapped) refl

  -- task_new has a task and its pages: it appends.
  task_new_steps :
      (s s' : Tasks)
      → append task new (record s { cells = update s.cells task (some new) }) ≡ done s'
      → task_new task page_directory process s ≡ done (ok task, s')
  unfolding task_new
  task_new_steps s s' e = rw (ne→== task 0 real, init_lem, init_lem, e) refl

  append_first : Appended []
  unfolding append
  append_first = (
    update cells task (some new),
    task_new_steps (tasks_of cells [] current directory)
        (tasks_of (update cells task (some new)) ((task, new) ∷ []) task directory) first_steps,
    (real, update-at cells task (some new), tt),
    (tt, tt),
  )
    where
      first_steps :
          append task new (tasks_of (update cells task (some new)) [] current directory)
          ≡ done (tasks_of (update cells task (some new)) ((task, new) ∷ []) task directory)
      first_steps = refl

  append_next :
      (xs : Nodes) (x : ℕ) (t : Task)
      → Linked cells 0 (xs ++ ((x, t) ∷ [])) 0
      → Distinct (xs ++ ((x, t) ∷ []))
      → Avoids task (xs ++ ((x, t) ∷ []))
      → Appended (xs ++ ((x, t) ∷ []))
  append_next xs x t l d h =
      let (apart, other) = Avoids-append task xs ((x, t) ∷ []) h in
      let (cells', e, after) =
        appended_state cells xs x t task new current directory l real other.0 refl
          (Distinct-append xs x t [] d) apart in
      (
        cells',
        rw (current_after-snoc xs x t task current) (
            task_new_steps (tasks_of cells (xs ++ ((x, t) ∷ [])) current directory)
              (tasks_of cells' ((xs ++ ((x, t) ∷ [])) ++ ((task, new) ∷ [])) current directory) e),
        after,
        Distinct-snoc (xs ++ ((x, t) ∷ [])) task new d h,
      )

  -- On a well-formed list of distinct tasks, with a fresh task object and a page directory, task_new
  -- returns the task and appends it: the list holds the old tasks in their order and the new one
  -- behind them, linked both ways, still distinct. The new task starts at the program's entry in
  -- user mode; it becomes the current task exactly if the list was empty.
  pub task_new-Appended :
      (ns : Nodes)
      → Linked cells 0 ns 0
      → Distinct ns
      → Avoids task ns
      → (cells' : ℕ → Option Task) × (task_new task page_directory process
            (tasks_of cells ns current directory)
          ≡ done (
            ok task,
            tasks_of cells'
                (ns ++ ((task, fresh_task page_directory process) ∷ []))
                (current_after ns task current)
                directory,
          ))
        × Linked cells' 0 (ns ++ ((task, fresh_task page_directory process) ∷ [])) 0
        × Distinct (ns ++ ((task, fresh_task page_directory process) ∷ []))
  task_new-Appended ns l d h = elim (snoc_cases ns) [
    | inl e ↦
        subst (λ (m : Nodes). Linked cells 0 m 0 → Distinct m → Avoids task m → Appended m) (sym e)
          (λ _ _ _. append_first) l d h
    | inr (xs, x, t, e) ↦
        subst (λ (m : Nodes). Linked cells 0 m 0 → Distinct m → Avoids task m → Appended m) (sym e)
          (append_next xs x t) l d h
  ]
