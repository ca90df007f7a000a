-- ===== src/Task/Dangling.antt =====
-- What task_free leaves of the links: task_list_remove does not write `task->next->prev`.
use peachos.Base.{
  ℕ, ◌≡◌, refl, ◌∙◌, ◌≢◌, Option, some, none, ◌∷◌, ◌++◌, ne→==, ◌==◌, Bool-cases, inl, inr,
  if◌then◌else◌,
}
use peachos.Run.{done, fault}
use peachos.Task.{Task, Tasks, update, load, set_next, unlink, task_list_remove, task_free}
use peachos.Task.Steps.{load_lem}
use peachos.Task.List.{
  Nodes, first, last_of, Linked, Distinct, Distinct-drop, Linked-cut, update-at, update-other,
  tasks_of,
}
use peachos.Task.Remove.{task_list_remove-Removed}
use peachos.Task.Unlink.{successor}

unlink_gone :
    (s : Tasks) (a b : ℕ) (u : Task)
    → a ≢ 0
    → b ≢ 0
    → s.cells a ≡ none
    → s.cells b ≡ some u
    → u.prev ≡ a
    → unlink b s ≡ fault
unfolding unlink set_next load
unlink_gone s a b u real_a real_b gone stands back =
    rw (ne→== b 0 real_b, stands, back, ne→== a 0 real_a, gone) refl

-- A task whose predecessor has been freed cannot be freed.
free_behind :
    (s : Tasks) (a b : ℕ) (u : Task)
    → a ≢ 0
    → b ≢ 0
    → s.cells a ≡ none
    → s.cells b ≡ some u
    → u.prev ≡ a
    → task_free b s ≡ fault
unfolding task_free task_list_remove
free_behind s a b u real_a real_b gone stands back =
    let found = load_lem b s u real_b stands in
    let stuck = unlink_gone s a b u real_a real_b gone stands back in
    elim (Bool-cases (u.page_directory == 0)) [
      | inl h ↦ rw (found, h) refl
      | inr h ↦ rw (found, h, stuck) refl
    ]

free_steps :
    (s s' : Tasks) (a : ℕ) (t : Task)
    → a ≢ 0
    → s.cells a ≡ some t
    → t.page_directory ≢ 0
    → task_list_remove a s ≡ done s'
    → task_free a s ≡ done (record s' { cells = update s'.cells a none })
unfolding task_free
free_steps s s' a t real stands mapped e =
    rw (load_lem a s t real stands, ne→== t.page_directory 0 mapped, e) refl

-- In a well-formed list of distinct tasks, task_free of a task with a successor succeeds. The
-- successor still points back to the freed object, and task_free of the successor then writes
-- through that pointer.
pub task_free-dangles :
    (cells : ℕ → Option Task) (xs : Nodes) (a b : ℕ) (t u : Task) (ys : Nodes)
    (current directory : ℕ)
    → Linked cells 0 (xs ++ ((a, t) ∷ ((b, u) ∷ ys))) 0
    → Distinct (xs ++ ((a, t) ∷ ((b, u) ∷ ys)))
    → t.page_directory ≢ 0
    → (s' : Tasks) × (task_free a
          (tasks_of cells (xs ++ ((a, t) ∷ ((b, u) ∷ ys))) current directory)
        ≡ done s')
      × (s'.cells b ≡ some (record u { next = first ys 0; prev = a }))
      × (s'.cells a ≡ none)
      × (task_free b s' ≡ fault)
task_free-dangles cells xs a b t u ys current directory l d mapped =
    let rest = ((b, u) ∷ ys) in
    let (cells', e, _, _, behind) =
      task_list_remove-Removed cells xs a t ((b, u) ∷ ys) current directory l d in
    let (real, stands, _) = (Linked-cut cells ((a, t) ∷ ((b, u) ∷ ys)) 0 0 xs l).1 in
    let apart = (Distinct-drop xs ((a, t) ∷ ((b, u) ∷ ys)) d).0 in
    let kept = update-other cells' a b none apart.0 ∙ behind.1 in
    let gone = update-at cells' a none in
    let after = if a == current then successor xs ((b, u) ∷ ys) else current in
    let s' = record (tasks_of cells' (xs ++ ((b, u) ∷ ys)) after directory) {
      cells = update cells' a none;
    } in
    (
      s',
      free_steps (tasks_of cells (xs ++ ((a, t) ∷ ((b, u) ∷ ys))) current directory)
          (tasks_of cells' (xs ++ ((b, u) ∷ ys)) after directory) a
          (record t { next = b; prev = last_of 0 xs }) real stands mapped e,
      kept,
      gone,
      free_behind s' a b (record u { next = first ys 0; prev = a }) real behind.0 gone kept refl,
    )
