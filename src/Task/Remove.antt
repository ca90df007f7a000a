-- ===== src/Task/Remove.antt =====
-- task_list_remove takes a task out of the list, as a walk along `next` sees it.
use mathlib.Core.Path.{subst}
use peachos.Base.{
  ℕ, ◌≡◌, refl, sym, ◌∙◌, ◌≢◌, inl, inr, Option, some, [], ◌∷◌, ◌++◌, ne→==, append_assoc,
}
use peachos.Run.{done}
use peachos.Task.{Task, update, unlink, task_list_remove}
use peachos.Task.Steps.{load_lem, set_next_lem}
use peachos.Task.List.{
  Nodes, first, last_of, Linked, Forward, Avoids, Distinct, Distinct-append, Distinct-drop,
  snoc_cases, Linked-update, Linked-cut, Forward-join, Forward-update, Linked-Forward,
  last_of-append, update-at, update-other, tasks_of,
}
use peachos.Task.Unlink.{rest_steps, successor_lem, Removed}

-- What the unlinking leaves, and the steps behind it.
module _ (cells cells' : ℕ → Option Task) (xs ys : Nodes) (a : ℕ) (t : Task) (current directory : ℕ)
    (real : a ≢ 0) (off_xs : Avoids a xs) (off_ys : Avoids a ys)
    (stands : cells' a ≡ some (record t { next = first ys 0; prev = last_of 0 xs }))
    (behind : Linked cells' a ys 0) (forward : Forward cells' (xs ++ ys) 0) where
  all_steps :
      unlink a (tasks_of cells (xs ++ ((a, t) ∷ ys)) current directory)
        ≡ done (tasks_of cells' (xs ++ ((a, t) ∷ ys)) current directory)
      → Removed cells xs a t ys current directory
  unfolding task_list_remove
  all_steps e = (
    cells',
    rw (e, ← successor_lem xs ys)
        (rest_steps cells' xs ys a t current directory real off_xs off_ys stands behind),
    forward,
    stands,
    behind,
  )

remove_first :
    (cells : ℕ → Option Task) (ys : Nodes) (a : ℕ) (t : Task) (current directory : ℕ)
    → Linked cells 0 ((a, t) ∷ ys) 0
    → Distinct ((a, t) ∷ ys)
    → Removed cells [] a t ys current directory
unfolding unlink
remove_first cells ys a t current directory l d =
    all_steps cells cells [] ys a t current directory l.0 tt d.0 l.1 l.2
      (Linked-Forward cells a ys 0 l.2)
      (rw
        (load_lem a (tasks_of cells ((a, t) ∷ ys) current directory)
          (record t { next = first ys 0; prev = 0 }) l.0 l.1)
        refl)

module _ (cells : ℕ → Option Task) (zs : Nodes) (x : ℕ) (u : Task) (ys : Nodes) (a : ℕ) (t : Task)
    (current directory : ℕ) (linked : Linked cells 0 ((zs ++ ((x, u) ∷ [])) ++ ((a, t) ∷ ys)) 0)
    (distinct : Distinct ((zs ++ ((x, u) ∷ [])) ++ ((a, t) ∷ ys))) where
  abbrev before : Nodes
  before = zs ++ ((x, u) ∷ [])

  abbrev cells' : ℕ → Option Task
  cells' = update cells x (some (record u { next = first ys 0; prev = last_of 0 zs }))

  parts : Linked cells 0 before a × Linked cells (last_of 0 before) ((a, t) ∷ ys) 0
  parts = Linked-cut cells ((a, t) ∷ ys) 0 0 before linked

  front_parts : Linked cells 0 zs x × Linked cells (last_of 0 zs) ((x, u) ∷ []) a
  front_parts = Linked-cut cells ((x, u) ∷ []) a 0 zs parts.0

  spread : Distinct (zs ++ ((x, u) ∷ ((a, t) ∷ ys)))
  spread = rw (← append_assoc zs ((x, u) ∷ []) ((a, t) ∷ ys)) distinct

  off : Avoids x ((a, t) ∷ ys)
  off = (Distinct-drop zs ((x, u) ∷ ((a, t) ∷ ys)) spread).0

  unlink_later :
      unlink a (tasks_of cells (before ++ ((a, t) ∷ ys)) current directory)
      ≡ done (tasks_of cells' (before ++ ((a, t) ∷ ys)) current directory)
  unfolding unlink
  unlink_later =
      let s = tasks_of cells (before ++ ((a, t) ∷ ys)) current directory in
      rw
        (
          load_lem a s (record t { next = first ys 0; prev = last_of 0 before }) parts.1.0
              parts.1.1,
          last_of-append 0 zs ((x, u) ∷ []),
          ne→== x 0 front_parts.1.0,
          set_next_lem x s (record u { next = a; prev = last_of 0 zs }) front_parts.1.0
              front_parts.1.1 (first ys 0),
        )
        refl

  remove_later : Removed cells before a t ys current directory
  remove_later =
      let off_front = Distinct-append zs x u ((a, t) ∷ ys) spread in
      let kept =
        Linked-update cells x (some (record u { next = first ys 0; prev = last_of 0 zs })) a ys 0
          off.1 parts.1.2 in
      all_steps cells cells' before ys a t current directory parts.1.0
        (Distinct-append before a t ys distinct) (Distinct-drop before ((a, t) ∷ ys) distinct).0
        (update-other cells x a (some (record u { next = first ys 0; prev = last_of 0 zs })) off.0
          ∙ parts.1.1)
        kept
        (Forward-join cells' ys 0 before
          (Forward-join cells' ((x, u) ∷ []) (first ys 0) zs
            (Forward-update cells x (some (record u { next = first ys 0; prev = last_of 0 zs })) zs
              x off_front (Linked-Forward cells 0 zs x front_parts.0))
            (
              front_parts.1.0,
              (
                last_of 0 zs,
                update-at cells x (some (record u { next = first ys 0; prev = last_of 0 zs })),
              ),
              tt,
            ))
          (Linked-Forward cells' a ys 0 kept))
        unlink_later

-- A task of a well-formed list of distinct tasks is taken out by task_list_remove: a walk from the
-- head sees the tasks in front of it and behind it, in their order, and the tail is right. The
-- turn stays where it is unless the task is the current one: then it passes to the task
-- behind it, or to the head if it is the last. Neither its own object nor those
-- behind it are written.
pub task_list_remove-Removed :
    (cells : ℕ → Option Task) (xs : Nodes) (a : ℕ) (t : Task) (ys : Nodes) (current directory : ℕ)
    → Linked cells 0 (xs ++ ((a, t) ∷ ys)) 0
    → Distinct (xs ++ ((a, t) ∷ ys))
    → Removed cells xs a t ys current directory
task_list_remove-Removed cells xs a t ys current directory l d = elim (snoc_cases xs) [
  | inl e ↦
      subst
        (λ (m : Nodes).
          Linked cells 0 (m ++ ((a, t) ∷ ys)) 0
          → Distinct (m ++ ((a, t) ∷ ys))
          → Removed cells m a t ys current directory)
        (sym e) (remove_first cells ys a t current directory) l d
  | inr (zs, x, u, e) ↦
      subst
        (λ (m : Nodes).
          Linked cells 0 (m ++ ((a, t) ∷ ys)) 0
          → Distinct (m ++ ((a, t) ∷ ys))
          → Removed cells m a t ys current directory)
        (sym e) (remove_later cells zs x u ys a t current directory) l d
]
