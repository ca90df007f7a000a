-- ===== src/Task/Unlink.antt =====
-- The steps of task_list_remove behind the unlinking, and the task that follows.
use mathlib.Core.Path.{subst}
use peachos.Base.{
  ℕ, ◌≡◌, refl, ◌≢◌, inl, inr, Option, some, [], ◌∷◌, ◌++◌, ne→==, ==_refl, ==_iff, Bool-cases,
  false, ◌==◌, if◌then◌else◌,
}
use peachos.Run.{done, ◌>>=◌}
use peachos.Task.{Task, Tasks, move_head, move_tail, move_current, task_get_next, task_list_remove}
use peachos.Task.Steps.{load_lem}
use peachos.Task.List.{
  Nodes, first, last_of, Linked, Forward, Avoids, last_of-append, first-append, tasks_of,
}

Avoids-last_of : (a b : ℕ) (u : Task) (ys : Nodes) → Avoids a ((b, u) ∷ ys) → a ≢ last_of b ys
Avoids-last_of a b u [] h = h.0
Avoids-last_of a b u ((c, v) ∷ ys) h = Avoids-last_of a c v ys h.1

-- The task that follows, in turn, one between `xs` and `ys`.
abbrev pub successor : Nodes → Nodes → ℕ
successor xs ys = first ys (first xs 0)

-- A task between `xs` and `ys`.
module _ (cells : ℕ → Option Task) (xs ys : Nodes) (a : ℕ) (t : Task) (current directory : ℕ)
    (real : a ≢ 0) (off_xs : Avoids a xs) (off_ys : Avoids a ys)
    (stands : cells a ≡ some (record t { next = first ys 0; prev = last_of 0 xs })) where
  abbrev node : Task
  node = record t { next = first ys 0; prev = last_of 0 xs }

  abbrev state : ℕ → ℕ → ℕ → Tasks
  state head tail cur = record {
    cells = cells;
    current_task = cur;
    task_tail = tail;
    task_head = head;
    directory = directory;
  }

  head_lem :
      (zs : Nodes)
      → Avoids a zs
      → (tail : ℕ)
      → move_head a (state (first (zs ++ ((a, t) ∷ ys)) 0) tail current)
        ≡ done (state (first (zs ++ ys) 0) tail current)
  unfolding move_head
  head_lem [] h tail = rw (load_lem a (state a tail current) node real stands, ==_refl a) refl
  head_lem ((b, u) ∷ zs) h tail =
      rw (load_lem a (state b tail current) node real stands, ne→== a b h.0) refl

  tail_lem :
      (head : ℕ) (zs : Nodes)
      → Avoids a zs
      → move_tail a (state head (last_of a zs) current)
        ≡ done (state head (last_of (last_of 0 xs) zs) current)
  unfolding move_tail
  tail_lem head [] h = rw (load_lem a (state head a current) node real stands, ==_refl a) refl
  tail_lem head ((b, u) ∷ zs) h =
      rw
        (
          load_lem a (state head (last_of b zs) current) node real stands,
          ne→== a (last_of b zs) (Avoids-last_of a b u zs h),
        )
        refl

  -- The turn passes on if the task itself is the current one.
  current_at :
      (head tail : ℕ) (zs : Nodes)
      → first ys 0 ≡ first zs 0
      → Linked cells a zs 0
      → move_current a (state head tail a) ≡ done (state head tail (first zs head))
  unfolding move_current task_get_next
  current_at head tail [] e l =
      rw (==_refl a, load_lem a (state head tail a) node real stands, e) refl
  current_at head tail ((b, u) ∷ zs) e l =
      rw (==_refl a, load_lem a (state head tail a) node real stands, e, ne→== b 0 l.0) refl

  current_other :
      (head tail : ℕ)
      → (a == current) ≡ false
      → move_current a (state head tail current) ≡ done (state head tail current)
  unfolding move_current
  current_other head tail h = rw h refl

  current_lem :
      (head tail : ℕ)
      → Linked cells a ys 0
      → move_current a (state head tail current)
        ≡ done (state head tail (if a == current then first ys head else current))
  current_lem head tail l = elim (Bool-cases (a == current)) [
    | inl h ↦
        subst
          (λ c.
            move_current a (state head tail c)
            ≡ done (state head tail (if a == c then first ys head else c)))
          ((==_iff a current).0 h) (rw (==_refl a) (current_at head tail ys refl l))
    | inr h ↦ rw h (current_other head tail h)
  ]

  -- The three steps behind the unlinking.
  pub rest_steps :
      Linked cells a ys 0
      → (do
        p ←
            move_head a
              (state (first (xs ++ ((a, t) ∷ ys)) 0) (last_of 0 (xs ++ ((a, t) ∷ ys))) current)
        q ← move_tail a p
        move_current a q)
        ≡ done (
            tasks_of cells
              (xs ++ ys)
              (if a == current then first ys (first (xs ++ ys) 0) else current)
              directory)
  rest_steps l =
      rw
        (
          head_lem xs off_xs (last_of 0 (xs ++ ((a, t) ∷ ys))),
          last_of-append 0 xs ((a, t) ∷ ys),
          tail_lem (first (xs ++ ys) 0) ys off_ys,
          last_of-append 0 xs ys,
        )
        (current_lem (first (xs ++ ys) 0) (last_of (last_of 0 xs) ys) l)

pub successor_lem : (xs ys : Nodes) → first ys (first (xs ++ ys) 0) ≡ successor xs ys
successor_lem xs [] = first-append xs [] 0
successor_lem xs (n ∷ ys) = refl

-- The list without a task between `xs` and `ys`.
abbrev pub Removed : (ℕ → Option Task) → Nodes → ℕ → Task → Nodes → ℕ → ℕ → Type 0
Removed cells xs a t ys current directory =
    (cells' : ℕ → Option Task) × (task_list_remove a
        (tasks_of cells (xs ++ ((a, t) ∷ ys)) current directory)
      ≡ done (
          tasks_of cells' (xs ++ ys) (if a == current then successor xs ys else current) directory))
    × Forward cells' (xs ++ ys) 0
    × (cells' a ≡ some (record t { next = first ys 0; prev = last_of 0 xs }))
    × Linked cells' a ys 0
