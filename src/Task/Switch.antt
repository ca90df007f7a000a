-- ===== src/Task/Switch.antt =====
-- The round-robin turn, and the registers of a task that is interrupted.
use native.Mathlib.Nat.{mod-eq_of_lt, mod_self}
use peachos.Base.{
  ℕ, suc, ◌+◌, ◌%◌, ◌<◌, ◌≡◌, refl, sym, ap, ◌∙◌, ◌≢◌, ◌⊎◌, Option, some, ◌∷◌, ◌++◌, ne→==, ◌==◌,
  Bool-cases, inl, inr, if◌then◌else◌, arith, length, get_elem?, drop, dec_lt,
}
use peachos.Run.{done, fault}
use peachos.Task.{
  Task, Tasks, Registers, InterruptFrame, update, load, task_get_next, task_switch, task_next,
  save_registers, task_save_state, task_current_save_state,
}
use peachos.Task.Steps.{load_lem, store_lem}
use peachos.Task.List.{
  Nodes, first, last_of, Linked, Distinct, Distinct-append, Distinct-drop, Linked-cut, Linked-join,
  Linked-update, update-at, tasks_of, first-append, last_of-append,
}
use peachos.Task.Places.{node-at, first-drop, first-drop_end, get_elem?-lt}

module _ (cells : ℕ → Option Task) (ns : Nodes) (i a b directory : ℕ) (t u : Task)
    (linked : Linked cells 0 ns 0) (at_i : get_elem? ns i ≡ some (a, t))
    (at_next : get_elem? ns ((i + 1) % length ns) ≡ some (b, u)) where
  abbrev state : Tasks
  state = tasks_of cells ns a directory

  wraps : (suc i < length ns) ⊎ (length ns ≡ suc i)
  wraps = elim (dec_lt (suc i) (length ns)) [
    | yes h ↦ inl h
    | no h ↦ inr (omega (arith, get_elem?-lt ns i a t at_i))
  ]

  here_at :
      (a ≢ 0)
      × ((p : ℕ) × (cells a ≡ some (record t { next = first (drop (suc i) ns) 0; prev = p })))
  here_at = node-at cells 0 ns 0 i a t linked at_i

  -- The turn by the link that the code reads.
  turn : ℕ → ℕ
  turn n = if n == 0 then first ns 0 else n

  next_node : task_get_next state ≡ done (turn (first (drop (suc i) ns) 0))
  unfolding task_get_next turn
  next_node =
      let link = first (drop (suc i) ns) 0 in
      elim (Bool-cases (link == 0)) [
        | inl h ↦
            rw
              (
                load_lem a state (record t { next = link; prev = here_at.1.0 }) here_at.0
                    here_at.1.1,
                h,
              )
              refl
        | inr h ↦
            rw
              (
                load_lem a state (record t { next = link; prev = here_at.1.0 }) here_at.0
                    here_at.1.1,
                h,
              )
              refl
      ]

  turn_lem : turn (first (drop (suc i) ns) 0) ≡ b
  unfolding turn
  turn_lem = elim wraps [
    | inl h ↦
        let small : i + 1 < length ns = omega arith in
        let e : suc i ≡ (i + 1) % length ns = omega (arith, mod-eq_of_lt small) in
        let at_b = ap (get_elem? ns) e ∙ at_next in
        rw (
          first-drop ns 0 (suc i) b u at_b,
          ne→== b 0 (node-at cells 0 ns 0 (suc i) b u linked at_b).0,
        )
    | inr h ↦
        let full : i + 1 ≡ length ns = omega arith in
        let e : 0 ≡ (i + 1) % length ns =
          sym (ap (λ n. n % length ns) full ∙ mod_self (length ns)) in
        let at_b = ap (get_elem? ns) e ∙ at_next in
        rw (first-drop_end ns 0 (suc i) (omega arith)) (first-drop ns 0 0 b u at_b)
  ]

  -- The task at place `i` of a well-formed list is the current one: task_next switches to the one at
  -- place `i + 1` modulo the number of tasks, loads its page directory, and hands its saved
  -- registers to task_return. Nothing else changes.
  pub task_next-turn :
      u.page_directory ≢ 0
      → task_next state ≡ done (u.registers, tasks_of cells ns b u.page_directory)
  unfolding task_next task_switch
  task_next-turn mapped =
      let there = node-at cells 0 ns 0 ((i + 1) % length ns) b u linked at_next in
      let v = record u { next = first (drop (suc ((i + 1) % length ns)) ns) 0; prev = there.1.0 } in
      rw
        (
          next_node,
          turn_lem,
          ne→== b 0 there.0,
          load_lem b state v there.0 there.1.1,
          ne→== u.page_directory 0 mapped,
          load_lem b (tasks_of cells ns b u.page_directory) v there.0 there.1.1,
        )
        refl

-- Without any task the check for a panic comes too late: the current task is read first.
pub task_next-fault : (s : Tasks) → s.current_task ≡ 0 → task_next s ≡ fault
unfolding task_next task_get_next load
task_next-fault s e = rw e refl

-- The registers of the frame.
abbrev pub frame_registers : InterruptFrame → Registers
frame_registers frame = record {
  edi = frame.edi;
  esi = frame.esi;
  ebp = frame.ebp;
  ebx = frame.ebx;
  edx = frame.edx;
  ecx = frame.ecx;
  eax = frame.eax;
  ip = frame.ip;
  cs = frame.cs;
  flags = frame.flags;
  esp = frame.esp;
  ss = frame.ss;
}

module _ (cells : ℕ → Option Task) (xs : Nodes) (a : ℕ) (t : Task) (ys : Nodes) (directory : ℕ)
    (frame : InterruptFrame) (linked : Linked cells 0 (xs ++ ((a, t) ∷ ys)) 0)
    (distinct : Distinct (xs ++ ((a, t) ∷ ys))) where
  abbrev saved : Task
  saved = record t { registers = frame_registers frame }

  abbrev cells' : ℕ → Option Task
  cells' = update cells a (some (record saved { next = first ys 0; prev = last_of 0 xs }))

  save_steps :
      task_current_save_state frame (tasks_of cells (xs ++ ((a, t) ∷ ys)) a directory)
      ≡ done (record (tasks_of cells (xs ++ ((a, t) ∷ ys)) a directory) { cells = cells' })
  unfolding task_current_save_state task_save_state save_registers
  save_steps =
      let s = tasks_of cells (xs ++ ((a, t) ∷ ys)) a directory in
      let (real, stands, _) = (Linked-cut cells ((a, t) ∷ ys) 0 0 xs linked).1 in
      let v = record t { next = first ys 0; prev = last_of 0 xs } in
      rw
        (
          ne→== a 0 real,
          load_lem a s v real stands,
          store_lem a s v real stands (record saved { next = first ys 0; prev = last_of 0 xs }),
        )
        refl

  saved-Linked : Linked cells' 0 (xs ++ ((a, saved) ∷ ys)) 0
  saved-Linked =
      let both = Linked-cut cells ((a, t) ∷ ys) 0 0 xs linked in
      let v = some (record saved { next = first ys 0; prev = last_of 0 xs }) in
      Linked-join cells' ((a, saved) ∷ ys) 0 0 xs
        (Linked-update cells a v 0 xs a (Distinct-append xs a t ys distinct) both.0)
        (
          both.1.0,
          update-at cells a v,
          Linked-update cells a v a ys 0 (Distinct-drop xs ((a, t) ∷ ys) distinct).0 both.1.2,
        )

  -- The current task of a well-formed list of distinct tasks is interrupted:
  -- task_current_save_state puts the twelve registers of the frame into the task, and
  -- the list holds the same tasks in the same order with all else unchanged.
  pub task_current_save_state-saved :
      (after : ℕ → Option Task) × (task_current_save_state frame
          (tasks_of cells (xs ++ ((a, t) ∷ ys)) a directory)
        ≡ done (
            tasks_of after
              (xs ++ ((a, record t { registers = frame_registers frame }) ∷ ys))
              a
              directory))
      × Linked after 0 (xs ++ ((a, record t { registers = frame_registers frame }) ∷ ys)) 0
  task_current_save_state-saved = (
    cells',
    rw
        (
          first-append xs ((a, saved) ∷ ys) 0,
          ← first-append xs ((a, t) ∷ ys) 0,
          last_of-append 0 xs ((a, saved) ∷ ys),
          ← last_of-append 0 xs ((a, t) ∷ ys),
        )
        save_steps,
    saved-Linked,
  )
