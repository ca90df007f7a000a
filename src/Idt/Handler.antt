-- ===== src/Idt/Handler.antt =====
-- What an interrupted task finds when the kernel returns to it.
use peachos.Base.{ℕ, ◌≡◌, ◌≢◌, refl, Option, some, ◌∷◌, ◌++◌, get_elem?, ne→==}
use peachos.Base.Int.{ℤ}
use peachos.Run.{Run, done}
use peachos.Idt.{Idt, kernel_page, interrupt_handler, isr80h_handle_command, isr80h_handler}
use peachos.Task.{Task, Tasks, InterruptFrame, task_switch, task_page}
use peachos.Task.Steps.{load_lem}
use peachos.Task.List.{Nodes, first, last_of, Linked, Distinct, Linked-cut, tasks_of}
use peachos.Task.Switch.{frame_registers, task_current_save_state-saved}

-- task_page loads the page directory of the current task, and changes nothing else.
page_lem :
    (cells : ℕ → Option Task) (xs : Nodes) (a : ℕ) (t : Task) (ys : Nodes) (directory : ℕ)
    → Linked cells 0 (xs ++ ((a, t) ∷ ys)) 0
    → t.page_directory ≢ 0
    → task_page (tasks_of cells (xs ++ ((a, t) ∷ ys)) a directory)
      ≡ done (tasks_of cells (xs ++ ((a, t) ∷ ys)) a t.page_directory)
unfolding task_page task_switch
page_lem cells xs a t ys directory l mapped =
    let here = (Linked-cut cells ((a, t) ∷ ys) 0 0 xs l).1 in
    rw
      (
        load_lem a (tasks_of cells (xs ++ ((a, t) ∷ ys)) a directory)
            (record t { next = first ys 0; prev = last_of 0 xs }) here.0 here.1,
        ne→== t.page_directory 0 mapped,
      )
      refl

module _ (kernel_chunk : ℕ) (idt : Idt) (cells : ℕ → Option Task) (xs : Nodes) (a : ℕ) (t : Task)
    (ys : Nodes) (directory : ℕ) (frame : InterruptFrame)
    (linked : Linked cells 0 (xs ++ ((a, t) ∷ ys)) 0) (mapped : t.page_directory ≢ 0) where
  -- An interrupt without a callback, taken while a task of a well-formed list runs: the handler
  -- returns with the page directory of that task loaded, and has changed no task.
  pub interrupt_handler-unhandled :
      (call : ℕ → InterruptFrame → Tasks → Run Tasks) (interrupt : ℕ)
      → get_elem? idt.interrupt_callbacks interrupt ≡ some 0
      → interrupt_handler kernel_chunk idt call interrupt frame
          (tasks_of cells (xs ++ ((a, t) ∷ ys)) a directory)
        ≡ done (tasks_of cells (xs ++ ((a, t) ∷ ys)) a t.page_directory)
  unfolding interrupt_handler kernel_page
  interrupt_handler-unhandled call interrupt e =
      rw (e, page_lem cells xs a t ys kernel_chunk linked mapped) refl

  -- A command of interrupt 0x80 whose handling returns `res` and leaves the tasks alone, from a task
  -- of a well-formed list of distinct tasks: isr80h_handler returns `res` with the page
  -- directory of that task loaded; the frame is saved in the task, and no other task changes.
  pub isr80h_handler-returns :
      (call : ℕ → InterruptFrame → Tasks → Run (ℕ × Tasks)) (command : ℤ) (res : ℕ)
      → Distinct (xs ++ ((a, t) ∷ ys))
      → ((s : Tasks) → isr80h_handle_command kernel_chunk idt call command frame s ≡ done (res, s))
      → (after : ℕ → Option Task) × (isr80h_handler kernel_chunk idt call command frame
            (tasks_of cells (xs ++ ((a, t) ∷ ys)) a directory)
          ≡ done (
            res,
            tasks_of after
                (xs ++ ((a, record t { registers = frame_registers frame }) ∷ ys))
                a
                t.page_directory,
          ))
        × Linked after 0 (xs ++ ((a, record t { registers = frame_registers frame }) ∷ ys)) 0
  unfolding isr80h_handler kernel_page
  isr80h_handler-returns call command res distinct leaves =
      let saved = record t { registers = frame_registers frame } in
      let (after, e, l) =
        task_current_save_state-saved cells xs a t ys kernel_chunk frame linked distinct in
      (
        after,
        rw
            (
              e,
              leaves (tasks_of after (xs ++ ((a, saved) ∷ ys)) a kernel_chunk),
              page_lem after xs a saved ys kernel_chunk l mapped,
            )
            refl,
        l,
      )
