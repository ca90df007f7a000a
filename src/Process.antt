-- ===== src/Process.antt =====
-- src/task/process.c: the table of processes, and idt_handle_exception and idt_clock of
-- src/idt/idt.c, which act on it and on the tasks. A process is its object's address. The most of
-- process_free_process and process_switch_to_any is commented out in the source.
pub mod Terminate
pub mod Load
pub mod Stages
pub mod Loaded
mod Tests
use peachos.Base.{
  ℕ, ◌+◌, List, [], ◌∷◌, Option, none, some, get_elem?, set?, leb, ◌==◌, if◌then◌else◌,
}
use peachos.Base.Int.{ℤ, pos, negsuc}
use peachos.Run.{Run, done, fault, access, ◌>>=◌}
use peachos.Status.{Result, ok, err, eistkn}
use peachos.Task.{Tasks, Registers, load, task_next}

abbrev pub max_processes : ℕ
max_processes = 12

-- The fields that the file uses; the allocations, the arguments and the keyboard buffer are only
-- cleared.
pub record Process : Type 0 where
  pub id : ℕ
  pub filename : List ℕ
  pub task : ℕ
  pub filetype : ℕ
  pub ptr : ℕ
  pub stack : ℕ
  pub size : ℕ

-- The globals of the file, the objects of the processes by address, and the tasks.
pub record Processes : Type 0 where
  pub processes : List ℕ
  pub current_process : ℕ
  pub objects : ℕ → Option Process
  pub tasks : Tasks

-- 0 for NULL.
unfoldable pub process_get : ℤ → Processes → Run ℕ
process_get (negsuc n) s = done 0
process_get (pos process_id) s =
    if leb max_processes process_id then done 0 else access (get_elem? s.processes process_id)

-- It always returns 0.
unfoldable pub process_switch : ℕ → Processes → Processes
process_switch process s = record s { current_process = process }

-- The loop over the slots from the head of the list on.
unfoldable pub switch_loop : List ℕ → Processes → Processes
switch_loop [] s = s
switch_loop (p ∷ ps) s = let rest = switch_loop ps s in if p == 0 then rest else process_switch p s

unfoldable pub process_switch_to_any : Processes → Processes
process_switch_to_any s = switch_loop s.processes s

unfoldable pub process_unlink : ℕ → Processes → Run Processes
process_unlink process s = do
  p ← if process == 0 then fault else access (s.objects process)
  ps ← access (set? s.processes p.id 0)
  let unlinked : Processes = record s { processes = ps }
  done (if s.current_process == process then process_switch_to_any unlinked else unlinked)

unfoldable pub process_free_process : ℕ → Processes → ℕ × Processes
process_free_process process s = (1, s)

unfoldable pub process_terminate : ℕ → Processes → Run (ℕ × Processes)
process_terminate process s = do
  s' ← process_unlink process s
  done (process_free_process process s')

-- The loop from slot `i` on.
unfoldable pub free_slot_loop : ℕ → List ℕ → Result ℕ
free_slot_loop i [] = err eistkn
free_slot_loop i (p ∷ ps) = let rest = free_slot_loop (i + 1) ps in if p == 0 then ok i else rest

unfoldable pub process_get_free_slot : Processes → Result ℕ
process_get_free_slot s = free_slot_loop 0 s.processes

-- The registers that task_next hands to task_return.
unfoldable pub idt_clock : Processes → Run (Registers × Processes)
idt_clock s = do
  (registers, tasks) ← task_next s.tasks
  done (registers, record s { tasks = tasks })

unfoldable pub idt_handle_exception : Processes → Run (Registers × Processes)
idt_handle_exception s = do
  t ← load s.tasks.current_task s.tasks
  (_, s') ← process_terminate t.process s
  (registers, tasks) ← task_next s'.tasks
  done (registers, record s' { tasks = tasks })
