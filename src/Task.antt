-- ===== src/Task.antt =====
-- src/task/task.c: the tasks as objects on a store, linked by their addresses, of which 0 is null.
-- What kzalloc and paging_new_4gb answer to task_new are arguments: an address, or null. The
-- tables that paging_free_4gb frees are not part of the store; it faults on a null chunk.
pub mod Steps
pub mod List
pub mod Append
pub mod Unlink
pub mod Remove
pub mod Dangling
pub mod Places
pub mod Switch
pub mod Fair
mod Tests
use peachos.Base.{ℕ, ◌+◌, ◌-◌, ◌*◌, Bool, not, Option, none, some, ◌==◌, if◌then◌else◌}
use peachos.Run.{Run, done, fault, panic, access, ◌>>=◌}
use peachos.Status.{Result, ok, err, Errno, eio, enomem}

pub record Registers : Type 0 where
  pub edi : ℕ
  pub esi : ℕ
  pub ebp : ℕ
  pub ebx : ℕ
  pub edx : ℕ
  pub ecx : ℕ
  pub eax : ℕ
  pub ip : ℕ
  pub cs : ℕ
  pub flags : ℕ
  pub esp : ℕ
  pub ss : ℕ

pub record InterruptFrame : Type 0 where
  pub edi : ℕ
  pub esi : ℕ
  pub ebp : ℕ
  pub reserved : ℕ
  pub ebx : ℕ
  pub edx : ℕ
  pub ecx : ℕ
  pub eax : ℕ
  pub ip : ℕ
  pub cs : ℕ
  pub flags : ℕ
  pub esp : ℕ
  pub ss : ℕ

pub record Task : Type 0 where
  pub page_directory : ℕ
  pub registers : Registers
  pub process : ℕ
  pub next : ℕ
  pub prev : ℕ

-- The store and the globals of the file; `directory` is the chunk that paging_switch has loaded.
pub record Tasks : Type 0 where
  pub cells : ℕ → Option Task
  pub current_task : ℕ
  pub task_tail : ℕ
  pub task_head : ℕ
  pub directory : ℕ

abbrev pub update : (ℕ → Option Task) → ℕ → Option Task → ℕ → Option Task
update cells a v b = if b == a then v else cells b

-- No object stands at the null pointer.
unfoldable pub load : ℕ → Tasks → Run Task
load p s = if p == 0 then fault else access (s.cells p)

unfoldable pub store : ℕ → Task → Tasks → Run Tasks
store p t s = do _ ← load p s; done (record s { cells = update s.cells p (some t) })

unfoldable pub set_next : ℕ → ℕ → Tasks → Run Tasks
set_next p q s = do t ← load p s; store p (record t { next = q }) s

unfoldable pub task_get_next : Tasks → Run ℕ
task_get_next s = do
  t ← load s.current_task s
  if t.next == 0 then done s.task_head else done t.next

-- `if (task->prev) task->prev->next = task->next`
unfoldable pub unlink : ℕ → Tasks → Run Tasks
unlink task s = do t ← load task s; if t.prev == 0 then done s else set_next t.prev t.next s

unfoldable pub move_head : ℕ → Tasks → Run Tasks
move_head task s = do
  t ← load task s
  done (if task == s.task_head then record s { task_head = t.next } else s)

unfoldable pub move_tail : ℕ → Tasks → Run Tasks
move_tail task s = do
  t ← load task s
  done (if task == s.task_tail then record s { task_tail = t.prev } else s)

unfoldable pub move_current : ℕ → Tasks → Run Tasks
move_current task s =
    let next = (do n ← task_get_next s; done (record s { current_task = n })) in
    if task == s.current_task then next else done s

unfoldable pub task_list_remove : ℕ → Tasks → Run Tasks
task_list_remove task s = do
  a ← unlink task s
  b ← move_head task a
  c ← move_tail task b
  move_current task c

unfoldable pub task_free : ℕ → Tasks → Run Tasks
task_free task s = do
  t ← load task s
  if t.page_directory == 0
      then fault
      else (do s' ← task_list_remove task s; done (record s' { cells = update s'.cells task none }))

abbrev pub program_virtual_address : ℕ
program_virtual_address = 0x400000

abbrev pub program_virtual_stack_address_start : ℕ
program_virtual_stack_address_start = 0x3FF000

abbrev pub user_data_segment : ℕ
user_data_segment = 0x23

abbrev pub user_code_segment : ℕ
user_code_segment = 0x1b

abbrev pub zero_registers : Registers
zero_registers = record {
  edi = 0;
  esi = 0;
  ebp = 0;
  ebx = 0;
  edx = 0;
  ecx = 0;
  eax = 0;
  ip = 0;
  cs = 0;
  flags = 0;
  esp = 0;
  ss = 0;
}

-- The object that memset leaves.
abbrev pub zero_task : Task
zero_task = record {
  page_directory = 0;
  registers = zero_registers;
  process = 0;
  next = 0;
  prev = 0;
}

-- The task that task_init leaves, and its code. The entry point does not depend on the file type,
-- since the line for ELF files is commented out.
unfoldable pub task_init : ℕ → ℕ → Task × Result (Unit {0})
task_init page_directory process = if page_directory == 0 then (zero_task, err eio) else (
  record {
    page_directory = page_directory;
    registers = record zero_registers {
      ip = program_virtual_address;
      ss = user_data_segment;
      cs = user_code_segment;
      esp = program_virtual_stack_address_start;
    };
    process = process;
    next = 0;
    prev = 0;
  },
  ok tt,
)

-- The new task at the end of the list.
unfoldable pub append : ℕ → Task → Tasks → Run Tasks
append task t s =
    if s.task_head == 0
    then done (record s { task_head = task; task_tail = task; current_task = task })
    else (do
      a ← set_next s.task_tail task s
      b ← store task (record t { prev = a.task_tail }) a
      done (record b { task_tail = task }))

-- The pointer or the negative code, and the state.
unfoldable pub task_new : ℕ → ℕ → ℕ → Tasks → Run (Result ℕ × Tasks)
task_new task page_directory process s =
    if task == 0
    then (do s' ← task_free task s; done (err enomem, s'))
    else let (t, res) = task_init page_directory process in
      let placed : Tasks = record s { cells = update s.cells task (some t) } in
      elim res [
        | ok _ ↦ (do s' ← append task t placed; done (ok task, s'))
        | err e ↦ (do s' ← task_free task placed; done (err e, s'))
      ]

-- paging_switch loads the chunk's directory; a null chunk is a fault.
unfoldable pub task_switch : ℕ → Tasks → Run Tasks
task_switch task s = do
  t ← load task s
  if t.page_directory == 0
      then fault
      else done (record s { current_task = task; directory = t.page_directory })

-- The registers handed to task_return, which leaves the kernel.
unfoldable pub task_next : Tasks → Run (Registers × Tasks)
task_next s = do
  next_task ← task_get_next s
  if next_task == 0
      then panic
      else (do s' ← task_switch next_task s; t ← load next_task s'; done (t.registers, s'))

unfoldable pub save_registers : Task → InterruptFrame → Task
save_registers task frame = record task {
  registers = record {
    edi = frame.edi;
    esi = frame.esi;
    ebp = frame.ebp;
    ebx = frame.ebx;
    edx = frame.edx;
    ecx = frame.ecx;
    eax = frame.eax;
    ip = frame.ip;
    cs = frame.cs;
    flags = frame.flags;
    esp = frame.esp;
    ss = frame.ss;
  };
}

unfoldable pub task_save_state : ℕ → InterruptFrame → Tasks → Run Tasks
task_save_state task frame s = do t ← load task s; store task (save_registers t frame) s

unfoldable pub task_current_save_state : InterruptFrame → Tasks → Run Tasks
task_current_save_state frame s =
    if s.current_task == 0 then panic else task_save_state s.current_task frame s

-- user_registers loads the segment registers of user mode.
unfoldable pub task_page : Tasks → Run Tasks
task_page s = task_switch s.current_task s

unfoldable pub task_run_first_ever_task : Tasks → Run (Registers × Tasks)
task_run_first_ever_task s =
    if s.current_task == 0
    then panic
    else (do s' ← task_switch s.task_head s; t ← load s'.task_head s'; done (t.registers, s'))
