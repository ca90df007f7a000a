-- ===== src/Process/Load.antt =====
-- src/task/process.c: process_load and what it calls. What kzalloc, kmalloc and paging_new_4gb
-- answer is the record Answers. The memory is the words that paging writes, after
-- paging_new_4gb; the bytes that fread puts behind `ptr` are left out. The body of
-- process_load_elf is commented out in the source, so process_load_binary is never called.
use peachos.Base.{
  ℕ, ◌+◌, ◌-◌, ◌*◌, ◌^◌, ◌%◌, List, [], ◌∷◌, Option, some, set?, replicate, ◌==◌, if◌then◌else◌,
  not,
}
use peachos.Base.Int.{pos}
use peachos.Run.{Run, done, panic, access, ◌>>=◌}
use peachos.Status.{Result, ok, err, Errno, eio, enomem, eistkn, einformat, errno_code}
use peachos.Stringos.{strncpy}
use peachos.Paging.{Mem, map_to, align_address}
use peachos.File.{Files, FileDescriptor, fopen, fstat, fread, fclose}
use peachos.Task.{load, task_new}
use peachos.Process.{Process, Processes, process_get, process_free_process, process_get_free_slot}

-- An address, or 0 for null; a descriptor for fopen, or none.
pub record Answers (V : Type 0) : Type 0 where
  pub process : ℕ
  pub stack : ℕ
  pub task : ℕ
  pub page_directory : ℕ
  pub program_data_ptr : ℕ
  pub descriptor : Option (FileDescriptor V)

-- The processes and tasks, the memory of the page tables, and the open files.
pub record Loader (V : Type 0) : Type 0 where
  pub table : Processes
  pub mem : Mem
  pub files : Files V

abbrev pub max_path : ℕ
max_path = 108

abbrev pub user_program_stack_size : ℕ
user_program_stack_size = 1024 * 16

abbrev pub program_virtual_stack_address_end : ℕ
program_virtual_stack_address_end = 0x3FF000 - user_program_stack_size

-- PAGING_IS_PRESENT | PAGING_ACCESS_FROM_ALL | PAGING_IS_WRITEABLE
abbrev pub user_page : ℕ
user_page = 0b111

abbrev pub zero_process : Process
zero_process = record {
  id = 0;
  filename = replicate max_path 0;
  task = 0;
  filetype = 0;
  ptr = 0;
  stack = 0;
  size = 0;
}

-- The object at its address.
abbrev pub put : ℕ → Process → Processes → Processes
put p object s = record s { objects = λ q. if q == p then some object else s.objects q }

unfoldable pub process_map_binary : Process → Processes → Mem → Run (Result (Unit {0}) × Mem)
process_map_binary process s mem = do
  t ← load process.task s.tasks
  let end = align_address ((process.ptr + process.size) % 2 ^ 32)
  let (mem', _) = map_to mem t.page_directory 0x400000 process.ptr end user_page
  done (ok tt, mem')

unfoldable pub process_map_elf : Process → Mem → Result (Unit {0}) × Mem
process_map_elf process mem = (ok tt, mem)

-- The call of paging_map_to for the stack.
unfoldable pub map_stack : Process → Processes → Mem → Run (Result (Unit {0}) × Mem)
map_stack process s mem = do
  t ← load process.task s.tasks
  let end = align_address ((process.stack + user_program_stack_size) % 2 ^ 32)
  let (mem', _) =
      map_to mem t.page_directory program_virtual_stack_address_end process.stack end user_page
  done (ok tt, mem')

unfoldable pub process_map_memory : Process → Processes → Mem → Run (Result (Unit {0}) × Mem)
process_map_memory process s mem = do
  (res, mem') ←
      (if process.filetype == 0
        then done (process_map_elf process mem)
        else if process.filetype == 1
        then process_map_binary process s mem
        else panic)
  elim res [ err e ↦ done (err e, mem') | ok _ ↦ map_stack process s mem' ]

module _ {V : Type 0} (answers : Answers V) where
  -- The clean-up of process_load_binary: the data is freed, the file is closed.
  unfoldable pub load_binary_out :
      Result (Unit {0}) → ℕ → Process → Files V → Run (Result (Unit {0}) × Process × Files V)
  load_binary_out res fd process s = do (_, s') ← fclose (pos fd) s; done (res, process, s')

  unfoldable pub process_load_binary :
      List ℕ → Process → Files V → Run (Result (Unit {0}) × Process × Files V)
  process_load_binary filename process s = do
    (fd, a) ← fopen (answers.descriptor) filename (b'r' ∷ 0 ∷ []) s
    let opened = (do
      (res, b) ← fstat (pos fd) a
      elim res [
        | err e ↦ load_binary_out (err e) fd process b
        | ok stat ↦
            let reads = (do
              (n, _, c) ← fread stat.filesize 1 (pos fd) b
              elim n [
                | err _ ↦ load_binary_out (err eio) fd process c
                | ok n ↦
                    let loaded : Process = record process {
                      filetype = 1;
                      ptr = answers.program_data_ptr;
                      size = stat.filesize;
                    } in
                    if n == 1
                    then load_binary_out (ok tt) fd loaded c
                    else load_binary_out (err eio) fd process c
              ]) in
            if answers.program_data_ptr == 0
            then load_binary_out (err enomem) fd process b
            else reads
      ])
    if fd == 0 then load_binary_out (err eio) fd process a else opened

  unfoldable pub process_load_elf : List ℕ → Process → Result (Unit {0})
  process_load_elf filename process = ok tt

  unfoldable pub process_load_data :
      List ℕ → Process → Files V → Run (Result (Unit {0}) × Process × Files V)
  process_load_data filename process s = elim (process_load_elf filename process) [
    | ok _ ↦ done (ok tt, process, s)
    | err einformat ↦ process_load_binary filename process s
    | err e ↦ done (err e, process, s)
  ]

  -- The label `out` with an error: the result, `*process` and the state.
  unfoldable pub load_failed : Errno → ℕ → ℕ → Loader V → Run (Result (Unit {0}) × ℕ × Loader V)
  load_failed e p out s =
      let (_, table) = process_free_process p s.table in
      done (err e, (if p == 0 then out else 0), (if p == 0 then s else record s { table = table }))

  -- The pointer, or the negative error code, as 32 bits.
  abbrev pub pointer : Result ℕ → ℕ
  pointer (ok p) = p
  pointer (err e) = 2 ^ 32 - errno_code e

  -- From the task on, with the object `process` at `p`.
  unfoldable pub load_task : ℕ → Process → ℕ → ℕ → Loader V → Run (Result (Unit {0}) × ℕ × Loader V)
  load_task p process out process_slot s = do
    (made, tasks) ← task_new answers.task answers.page_directory p s.table.tasks
    let linked : Process = record process { task = pointer made }
    let table : Processes = put p linked (record s.table { tasks = tasks })
    let mapped = (do
      (res, mem) ← process_map_memory linked table s.mem
      let after : Loader V = record s { table = table; mem = mem }
      elim res [
        | err e ↦ load_failed e p out after
        | ok _ ↦ do
          slots ← access (set? table.processes process_slot p)
          done (ok tt, p, record after { table = record table { processes = slots } })
      ])
    if pointer made == 0 then done (ok tt, out, record s { table = table }) else mapped

  -- `unset` is what `_process` holds before it is set.
  unfoldable pub process_load_for_slot :
      ℕ → List ℕ → ℕ → ℕ → Loader V → Run (Result (Unit {0}) × ℕ × Loader V)
  process_load_for_slot unset filename out process_slot s = do
    taken ← process_get (pos process_slot) s.table
    let p = answers.process
    let fresh : Loader V = record s { table = put p zero_process s.table }
    let load = (do
      (res, process, files) ← process_load_data filename zero_process s.files
      let loaded : Loader V = record fresh { files = files }
      elim res [
        | err e ↦ load_failed e p out loaded
        | ok _ ↦
            let named = (do
              text ← access (strncpy process.filename filename max_path)
              let ready : Process = record process {
                id = process_slot % 2 ^ 16;
                filename = text;
                stack = answers.stack;
              }
              load_task p ready out process_slot
                  (record loaded { table = put p ready loaded.table })) in
            if answers.stack == 0 then load_failed enomem p out loaded else named
      ])
    if not (taken == 0)
        then load_failed eistkn unset out s
        else if p == 0
        then load_failed enomem p out s
        else load

  unfoldable pub process_load : ℕ → List ℕ → ℕ → Loader V → Run (Result (Unit {0}) × ℕ × Loader V)
  process_load unset filename out s = elim (process_get_free_slot s.table) [
    | err _ ↦ done (err eistkn, out, s)
    | ok process_slot ↦ process_load_for_slot unset filename out process_slot s
  ]
