-- ===== src/Process/Loaded.antt =====
-- What process_load makes of a process.
use peachos.Base.{
  ℕ, ◌+◌, ◌%◌, ◌^◌, ◌<◌, ◌≡◌, ◌≢◌, refl, ◌∙◌, List, [], ◌∷◌, ◌++◌, Option, some, get_elem?, set?,
  length, arith, ne→==, ◌==◌, ==_refl, lt→leb, if◌then◌else◌,
}
use peachos.Base.Arrays.{set?-IsWritten}
use peachos.Run.{Run, done}
use peachos.Status.{Result, ok}
use peachos.Stringos.Laws.{NonZero}
use peachos.Paging.{Mem}
use peachos.Paging.Directory.{IsDirectory}
use peachos.Paging.Range.{Maps}
use peachos.File.{Files}
use peachos.Process.{Process, Processes, process_get_free_slot, process_get}
use peachos.Process.Load.{
  Answers, Loader, put, zero_process, process_load_elf, process_load_data, load_task,
  process_load_for_slot, process_load,
}
use peachos.Task.{Task}
use peachos.Task.List.{Nodes, last_of, Linked, Linked-cut, Distinct, Avoids, tasks_of}
use peachos.Task.Append.{fresh_task, current_after, task_new-Appended}
use peachos.Process.Stages.{
  free_slot-vacant, stored, stored_lem, mapped, process_map_memory_lem, mapped-Maps,
}

module _ {V : Type 0} (answers : Answers V) (out slot : ℕ) (name r ps : List ℕ)
    (current_process : ℕ) (objects : ℕ → Option Process) (cells : ℕ → Option Task) (ns : Nodes)
    (current directory : ℕ) (mem : Mem) (files : Files V) (linked : Linked cells 0 ns 0)
    (distinct : Distinct ns) (new_task : Avoids answers.task ns) (task_real : answers.task ≢ 0)
    (directory_real : answers.page_directory ≢ 0) (process_real : answers.process ≢ 0)
    (stack_real : answers.stack ≢ 0) (tables : IsDirectory mem answers.page_directory)
    (aligned : answers.stack % 4096 ≡ 0) (below : answers.stack + 0x4000 < 2 ^ 32) where
  -- The state before, and a state after, with these objects.
  abbrev pub before : Loader V
  before = record {
    table = record {
      processes = ps;
      current_process = current_process;
      objects = objects;
      tasks = tasks_of cells ns current directory;
    };
    mem = mem;
    files = files;
  }

  abbrev new_process : Process
  new_process = record {
    id = slot % 2 ^ 16;
    filename = stored name;
    task = answers.task;
    filetype = 0;
    ptr = 0;
    stack = answers.stack;
    size = 0;
  }

  abbrev longer : Nodes
  longer = ns ++ ((answers.task, fresh_task answers.page_directory answers.process) ∷ [])

  abbrev after : (ℕ → Option Task) → (ℕ → Option Process) → List ℕ → Mem → Loader V
  after cells' objects' qs mem' = record {
    table = record {
      processes = qs;
      current_process = current_process;
      objects = objects';
      tasks = tasks_of cells' longer (current_after ns answers.task current) directory;
    };
    mem = mem';
    files = files;
  }

  load_task_lem :
      (objects₁ : ℕ → Option Process) (qs : List ℕ)
      → set? ps slot answers.process ≡ some qs
      → (cells' : ℕ → Option Task) × (mem' : Mem) × (load_task answers answers.process
            (record new_process { task = 0 })
            out
            slot
            (record before { table = record (before.table) { objects = objects₁ } })
          ≡ done (
            ok tt,
            answers.process,
            after cells'
                (λ q. if q == answers.process then some new_process else objects₁ q)
                qs
                mem',
          ))
        × Linked cells' 0 longer 0
        × Maps mem answers.page_directory 0x3FB000 answers.stack 0x4000 7 (mem', ok tt)
  unfolding load_task
  load_task_lem objects₁ qs e =
      let (cells', made, l, d) =
        task_new-Appended cells current directory answers.task answers.page_directory
          answers.process task_real directory_real ns linked distinct new_task in
      let here = (Linked-cut cells' _ 0 0 ns l).1 in
      let t : Task = record (fresh_task answers.page_directory answers.process) {
        prev = last_of 0 ns;
      } in
      let objects₂ : ℕ → Option Process =
        λ q. if q == answers.process then some new_process else objects₁ q in
      let s : Processes = (after cells' objects₂ ps mem).table in
      (
        cells',
        mapped new_process s mem t here.0 here.1 tables aligned below,
        rw
            (
              made,
              process_map_memory_lem new_process s mem t here.0 here.1 tables aligned below refl,
              e,
              ne→== answers.task 0 task_real,
            )
            refl,
        l,
        mapped-Maps new_process s mem t here.0 here.1 tables aligned below,
      )

  -- The objects before the task is made.
  abbrev cleared : ℕ → Option Process
  cleared q =
      (put answers.process (record new_process { task = 0 })
          (put answers.process zero_process (before.table))).objects
        q

  for_slot_lem :
      (unset : ℕ) (end : Run (Result (Unit {0}) × ℕ × Loader V))
      → NonZero name
      → slot < 12
      → get_elem? ps slot ≡ some 0
      → load_task answers answers.process
          (record new_process { task = 0 })
          out
          slot
          (record before { table = record (before.table) { objects = cleared } })
        ≡ end
      → process_load_for_slot answers unset (name ++ (0 ∷ r)) out slot before ≡ end
  unfolding process_load_for_slot process_get process_load_data process_load_elf
  for_slot_lem unset end text small vacant e =
      rw
        (
          lt→leb 12 slot small,
          vacant,
          ne→== answers.process 0 process_real,
          ne→== answers.stack 0 stack_real,
          stored_lem name r text,
        )
        e

  slot_step :
      (unset : ℕ) (filename : List ℕ)
      → process_get_free_slot (before.table) ≡ ok slot
      → process_load answers unset filename out before
        ≡ process_load_for_slot answers unset filename out slot before
  unfolding process_load
  slot_step unset filename free = rw (process_load, free) refl

  -- A path with its zero byte, a well-formed list of distinct tasks that the new one is not in,
  -- non-null answers of the allocators, a stack on a page boundary that ends inside the address
  -- space, page tables of the new task, and a table of 12 processes in which `slot` is the slot
  -- that process_get_free_slot finds. Then process_load succeeds and hands out the process. It
  -- is in that slot and in no other that changed; its object has the slot as its id, the
  -- path cut to 107 bytes, the task and the stack; the task is appended to the list; and the
  -- stack's four pages, and no others, are mapped below 0x3FF000 for the user to write.
  pub process_load-loads :
      (unset : ℕ)
      → NonZero name
      → length ps ≡ 12
      → process_get_free_slot (before.table) ≡ ok slot
      → (cells' : ℕ → Option Task) × (objects' : ℕ → Option Process) × (qs : List ℕ) × (mem' : Mem)
        × (process_load answers unset (name ++ (0 ∷ r)) out before
            ≡ done (ok tt, answers.process, after cells' objects' qs mem'))
        × (get_elem? qs slot ≡ some answers.process)
        × ((j : ℕ) → j ≢ slot → get_elem? qs j ≡ get_elem? ps j)
        × (objects' answers.process ≡ some new_process)
        × ((q : ℕ) → q ≢ answers.process → objects' q ≡ objects q)
        × Linked cells' 0 longer 0
        × Maps mem answers.page_directory 0x3FB000 answers.stack 0x4000 7 (mem', ok tt)
  process_load-loads unset text full free =
      let (there, small) = free_slot-vacant (before.table) slot free in
      let (qs, w) = set?-IsWritten ps slot 0 answers.process there in
      let (cells', mem', e, l, m) = load_task_lem cleared qs w.written in
      (
        cells',
        (λ q. if q == answers.process then some new_process else cleared q),
        qs,
        mem',
        slot_step unset (name ++ (0 ∷ r)) free ∙ for_slot_lem unset _ text (omega arith) there e,
        w.reads,
        w.others,
        rw (==_refl answers.process) refl,
        (λ q n. rw (ne→== q answers.process n) refl),
        l,
        m,
      )
