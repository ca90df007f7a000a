-- ===== src/Process/Tests.antt =====
-- Processes with one task each. The first one is in slot 0.
use peachos.Base.{
  ℕ, ◌≡◌, refl, List, Option, some, none, [], ◌∷◌, ◌==◌, if◌then◌else◌, replicate, get_elem?, ◌≢◌,
  arith,
}
use peachos.Run.{done}
use peachos.Process.{
  Process, Processes, idt_handle_exception, process_get_free_slot, free_slot_loop,
}
use peachos.Process.Terminate.{IsUnlinked, idt_handle_exception-keeps_task}
use peachos.Process.Load.{Answers, Loader, process_load}
use peachos.Process.Loaded.{process_load-loads}
use peachos.Process.Stages.{stored}
use peachos.File.{Files}
use peachos.Paging.{Mem}
use peachos.Paging.Sample.{base, mem, mem-IsDirectory}
use peachos.Paging.Range.{Maps}
use peachos.Status.{ok}
use peachos.Task.{Task}
use peachos.Task.List.{Nodes, Linked, tasks_of}
use peachos.Task.Append.{fresh_task}

abbrev task : Task
task = fresh_task 4096 1024

abbrev cells : ℕ → Option Task
cells p = if p == 16 then some task else none

abbrev one : Nodes
one = (16, task) ∷ []

one-Linked : Linked cells 0 one 0
one-Linked = (omega arith, refl, tt)

abbrev process : Process
process = record {
  id = 0;
  filename = replicate 108 0;
  task = 16;
  filetype = 0;
  ptr = 0;
  stack = 8192;
  size = 0;
}

abbrev alone : Processes
alone = record {
  processes = 1024 ∷ replicate 11 0;
  current_process = 1024;
  objects = λ p. if p == 1024 then some process else none;
  tasks = tasks_of cells one 16 4096;
}

-- The faulting task resumes itself.
idt_handle_exception-keeps_task_example :
    (qs : List ℕ) × (d : ℕ) × (idt_handle_exception alone
      ≡ done (
        task.registers,
        record {
          processes = qs;
          current_process = d;
          objects = alone.objects;
          tasks = tasks_of cells one 16 4096;
        },
      ))
    × IsUnlinked alone.processes qs 0 1024 1024 d
idt_handle_exception-keeps_task_example =
    idt_handle_exception-keeps_task alone cells one 0 16 16 4096 task task one-Linked refl refl 0
      process (omega arith) (omega arith) refl refl refl

-- A second process is loaded into slot 1, with a task at 32.
abbrev files : Files ℕ
files = record { file_descriptors = []; filesystem = none; volume = 0 }

abbrev answers : Answers ℕ
answers = record {
  process = 2048;
  stack = 0x1000000;
  task = 32;
  page_directory = base;
  program_data_ptr = 0;
  descriptor = none;
}

abbrev loader : Loader ℕ
loader = record { table = alone; mem = mem; files = files }

abbrev loaded : Process
loaded = record {
  id = 1;
  filename = stored (b'0' ∷ b':' ∷ b'/' ∷ b'a' ∷ []);
  task = 32;
  filetype = 0;
  ptr = 0;
  stack = 0x1000000;
  size = 0;
}

abbrev both : Nodes
both = (16, task) ∷ (32, fresh_task base 2048) ∷ []

process_load-loads_example :
    (cells' : ℕ → Option Task) × (objects' : ℕ → Option Process) × (qs : List ℕ) × (mem' : Mem)
    × (process_load answers 77 (b'0' ∷ b':' ∷ b'/' ∷ b'a' ∷ 0 ∷ []) 5 loader
        ≡ done (
          ok tt,
          2048,
          record {
            table = record {
              processes = qs;
              current_process = 1024;
              objects = objects';
              tasks = tasks_of cells' both 16 4096;
            };
            mem = mem';
            files = files;
          },
        ))
    × (get_elem? qs 1 ≡ some 2048)
    × ((j : ℕ) → j ≢ 1 → get_elem? qs j ≡ get_elem? alone.processes j)
    × (objects' 2048 ≡ some loaded)
    × ((q : ℕ) → q ≢ 2048 → objects' q ≡ alone.objects q)
    × Linked cells' 0 both 0
    × Maps mem base 0x3FB000 0x1000000 0x4000 7 (mem', ok tt)
unfolding process_get_free_slot free_slot_loop
process_load-loads_example =
    process_load-loads answers 5 1 (b'0' ∷ b':' ∷ b'/' ∷ b'a' ∷ []) [] alone.processes 1024
      alone.objects cells one 16 4096 mem files one-Linked (omega arith) (omega arith) (omega arith)
      (omega arith) (omega arith) (omega arith) mem-IsDirectory refl (omega arith) 77 (omega arith)
      refl refl
