-- ===== src/Task/Tests.antt =====
-- Three tasks at the addresses 16, 32 and 48.
use peachos.Base.{
  ℕ, zero, suc, ◌<◌, ◌≤◌, ◌≢◌, get_elem?, ◌≡◌, refl, Option, some, none, [], ◌∷◌, ◌++◌, ◌==◌,
  if◌then◌else◌, arith,
}
use peachos.Run.{done, fault}
use peachos.Status.{ok}
use peachos.Task.{Task, Tasks, InterruptFrame, task_new, task_free}
use peachos.Task.List.{Nodes, Linked, Distinct, tasks_of}
use peachos.Task.Append.{fresh_task, current_after, task_new-Appended}
use peachos.Task.Remove.{task_list_remove-Removed}
use peachos.Task.Unlink.{Removed}
use peachos.Task.Fair.{ticks, task_next_fair}
use peachos.Task.Dangling.{task_free-dangles}

abbrev task_a : Task
task_a = fresh_task 4096 1

abbrev task_b : Task
task_b = fresh_task 8192 2

abbrev task_c : Task
task_c = fresh_task 12288 3

abbrev three : Nodes
three = (16, task_a) ∷ (32, task_b) ∷ (48, task_c) ∷ []

abbrev cells : ℕ → Option Task
cells p =
    if p == 16
    then some (record task_a { next = 32; prev = 0 })
    else if p == 32
    then some (record task_b { next = 48; prev = 16 })
    else if p == 48
    then some (record task_c { next = 0; prev = 32 })
    else none

three-Linked : Linked cells 0 three 0
three-Linked = (omega arith, refl, (omega arith, refl, (omega arith, refl, tt)))

three-Distinct : Distinct three
three-Distinct = omega arith

abbrev frame : InterruptFrame
frame = record {
  edi = 1;
  esi = 2;
  ebp = 3;
  reserved = 0;
  ebx = 4;
  edx = 5;
  ecx = 6;
  eax = 7;
  ip = 0x400010;
  cs = 0x1b;
  flags = 0x202;
  esp = 0x3FEFF0;
  ss = 0x23;
}

task_new-Appended_example :
    (cells' : ℕ → Option Task) × (task_new 64 16384 4 (tasks_of cells three 32 8192)
      ≡ done (
        ok 64,
        tasks_of cells' (three ++ ((64, fresh_task 16384 4) ∷ [])) (current_after three 64 32) 8192,
      ))
    × Linked cells' 0 (three ++ ((64, fresh_task 16384 4) ∷ [])) 0
    × Distinct (three ++ ((64, fresh_task 16384 4) ∷ []))
task_new-Appended_example =
    task_new-Appended cells 32 8192 64 16384 4 (omega arith) (omega arith) three three-Linked
      three-Distinct (omega arith)

task_list_remove-Removed_example :
    Removed cells ((16, task_a) ∷ []) 32 task_b ((48, task_c) ∷ []) 32 8192
task_list_remove-Removed_example =
    task_list_remove-Removed cells ((16, task_a) ∷ []) 32 task_b ((48, task_c) ∷ []) 32 8192
      three-Linked three-Distinct

task_free-dangles_example :
    (s' : Tasks) × (task_free 16 (tasks_of cells three 32 8192) ≡ done s')
    × (s'.cells 32 ≡ some (record task_b { next = 48; prev = 16 }))
    × (s'.cells 16 ≡ none)
    × (task_free 32 s' ≡ fault)
task_free-dangles_example =
    task_free-dangles cells [] 16 32 task_a task_b ((48, task_c) ∷ []) 32 8192 three-Linked
      three-Distinct (omega arith)

three-mapped : (i a : ℕ) (t : Task) → get_elem? three i ≡ some (a, t) → t.page_directory ≢ 0
three-mapped zero a t h = ground (arith, h)
three-mapped (suc zero) a t h = ground (arith, h)
three-mapped (suc (suc zero)) a t h = ground (arith, h)
three-mapped (suc (suc (suc i))) a t h = absurd (cc)

-- From the third task to the second.
task_next_fair_example :
    (n : ℕ) × (0 < n)
    × (n ≤ 3)
    × (ticks n (tasks_of cells three 48 4096) ≡ done (tasks_of cells three 32 8192))
task_next_fair_example =
    task_next_fair cells three three-Linked three-mapped 2 1 48 32 4096 task_c task_b refl refl
