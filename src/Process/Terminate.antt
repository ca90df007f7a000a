-- ===== src/Process/Terminate.antt =====
-- What process_terminate leaves in the table, and where an exception leads.
use peachos.Base.{
  ℕ, zero, suc, ◌+◌, ◌%◌, ◌<◌, ◌≡◌, ◌≢◌, refl, ◌⊎◌, inl, inr, true, List, [], ◌∷◌, Option, some,
  get_elem?, drop, length, arith, ne→==, ◌==◌, ℕ_discrete,
}
use peachos.Base.Arrays.{set?-IsWritten}
use peachos.Run.{done}
use peachos.Process.{
  Process, Processes, process_switch, switch_loop, process_switch_to_any, process_unlink,
  process_free_process, process_terminate, idt_handle_exception,
}
use peachos.Task.{Task}
use peachos.Task.Steps.{load_lem}
use peachos.Task.List.{Nodes, first, Linked, tasks_of}
use peachos.Task.Switch.{task_next-turn}
use peachos.Task.Places.{node-at}

-- The first process of a table, or `c` in an empty one.
abbrev pub IsFirst : List ℕ → ℕ → ℕ → Type 0
IsFirst ps c d =
    ((k : ℕ) × (get_elem? ps k ≡ some d) × (d ≢ 0) × ((j : ℕ) → j < k → get_elem? ps j ≡ some 0))
    ⊎ (((j : ℕ) → j < length ps → get_elem? ps j ≡ some 0) × (d ≡ c))

zeros_suc :
    (k : ℕ) (ps : List ℕ)
    → ((j : ℕ) → j < k → get_elem? ps j ≡ some 0)
    → (j : ℕ) → j < suc k
    → get_elem? (0 ∷ ps) j ≡ some 0
zeros_suc k ps h zero small = refl
zeros_suc k ps h (suc j) small = h j (omega arith)

IsFirst-skip : (ps : List ℕ) (c d : ℕ) → IsFirst ps c d → IsFirst (0 ∷ ps) c d
IsFirst-skip ps c d (inl (k, at, real, before)) = inl (suc k, at, real, zeros_suc k ps before)
IsFirst-skip ps c d (inr (empty, same)) = inr (zeros_suc (length ps) ps empty, same)

-- The state with another table and another current process.
abbrev pub with_table : Processes → List ℕ → ℕ → Processes
with_table s ps c = record s { processes = ps; current_process = c }

switch_loop-IsFirst :
    (s : Processes) (all : List ℕ) (c : ℕ) (ps : List ℕ)
    → (d : ℕ) × (switch_loop ps (with_table s all c) ≡ with_table s all d) × IsFirst ps c d
unfolding switch_loop process_switch
switch_loop-IsFirst s all c [] = (c, refl, inr ((λ j h. absurd (omega arith)), refl))
switch_loop-IsFirst s all c (p ∷ ps) = elim (ℕ_discrete p 0) [
  | yes e ↦
      let (d, f, first) = switch_loop-IsFirst s all c ps in
      (d, rw e f, rw e (IsFirst-skip ps c d first))
  | no e ↦ (p, rw (ne→== p 0 e), inl (0, refl, e, λ j h. absurd (omega arith)))
]

-- The table without the process of slot `i`, and the current process after it.
pub record IsUnlinked (ps qs : List ℕ) (i p c d : ℕ) : Type 0 where
  pub slot : get_elem? qs i ≡ some 0
  pub others : (j : ℕ) → j ≢ i → get_elem? qs j ≡ get_elem? ps j
  pub stays : c ≢ p → d ≡ c
  pub passes : c ≡ p → IsFirst qs c d

-- A process in its slot is unlinked; its object, its task and its memory stay.
pub process_terminate-IsUnlinked :
    (s : Processes) (p i : ℕ) (object : Process)
    → p ≢ 0
    → s.objects p ≡ some object
    → object.id ≡ i
    → get_elem? s.processes i ≡ some p
    → (qs : List ℕ) × (d : ℕ) × (process_terminate p s ≡ done (1, with_table s qs d))
      × IsUnlinked s.processes qs i p s.current_process d
unfolding process_terminate process_unlink process_free_process process_switch_to_any
process_terminate-IsUnlinked s p i object real stands named there =
    let (qs, w) = set?-IsWritten s.processes i p 0 there in
    let c = s.current_process in
    elim (ℕ_discrete c p) [
      | yes e ↦
          let current : (c == p) ≡ true = ground arith in
          let (d, f, first) = switch_loop-IsFirst s qs c qs in
          (
            qs,
            d,
            rw (ne→== p 0 real, stands, named, w.written, current, f) refl,
            record {
              slot = w.reads;
              others = w.others;
              stays = λ n. absurd (n e);
              passes = λ _. first;
            },
          )
      | no e ↦ (
        qs,
        c,
        rw (ne→== p 0 real, stands, named, w.written, ne→== c p e) refl,
        record { slot = w.reads; others = w.others; stays = λ _. refl; passes = λ h. absurd (e h) },
      )
    ]

module _ (s : Processes) (cells : ℕ → Option Task) (ns : Nodes) (k a b directory : ℕ) (t u : Task)
    (linked : Linked cells 0 ns 0) (at_k : get_elem? ns k ≡ some (a, t))
    (at_next : get_elem? ns ((k + 1) % length ns) ≡ some (b, u)) where
  -- An exception in the task at place `k` of a well-formed list, whose process is in its slot:
  -- idt_handle_exception takes the process out of the table, makes the first one left current
  -- if it was, and resumes the next task in turn; but the list of tasks stays as it was, with
  -- the task of the process in it.
  pub idt_handle_exception-keeps_task :
      (i : ℕ) (object : Process)
      → t.process ≢ 0
      → u.page_directory ≢ 0
      → s.objects t.process ≡ some object
      → object.id ≡ i
      → get_elem? s.processes i ≡ some t.process
      → (qs : List ℕ) × (d : ℕ) × (idt_handle_exception
            (record s { tasks = tasks_of cells ns a directory })
          ≡ done (
            u.registers,
            record {
              processes = qs;
              current_process = d;
              objects = s.objects;
              tasks = tasks_of cells ns b u.page_directory;
            },
          ))
        × IsUnlinked s.processes qs i t.process s.current_process d
  unfolding idt_handle_exception
  idt_handle_exception-keeps_task i object real mapped stands named there =
      let (p, at_a) = (node-at cells 0 ns 0 k a t linked at_k).1 in
      let state : Processes = record s { tasks = tasks_of cells ns a directory } in
      let (qs, d, e, unlinked) =
        process_terminate-IsUnlinked state t.process i object real stands named there in
      (
        qs,
        d,
        rw
            (
              load_lem a state.tasks (record t { next = first (drop (suc k) ns) 0; prev = p })
                  (node-at cells 0 ns 0 k a t linked at_k).0 at_a,
              e,
              task_next-turn cells ns k a b directory t u linked at_k at_next mapped,
            )
            refl,
        unlinked,
      )
