-- ===== src/Process/Stages.antt =====
-- The stages of process_load: the slot, the stored path and the mapped stack.
use peachos.Base.{
  ℕ, suc, ◌+◌, ◌-◌, ◌%◌, ◌^◌, ◌<◌, ◌≡◌, ◌≢◌, refl, ap, ◌∙◌, List, [], ◌∷◌, ◌++◌, some, get_elem?,
  take, drop, replicate, length, length-take, length-replicate, arith, ne→==, ◌==◌, true,
  ℕ_discrete,
}
use peachos.Run.{done}
use peachos.Status.{ok}
use peachos.Stringos.{strncpy}
use peachos.Stringos.Laws.{NonZero}
use peachos.Stringos.Copy.{strncpy-copies}
use peachos.Paging.{Mem, map_to, align_address}
use peachos.Paging.Directory.{IsDirectory}
use peachos.Paging.Range.{Maps, map_to-Maps}
use peachos.Process.{Process, Processes, free_slot_loop, process_get_free_slot}
use peachos.Process.Load.{map_stack, process_map_memory, process_map_elf}
use peachos.Task.{Task}
use peachos.Task.Steps.{load_lem}

free_slot_loop-zero :
    (ps : List ℕ) (b i : ℕ)
    → free_slot_loop b ps ≡ ok i
    → (j : ℕ) × (i ≡ b + j) × (get_elem? ps j ≡ some 0) × (j < length ps)
unfolding free_slot_loop
free_slot_loop-zero [] b i h = absurd (cc)
free_slot_loop-zero (p ∷ ps) b i h = elim (ℕ_discrete p 0) [
  | yes e ↦
      let free : (p == 0) ≡ true = ground arith in
      let same : ok b ≡ ok i = rw free at h in
      let found : b ≡ i = cc in (0, omega arith, ap some e, omega arith)
  | no e ↦
      let (j, f, at, small) = free_slot_loop-zero ps (b + 1) i (rw (ne→== p 0 e) at h) in
      (suc j, omega arith, at, omega arith)
]

-- The slot that is found is free.
pub free_slot-vacant :
    (s : Processes) (i : ℕ)
    → process_get_free_slot s ≡ ok i
    → (get_elem? s.processes i ≡ some 0) × (i < length s.processes)
unfolding process_get_free_slot
free_slot-vacant s i h =
    let (j, same, there, small) = free_slot_loop-zero s.processes 0 i h in
    let found : i ≡ j = omega arith in (ap (get_elem? s.processes) found ∙ there, omega arith)

align_address_lem : (a : ℕ) → a % 4096 ≡ 0 → a < 2 ^ 32 → align_address (a % 2 ^ 32) ≡ a
unfolding align_address
align_address_lem a h small = ground arith

-- The text that is stored: at most 107 bytes of the path, then zeros.
abbrev pub stored : List ℕ → List ℕ
stored name = take 107 name ++ (0 ∷ drop (length (take 107 name) + 1) (replicate 108 0))

pub stored_lem :
    (name r : List ℕ)
    → NonZero name
    → strncpy (replicate 108 0) (name ++ (0 ∷ r)) 108 ≡ some (stored name)
stored_lem name r z =
    strncpy-copies (replicate 108 0) name r 108 z
      (omega (arith, length-take 107 name, length-replicate {A = ℕ} 108 0))

-- The stack of the process, in the page tables of its task.
module _ (process : Process) (s : Processes) (mem : Mem) (t : Task) (real : process.task ≢ 0)
    (stands : s.tasks.cells process.task ≡ some t) (directory : IsDirectory mem t.page_directory)
    (aligned : process.stack % 4096 ≡ 0) (below : process.stack + 0x4000 < 2 ^ 32) where
  abbrev pub mapped : Mem
  mapped = (map_to mem t.page_directory 0x3FB000 process.stack (process.stack + 0x4000) 7).0

  pub process_map_memory_lem :
      process.filetype ≡ 0 → process_map_memory process s mem ≡ done (ok tt, mapped)
  unfolding process_map_memory process_map_elf map_stack
  process_map_memory_lem elf =
      rw
        (
          elf,
          load_lem process.task s.tasks t real stands,
          align_address_lem (process.stack + 0x4000) (omega arith) below,
        )
        refl

  pub mapped-Maps : Maps mem t.page_directory 0x3FB000 process.stack 0x4000 7 (mapped, ok tt)
  mapped-Maps =
      let size : process.stack + 0x4000 - process.stack ≡ 0x4000 = omega arith in
      let m =
        map_to-Maps mem t.page_directory 0x3FB000 process.stack (process.stack + 0x4000) 7 directory
          refl aligned (omega arith) (omega arith) (omega arith) (omega arith) (omega arith) in
      record {
        done = refl;
        wellformed = m.wellformed;
        entry = λ page h q. rw size at (m.entry page h q);
      }
