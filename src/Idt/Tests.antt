-- ===== src/Idt/Tests.antt =====
-- Tables with empty cells, and the tasks of one list.
use peachos.Base.{
  ℕ, ◌<◌, ◌≡◌, ◌≢◌, refl, Option, some, none, [], ◌∷◌, get_elem?, replicate, arith, ◌==◌,
  if◌then◌else◌,
}
use peachos.Base.Int.{pos}
use peachos.Run.{done}
use peachos.Idt.{Idt, Handlers, idt_init, isr80h_handle_command, isr80h_handler, total_interrupts}
use peachos.Idt.Gates.{LeadsTo, idt_init-sets}
use peachos.Idt.Handler.{isr80h_handler-returns}
use peachos.Task.{Task, InterruptFrame}
use peachos.Task.List.{Linked, tasks_of}
use peachos.Task.Append.{fresh_task}
use peachos.Task.Switch.{frame_registers}

abbrev empty : Idt
empty = record {
  idt_descriptors = [];
  interrupt_callbacks = replicate 512 0;
  isr80h_commands = replicate 1024 0;
}

abbrev handlers : Handlers
handlers = record {
  idt_zero = 0x100100;
  isr80h_wrapper = 0x100200;
  idt_handle_exception = 0x100300;
  idt_clock = 0x100400;
}

idt_init-sets_example :
    (s' : Idt) × (idt_init (λ j. 0x110000) handlers empty ≡ done s')
    × LeadsTo (get_elem? s'.idt_descriptors 0) 0x100100
    × LeadsTo (get_elem? s'.idt_descriptors 0x80) 0x100200
    × ((j : ℕ)
        → j < total_interrupts
        → j ≢ 0
        → j ≢ 0x80
        → LeadsTo (get_elem? s'.idt_descriptors j) 0x110000)
    × ((j : ℕ) → j < 0x20 → get_elem? s'.interrupt_callbacks j ≡ some 0x100300)
    × (get_elem? s'.interrupt_callbacks 0x20 ≡ some 0x100400)
    × ((j : ℕ)
        → 0x20 < j
        → get_elem? s'.interrupt_callbacks j ≡ get_elem? empty.interrupt_callbacks j)
    × (s'.isr80h_commands ≡ empty.isr80h_commands)
idt_init-sets_example =
    idt_init-sets (λ j. 0x110000) handlers empty refl (λ j. omega arith) (omega arith) (omega arith)

abbrev task : Task
task = fresh_task 4096 1

abbrev cells : ℕ → Option Task
cells p = if p == 16 then some task else none

one-Linked : Linked cells 0 ((16, task) ∷ []) 0
one-Linked = (omega arith, refl, tt)

abbrev frame : InterruptFrame
frame = record {
  edi = 1;
  esi = 2;
  ebp = 3;
  reserved = 0;
  ebx = 4;
  edx = 5;
  ecx = 6;
  eax = 7;
  ip = 0x400010;
  cs = 0x1b;
  flags = 0x202;
  esp = 0x3FEFF0;
  ss = 0x23;
}

-- Command 5 is not registered.
isr80h_handler-returns_example :
    (after : ℕ → Option Task) × (isr80h_handler 0x2000 empty
        (λ f fr s. done (1, s))
        (pos 5)
        frame
        (tasks_of cells ((16, task) ∷ []) 16 0)
      ≡ done (
        0,
        tasks_of after ((16, record task { registers = frame_registers frame }) ∷ []) 16 4096,
      ))
    × Linked after 0 ((16, record task { registers = frame_registers frame }) ∷ []) 0
unfolding isr80h_handle_command
isr80h_handler-returns_example =
    isr80h_handler-returns 0x2000 empty cells [] 16 task [] 0 frame one-Linked (omega arith)
      (λ f fr s. done (1, s)) (pos 5) 0 (tt, tt) (λ s. refl)
