-- ===== src/Idt.antt =====
-- src/idt/idt.c: the interrupt gates, the callbacks and the commands of interrupt 0x80. A function
-- pointer is its address, 0 for null; what a call of one does is a parameter. The addresses that the
-- assembly provides are parameters of idt_init. outb only acknowledges the interrupt.
pub mod Gates
pub mod Handler
mod Tests
use peachos.Base.{
  ℕ, zero, suc, ◌+◌, ◌*◌, ◌/◌, ◌%◌, ◌^◌, List, [], ◌∷◌, Option, none, some, get_elem?, set?,
  replicate, leb, ◌==◌, if◌then◌else◌, Bool, not,
}
use peachos.Base.Int.{ℤ, pos, negsuc}
use peachos.Run.{Run, done, fault, panic, access, ◌>>=◌}
use peachos.Status.{Result, ok, err, einvagr}
use peachos.Task.{Tasks, InterruptFrame, task_current_save_state, task_page}

abbrev pub total_interrupts : ℕ
total_interrupts = 512

abbrev pub max_isr80h_commands : ℕ
max_isr80h_commands = 1024

abbrev pub kernel_code_selector : ℕ
kernel_code_selector = 0x08

pub record IdtDesc : Type 0 where
  pub offset_1 : ℕ
  pub selector : ℕ
  pub zero_byte : ℕ
  pub type_attr : ℕ
  pub offset_2 : ℕ

pub record Idt : Type 0 where
  pub idt_descriptors : List IdtDesc
  pub interrupt_callbacks : List ℕ
  pub isr80h_commands : List ℕ

-- The five assignments of idt_set.
unfoldable pub gate : ℕ → IdtDesc
gate address = record {
  offset_1 = address % 2 ^ 16;
  selector = kernel_code_selector;
  zero_byte = 0;
  type_attr = 0xEE;
  offset_2 = address / 2 ^ 16 % 2 ^ 16;
}

unfoldable pub idt_set : ℕ → ℕ → Idt → Run Idt
idt_set interrupt_no address s = do
  ds ← access (set? s.idt_descriptors interrupt_no (gate address))
  done (record s { idt_descriptors = ds })

unfoldable pub idt_register_interrupt_callback : ℤ → ℕ → Idt → Run (Result (Unit {0}) × Idt)
idt_register_interrupt_callback (negsuc n) callback s = done (err einvagr, s)
idt_register_interrupt_callback (pos interrupt) callback s =
    if leb total_interrupts interrupt then done (err einvagr, s) else (do
      cs ← access (set? s.interrupt_callbacks interrupt callback)
      done (ok tt, record s { interrupt_callbacks = cs }))

-- The loop over the interrupts, with the rounds left.
unfoldable pub gates_loop : ℕ → ℕ → (ℕ → ℕ) → Idt → Run Idt
gates_loop zero i interrupt_pointer_table s = done s
gates_loop (suc n) i interrupt_pointer_table s = do
  s' ← idt_set i (interrupt_pointer_table i) s
  gates_loop n (i + 1) interrupt_pointer_table s'

-- The loop over the exceptions.
unfoldable pub exceptions_loop : ℕ → ℕ → ℕ → Idt → Run Idt
exceptions_loop zero i callback s = done s
exceptions_loop (suc n) i callback s = do
  (_, s') ← idt_register_interrupt_callback (pos i) callback s
  exceptions_loop n (i + 1) callback s'

-- The addresses of idt_zero, isr80h_wrapper, idt_handle_exception and idt_clock.
pub record Handlers : Type 0 where
  pub idt_zero : ℕ
  pub isr80h_wrapper : ℕ
  pub idt_handle_exception : ℕ
  pub idt_clock : ℕ

abbrev pub zero_desc : IdtDesc
zero_desc = record { offset_1 = 0; selector = 0; zero_byte = 0; type_attr = 0; offset_2 = 0 }

unfoldable pub idt_init : (ℕ → ℕ) → Handlers → Idt → Run Idt
idt_init interrupt_pointer_table handlers s = do
  a ←
      gates_loop total_interrupts 0 interrupt_pointer_table
        (record s { idt_descriptors = replicate total_interrupts zero_desc })
  b ← idt_set 0 handlers.idt_zero a
  c ← idt_set 0x80 handlers.isr80h_wrapper b
  d ← exceptions_loop 0x20 0 handlers.idt_handle_exception c
  (_, e) ← idt_register_interrupt_callback (pos 0x20) handlers.idt_clock d
  done e

unfoldable pub isr80h_register_command : ℤ → ℕ → Idt → Run Idt
isr80h_register_command (negsuc n) command s = panic
isr80h_register_command (pos command_id) command s =
    if leb max_isr80h_commands command_id then panic else (do
      old ← access (get_elem? s.isr80h_commands command_id)
      cs ← access (set? s.isr80h_commands command_id command)
      if old == 0 then done (record s { isr80h_commands = cs }) else panic)

-- kernel_page of src/kernel.c: the kernel's segment registers and page directory.
unfoldable pub kernel_page : ℕ → Tasks → Tasks
kernel_page kernel_chunk s = record s { directory = kernel_chunk }

-- A call of an interrupt callback, and of a command, whose result is a pointer.
module _ (kernel_chunk : ℕ) (idt : Idt) where
  unfoldable pub interrupt_handler :
      (ℕ → InterruptFrame → Tasks → Run Tasks) → ℕ → InterruptFrame → Tasks → Run Tasks
  interrupt_handler call interrupt frame s = do
    callback ← access (get_elem? idt.interrupt_callbacks interrupt)
    let k = kernel_page kernel_chunk s
    let called = (do a ← task_current_save_state frame k; b ← call callback frame a; task_page b)
    if callback == 0 then task_page k else called

  unfoldable pub isr80h_handle_command :
      (ℕ → InterruptFrame → Tasks → Run (ℕ × Tasks)) → ℤ → InterruptFrame → Tasks → Run (ℕ × Tasks)
  isr80h_handle_command call (negsuc n) frame s = done (0, s)
  isr80h_handle_command call (pos command) frame s =
      if leb max_isr80h_commands command then done (0, s) else (do
        command_func ← access (get_elem? idt.isr80h_commands command)
        let called = call command_func frame s
        if command_func == 0 then done (0, s) else called)

  unfoldable pub isr80h_handler :
      (ℕ → InterruptFrame → Tasks → Run (ℕ × Tasks)) → ℤ → InterruptFrame → Tasks → Run (ℕ × Tasks)
  isr80h_handler call command frame s = do
    a ← task_current_save_state frame (kernel_page kernel_chunk s)
    (res, b) ← isr80h_handle_command call command frame a
    c ← task_page b
    done (res, c)
