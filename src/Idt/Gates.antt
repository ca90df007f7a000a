-- ===== src/Idt/Gates.antt =====
-- What idt_init leaves in the tables.
use peachos.Base.{
  ℕ, zero, suc, ◌+◌, ◌*◌, ◌^◌, ◌<◌, ◌≤◌, ◌≡◌, ◌≢◌, refl, ◌∙◌, List, Option, some, get_elem?, set?,
  length, length-replicate, replicate, lt→leb, arith,
}
use peachos.Base.Int.{pos}
use peachos.Base.Arrays.{IsFilled, IsFilled-zero, IsFilled-suc, write_at}
use peachos.Run.{done}
use peachos.Status.{ok}
use peachos.Idt.{
  IdtDesc, Idt, Handlers, gate, idt_set, idt_register_interrupt_callback, gates_loop,
  exceptions_loop, idt_init, total_interrupts, zero_desc,
}

abbrev with_gates : Idt → List IdtDesc → Idt
with_gates s ds = record s { idt_descriptors = ds }

abbrev with_callbacks : Idt → List ℕ → Idt
with_callbacks s cs = record s { interrupt_callbacks = cs }

gates_loop-IsFilled :
    (s : Idt) (table : ℕ → ℕ) (n i : ℕ) (ds : List IdtDesc)
    → i + n ≤ length ds
    → (ds' : List IdtDesc) × (gates_loop n i table (with_gates s ds) ≡ done (with_gates s ds'))
      × IsFilled ds ds' i n (λ j. gate (table j))
unfolding gates_loop idt_set
gates_loop-IsFilled s table zero i ds h = (ds, refl, IsFilled-zero ds i (λ j. gate (table j)))
gates_loop-IsFilled s table (suc n) i ds h =
    let (ys, e, size, here, others) = write_at ds i (gate (table i)) (omega arith) in
    let (zs, f, rest) = gates_loop-IsFilled s table n (i + 1) ys (omega arith) in
    (zs, rw e f, IsFilled-suc ds ys zs i n (λ j. gate (table j)) size here others rest)

register_lem :
    (s : Idt) (cs : List ℕ) (i callback : ℕ)
    → i < total_interrupts
    → (cs' : List ℕ) → set? cs i callback ≡ some cs'
    → idt_register_interrupt_callback (pos i) callback (with_callbacks s cs)
      ≡ done (ok tt, with_callbacks s cs')
unfolding idt_register_interrupt_callback
register_lem s cs i callback small cs' e = rw (lt→leb total_interrupts i small, e) refl

exceptions_loop-IsFilled :
    (s : Idt) (callback n i : ℕ) (cs : List ℕ)
    → i + n ≤ length cs
    → i + n ≤ total_interrupts
    → (cs' : List ℕ) × (exceptions_loop n i callback (with_callbacks s cs)
        ≡ done (with_callbacks s cs'))
      × IsFilled cs cs' i n (λ j. callback)
unfolding exceptions_loop
exceptions_loop-IsFilled s callback zero i cs h k = (cs, refl, IsFilled-zero cs i (λ j. callback))
exceptions_loop-IsFilled s callback (suc n) i cs h k =
    let (ys, e, size, here, others) = write_at cs i callback (omega arith) in
    let (zs, f, rest) =
      exceptions_loop-IsFilled s callback n (i + 1) ys (omega arith) (omega arith) in
    (
      zs,
      rw (register_lem s cs i callback (omega arith) ys e) f,
      IsFilled-suc cs ys zs i n (λ j. callback) size here others rest,
    )

-- The address that the processor takes from a gate.
abbrev pub gate_address : IdtDesc → ℕ
gate_address d = d.offset_1 + 2 ^ 16 * d.offset_2

-- A cell that holds an interrupt gate of the kernel's code segment, open to user mode, to an address.
abbrev pub LeadsTo : Option IdtDesc → ℕ → Type 0
LeadsTo cell address =
    (d : IdtDesc) × (cell ≡ some d)
    × (gate_address d ≡ address)
    × (d.selector ≡ 0x08)
    × (d.type_attr ≡ 0xEE)

gate-LeadsTo :
    (cell : Option IdtDesc) (address : ℕ)
    → address < 2 ^ 32
    → cell ≡ some (gate address)
    → LeadsTo cell address
unfolding gate
gate-LeadsTo cell address h e = (gate address, e, omega arith, refl, refl)

idt_set_lem :
    (s : Idt) (ds ds' : List IdtDesc) (i address : ℕ)
    → set? ds i (gate address) ≡ some ds'
    → idt_set i address (with_gates s ds) ≡ done (with_gates s ds')
unfolding idt_set
idt_set_lem s ds ds' i address e = rw e refl

-- With a full table of callbacks, and 32-bit addresses in the pointer table and of idt_zero and
-- isr80h_wrapper: idt_init returns, and gives each of the 512 interrupts a gate to its entry
-- of the pointer table, but 0 to idt_zero and 0x80 to isr80h_wrapper; the callback of the
-- exceptions 0 to 0x1F is idt_handle_exception, that of 0x20 idt_clock, and no callback
-- behind them and no command changes.
pub idt_init-sets :
    (table : ℕ → ℕ) (handlers : Handlers) (s : Idt)
    → length s.interrupt_callbacks ≡ total_interrupts
    → ((j : ℕ) → table j < 2 ^ 32)
    → handlers.idt_zero < 2 ^ 32
    → handlers.isr80h_wrapper < 2 ^ 32
    → (s' : Idt) × (idt_init table handlers s ≡ done s')
      × LeadsTo (get_elem? s'.idt_descriptors 0) handlers.idt_zero
      × LeadsTo (get_elem? s'.idt_descriptors 0x80) handlers.isr80h_wrapper
      × ((j : ℕ)
          → j < total_interrupts
          → j ≢ 0
          → j ≢ 0x80
          → LeadsTo (get_elem? s'.idt_descriptors j) (table j))
      × ((j : ℕ)
          → j < 0x20
          → get_elem? s'.interrupt_callbacks j ≡ some handlers.idt_handle_exception)
      × (get_elem? s'.interrupt_callbacks 0x20 ≡ some handlers.idt_clock)
      × ((j : ℕ)
          → 0x20 < j
          → get_elem? s'.interrupt_callbacks j ≡ get_elem? s.interrupt_callbacks j)
      × (s'.isr80h_commands ≡ s.isr80h_commands)
unfolding idt_init
idt_init-sets table handlers s full words zero_word wrapper_word =
    let blank = replicate total_interrupts zero_desc in
    let wide : length blank ≡ total_interrupts = length-replicate total_interrupts zero_desc in
    let cs = s.interrupt_callbacks in
    let (ds, e, filled) = gates_loop-IsFilled s table total_interrupts 0 blank (omega arith) in
    let (ds₁, e₁, size₁, here₁, others₁) =
      write_at ds 0 (gate handlers.idt_zero) (omega (arith, filled.size)) in
    let (ds₂, e₂, size₂, here₂, others₂) =
      write_at ds₁ 0x80 (gate handlers.isr80h_wrapper) (omega (arith, filled.size)) in
    let (cs₁, f₁, caught) =
      exceptions_loop-IsFilled (with_gates s ds₂) handlers.idt_handle_exception 0x20 0 cs
        (omega arith) (omega arith) in
    let (cs₂, f₂, size₃, here₃, others₃) =
      write_at cs₁ 0x20 handlers.idt_clock (omega (arith, caught.size)) in
    (
      record {
        idt_descriptors = ds₂;
        interrupt_callbacks = cs₂;
        isr80h_commands = s.isr80h_commands;
      },
      rw
          (
            e,
            idt_set_lem s ds ds₁ 0 handlers.idt_zero e₁,
            idt_set_lem s ds₁ ds₂ 0x80 handlers.isr80h_wrapper e₂,
            f₁,
            register_lem (with_gates s ds₂) cs₁ 0x20 handlers.idt_clock (omega arith) cs₂ f₂,
          )
          refl,
      gate-LeadsTo (get_elem? ds₂ 0) handlers.idt_zero zero_word (others₂ 0 (omega arith) ∙ here₁),
      gate-LeadsTo (get_elem? ds₂ 0x80) handlers.isr80h_wrapper wrapper_word here₂,
      (λ j a b c.
          gate-LeadsTo (get_elem? ds₂ j) (table j) (words j)
            (others₂ j c ∙ (others₁ j b ∙ filled.inside j (omega arith) (omega arith)))),
      (λ j a. others₃ j (omega arith) ∙ caught.inside j (omega arith) (omega arith)),
      here₃,
      (λ j a. others₃ j (omega arith) ∙ caught.above j (omega arith)),
      refl,
    )
