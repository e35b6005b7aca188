-- ===== src/Am/Trap.antt =====
-- abstract-machine/am/src/x86/qemu/cte.c for 32 bits: traps, as events for the program's handler, which is a
-- parameter. The messages of the events are left out.
pub mod Resume
pub mod Gates
mod Tests
use cpu_linux.Prelude.{
  ◌>>=◌, ◌>>◌, ℕ, ◌+◌, ◌-◌, ◌/◌, ◌%◌, Bool, ◌&&◌, ◌||◌, Option, none, some, List, [], ◌∷◌, ltb, leb,
  ◌==◌, if◌then◌else◌, assertion, Outcome, ok, stop, guard,
}
use cpu_linux.Am.Vme.{
  Area, Context, zero_context, context_size, ksel_kcode, ksel_kdata, usel_udata, fl_if, mmap_none,
}

-- The enum of Event in am.h.
pub data EventKind : Type 0 where
  event_null event_yield event_syscall event_pagefault event_error event_irq_timer event_irq_iodev :
      EventKind

pub record Event : Type 0 where
  pub event : EventKind
  pub cause : ℕ
  pub ref : ℕ

-- struct trap_frame; `top` is the address behind it.
pub record TrapFrame : Type 0 where
  pub saved_context : Context
  pub irq : ℕ
  pub errcode : ℕ
  pub eip : ℕ
  pub cs : ℕ
  pub eflags : ℕ
  pub esp : ℕ
  pub ss : ℕ
  pub top : ℕ

-- The processor: the two fields of CPU->tss, the registers cr2 and cr3, whether __am_lapic is set, and how
-- often its EOI was written.
pub record Processor : Type 0 where
  pub tss_esp0 : ℕ
  pub tss_ss0 : ℕ
  pub cr2 : ℕ
  pub cr3 : ℕ
  pub has_lapic : Bool
  pub eois : ℕ

-- MMAP_READ and MMAP_WRITE.
abbrev pub mmap_read : ℕ
mmap_read = 1

abbrev pub mmap_write : ℕ
mmap_write = 2

-- The cause of a page fault; the flags are disjoint bits.
abbrev pub fault_cause : ℕ → ℕ
fault_cause errcode =
    (if errcode % 2 == 1 then mmap_none else 0)
    + (if errcode / 2 % 2 == 1 then mmap_write else mmap_read)

abbrev pub plain : EventKind → Event
plain kind = record { event = kind; cause = 0; ref = 0 }

-- The switch of __am_irq_handle(): the cases in order, with T_IRQ0 = 32.
unfoldable pub event_of : ℕ → ℕ → ℕ → Event
event_of irq errcode cr2 =
    if irq == 32
    then plain event_irq_timer
    else if irq == 33
    then plain event_irq_iodev
    else if irq == 36
    then plain event_irq_iodev
    else if irq == 0x80
    then plain event_syscall
    else if irq == 0x81
    then plain event_yield
    else if irq == 0
        || irq == 6
        || irq == 7
        || irq == 8
        || irq == 10
        || irq == 11
        || irq == 12
        || irq == 13
    then plain event_error
    else if irq == 14
    then record { event = event_pagefault; cause = fault_cause errcode; ref = cr2 }
    else record { event = event_error; cause = errcode; ref = 0 }

-- The context that is saved; `cs & DPL_USER` is one of the two low bits.
unfoldable pub save_context : TrapFrame → Processor → Context
save_context tf cpu = record tf.saved_context {
  eip = tf.eip;
  cs = tf.cs;
  eflags = tf.eflags;
  esp0 = cpu.tss_esp0;
  ss3 = usel_udata;
  esp = if tf.cs % 4 == 0 then tf.top - 8 else tf.esp;
  cr3 = cpu.cr3;
}

-- __am_lapic_eoi().
unfoldable pub lapic_eoi : Processor → Processor
lapic_eoi cpu = if cpu.has_lapic then record cpu { eois = cpu.eois + 1 } else cpu

-- What is done for the context that the handler gives, before it is resumed.
unfoldable pub switch_to : Context → Processor → Processor
switch_to ctx cpu =
    if ctx.cr3 == 0
    then cpu
    else record cpu { cr3 = ctx.cr3; tss_ss0 = ksel_kdata; tss_esp0 = ctx.esp0 }

abbrev pub resume : Option Context → Processor → Outcome (Context × Processor)
resume none cpu = stop assertion
resume (some ctx) cpu = ok (ctx, switch_to ctx cpu)

-- __am_irq_handle(tf): the context that __am_iret() resumes, and the processor. The handler gives a context
-- or NULL.
unfoldable pub irq_handle :
    (Event → Context → Option Context) → TrapFrame → Processor → Outcome (Context × Processor)
irq_handle user_handler tf cpu =
    let cpu' = if leb 32 tf.irq && ltb tf.irq 64 then lapic_eoi cpu else cpu in
    resume (user_handler (event_of tf.irq tf.errcode cpu.cr2) (save_context tf cpu)) cpu'

-- kcontext(kstack, entry, arg), with the address of __am_kcontext_start.
unfoldable pub kcontext : ℕ → Area → ℕ → ℕ → ℕ × Context
kcontext kcontext_start kstack entry arg = (
  kstack.end - context_size,
  record zero_context {
    ds = ksel_kdata;
    cs = ksel_kcode;
    eip = kcontext_start;
    eflags = fl_if;
    esp = kstack.end;
    eax = arg;
    ebx = entry;
  },
)

-- A gate of `idt`: its code, by the number in __am_irq##id or none for __am_irqall, and its level.
pub record Gate : Type 0 where
  pub entry : Option ℕ
  pub dpl : ℕ

abbrev pub dpl_kern : ℕ
dpl_kern = 0

abbrev pub dpl_user : ℕ
dpl_user = 3

-- IRQS of x86.h.
abbrev pub kern_irqs : List ℕ
kern_irqs =
    0 ∷ 1 ∷ 2 ∷ 3 ∷ 4 ∷ 5 ∷ 6 ∷ 7 ∷ 8 ∷ 9 ∷ 10 ∷ 11 ∷ 12 ∷ 13 ∷ 14 ∷ 15 ∷ 16 ∷ 19 ∷ 31 ∷ 32 ∷ 33
    ∷ 34 ∷ 35 ∷ 36 ∷ 37 ∷ 38 ∷ 39 ∷ 40 ∷ 41 ∷ 42 ∷ 43 ∷ 44 ∷ 45 ∷ 46 ∷ 47 ∷ []

abbrev pub user_irqs : List ℕ
user_irqs = 128 ∷ 129 ∷ []

-- The assignments that IRQS(IDT_ENTRY) expands to.
unfoldable pub set_gates : ℕ → List ℕ → (ℕ → Gate) → ℕ → Gate
set_gates dpl [] idt = idt
set_gates dpl (id ∷ ids) idt =
    set_gates dpl ids (λ i. if i == id then record { entry = some id; dpl = dpl } else idt i)

-- cte_init(handler): the table of 256 gates. `handler` tells whether it is not NULL.
unfoldable pub cte_init : ℕ → Bool → Outcome (ℕ → Gate)
cte_init cpu_current handler = do
  guard (cpu_current == 0) assertion
  guard handler assertion
  ok (
      set_gates dpl_user user_irqs
        (set_gates dpl_kern kern_irqs (λ i. record { entry = none; dpl = dpl_kern })))
