-- ===== src/Am/Trap/Resume.antt =====
-- What a trap does to the program that it interrupts, and how a new context is entered by one.
use cpu_linux.Prelude.{
  ℕ, ◌+◌, ◌/◌, ◌%◌, ◌≡◌, ◌≢◌, refl, ◌&&◌, some, ltb, leb, if◌then◌else◌, arith, ok,
}
use cpu_linux.Am.Vme.{Area, AddrSpace, Context, ksel_kdata, ucontext, uvm_area, fl_if}
use cpu_linux.Am.Trap.{
  TrapFrame, Processor, event_of, save_context, lapic_eoi, switch_to, irq_handle, kcontext,
}

-- The number of acknowledgements for a trap.
abbrev pub acks : TrapFrame → Processor → ℕ
acks tf cpu = if leb 32 tf.irq && ltb tf.irq 64 && cpu.has_lapic then 1 else 0

-- If the handler gives the interrupted context back and paging is on, this context is resumed where it was
-- interrupted, with its flags and, if it came from the user, its stack; the processor keeps its page
-- directory and its kernel stack, and an interrupt from 32 to 63 is acknowledged once.
pub irq_handle_back :
    (tf : TrapFrame) (cpu : Processor)
    → cpu.cr3 ≢ 0
    → (ctx : Context) × (irq_handle (λ ev c. some c) tf cpu
        ≡ ok (ctx, record cpu { tss_ss0 = ksel_kdata; eois = cpu.eois + acks tf cpu }))
      × (ctx.eip ≡ tf.eip)
      × (ctx.cs ≡ tf.cs)
      × (ctx.eflags ≡ tf.eflags)
      × (ctx.eax ≡ tf.saved_context.eax)
      × (tf.cs % 4 ≢ 0 → ctx.esp ≡ tf.esp)
unfolding irq_handle save_context lapic_eoi switch_to
irq_handle_back tf cpu h =
    (save_context tf cpu, ground arith, refl, refl, refl, refl, λ u. ground arith)

-- If the handler gives the context of ucontext() for a space with a page directory, the processor gets this
-- directory and the stack of the process, and the context runs at its entry, at the user's level with
-- interrupts on and the stack at the end of the user's area.
pub irq_handle-ucontext :
    (tf : TrapFrame) (cpu : Processor) (space : AddrSpace) (kstack : Area) (entry : ℕ)
    → space.ptr ≢ 0
    → (ctx : Context) × (irq_handle (λ ev c. some ((ucontext space kstack entry).1)) tf cpu
        ≡ ok (
          ctx,
          record cpu {
            cr3 = space.ptr;
            tss_ss0 = ksel_kdata;
            tss_esp0 = kstack.end;
            eois = cpu.eois + acks tf cpu;
          },
        ))
      × (ctx.eip ≡ entry)
      × (ctx.cs % 4 ≡ 3)
      × (ctx.eflags / fl_if % 2 ≡ 1)
      × (ctx.esp ≡ uvm_area.end)
unfolding irq_handle lapic_eoi switch_to ucontext
irq_handle-ucontext tf cpu space kstack entry h =
    ((ucontext space kstack entry).1, ground arith, refl, refl, refl, refl)

-- A context of kcontext() keeps the page directory and the kernel stack of the processor, runs at
-- the kernel's level with interrupts on, and has the argument and the entry in its registers.
pub irq_handle-kcontext :
    (tf : TrapFrame) (cpu : Processor) (start : ℕ) (kstack : Area) (entry arg : ℕ)
    → (ctx : Context) × (irq_handle (λ ev c. some ((kcontext start kstack entry arg).1)) tf cpu
        ≡ ok (ctx, record cpu { eois = cpu.eois + acks tf cpu }))
      × (ctx.eip ≡ start)
      × (ctx.cs % 4 ≡ 0)
      × (ctx.eflags / fl_if % 2 ≡ 1)
      × (ctx.esp ≡ kstack.end)
      × (ctx.eax ≡ arg)
      × (ctx.ebx ≡ entry)
unfolding irq_handle lapic_eoi switch_to kcontext
irq_handle-kcontext tf cpu start kstack entry arg =
    ((kcontext start kstack entry arg).1, ground arith, refl, refl, refl, refl, refl, refl)

-- The event of a page fault is the same whether or not bit 0 of the error code says that the page was there.
pub event_of_present :
    (errcode cr2 : ℕ) → errcode % 2 ≡ 0 → event_of 14 (errcode + 1) cr2 ≡ event_of 14 errcode cr2
unfolding event_of
event_of_present errcode cr2 h = ground arith
