-- ===== src/Am/Trap/Tests.antt =====
-- A timer interrupt of a process, and the start of another one.
use cpu_linux.Prelude.{
  ◌+◌, ◌/◌, ◌%◌, ◌≡◌, ◌≢◌, ◌&&◌, true, some, arith, ok, stop, assertion, ◌==◌, if◌then◌else◌,
}
use cpu_linux.Am.Vme.{
  Area, AddrSpace, Context, zero_context, usel_ucode, ksel_kdata, ucontext, uvm_area, fl_if,
}
use cpu_linux.Am.Trap.{TrapFrame, Processor, irq_handle, cte_init}
use cpu_linux.Am.Trap.Resume.{acks, irq_handle_back, irq_handle-ucontext}
use cpu_linux.Am.Trap.Gates.{gates, cte_init_lem}

abbrev frame : TrapFrame
frame = record {
  saved_context = record zero_context { eax = 7 };
  irq = 32;
  errcode = 0;
  eip = 0x4000_1234;
  cs = usel_ucode;
  eflags = 0x202;
  esp = 0x7fff_ff00;
  ss = 35;
  top = 0x9_0000;
}

abbrev processor : Processor
processor = record {
  tss_esp0 = 0x9_0000;
  tss_ss0 = 16;
  cr2 = 0;
  cr3 = 0x1005;
  has_lapic = true;
  eois = 4;
}

irq_handle_back_example :
    (ctx : Context) × (irq_handle (λ ev c. some c) frame processor
      ≡ ok (ctx, record processor { tss_ss0 = ksel_kdata; eois = 4 + acks frame processor }))
    × (ctx.eip ≡ 0x4000_1234)
    × (ctx.cs ≡ usel_ucode)
    × (ctx.eflags ≡ 0x202)
    × (ctx.eax ≡ 7)
    × (usel_ucode % 4 ≢ 0 → ctx.esp ≡ 0x7fff_ff00)
irq_handle_back_example = irq_handle_back frame processor (λ e. ground arith)

abbrev space : AddrSpace
space = record { pgsize_of = 4096; area = uvm_area; ptr = 0x2005 }

abbrev kstack : Area
kstack = record { start = 0x8_0000; end = 0x8_8000 }

irq_handle-ucontext_example :
    (ctx : Context) × (irq_handle
        (λ ev c. some ((ucontext space kstack 0x4000_0000).1))
        frame
        processor
      ≡ ok (
        ctx,
        record processor {
          cr3 = 0x2005;
          tss_ss0 = ksel_kdata;
          tss_esp0 = 0x8_8000;
          eois = 4 + acks frame processor;
        },
      ))
    × (ctx.eip ≡ 0x4000_0000)
    × (ctx.cs % 4 ≡ 3)
    × (ctx.eflags / fl_if % 2 ≡ 1)
    × (ctx.esp ≡ uvm_area.end)
irq_handle-ucontext_example =
    irq_handle-ucontext frame processor space kstack 0x4000_0000 (λ e. ground arith)

cte_init_lem_example : cte_init 0 true ≡ (if 0 == 0 && true then ok gates else stop assertion)
cte_init_lem_example = cte_init_lem 0 true
