-- ===== src/Difftest/Tests.antt =====
-- The comparison with a reference that counts its pc up by 4.
use cpu_linux.Prelude.{ℕ, ◌+◌, ◌≡◌, ◌↔◌, refl, false, [], ◌∷◌, exited, ok, stop}
use cpu_linux.Cpu.{Cpu}
use cpu_linux.Difftest.{Ref, Flags, checkregs, same_gpr, difftest_step}
use cpu_linux.Difftest.Lockstep.{SameRegs, difftest_step_lem}

abbrev at : ℕ → ℕ → Cpu
at pc a0 = record { gpr = 0 ∷ 1 ∷ a0 ∷ []; pc = pc; csr = [] }

abbrev counter : Ref
counter = record {
  State = Cpu;
  exec = λ c. record c { pc = c.pc + 4 };
  set_regs = λ c s. c;
  regs = λ s. s;
  regs-set_regs = λ c s. refl;
}

abbrev no_flags : Flags
no_flags = record { is_skip_ref = false; skip_dut_nr_inst = 0 }

different : difftest_step counter (at 104 7) 104 108 no_flags (at 100 8) ≡ stop exited
unfolding difftest_step checkregs same_gpr
different = refl

difftest_step_lem_example :
    ((difftest_step counter (at 104 7) 104 108 no_flags (at 100 7) ≡ ok (no_flags, at 104 7))
      ↔ SameRegs (at 104 7) (at 104 7) 104)
    × ((difftest_step counter (at 104 7) 104 108 no_flags (at 100 7) ≡ stop exited)
        ↔ ¬ SameRegs (at 104 7) (at 104 7) 104)
difftest_step_lem_example =
    difftest_step_lem counter (at 104 7) 104 108 no_flags (at 100 7) refl refl
