-- ===== src/Difftest.antt =====
-- simulator/src/difftest/difftest.c: the simulated processor is compared with a reference one after
-- each instruction. The reference is a shared library that the code loads: it is a parameter.
mod Lockstep
mod Tests
use cpu_linux.Prelude.{
  ℕ, zero, suc, ◌+◌, ◌-◌, ◌≡◌, Bool, true, false, ◌&&◌, List, ltb, ◌==◌, if◌then◌else◌, get_or,
  assertion, exited, Outcome, ok, stop, ◌>>◌,
}
use cpu_linux.Cpu.{Cpu, gpr_num}

-- What the code uses of the reference: `exec` is ref_difftest_exec(1), `set_regs` and `regs` are
-- ref_difftest_regcpy() to and from it. A copy out gives what was copied in.
pub record Ref : Type 1 where
  pub State : Type 0
  pub exec : State → State
  pub set_regs : Cpu → State → State
  pub regs : State → Cpu
  pub regs-set_regs : (c : Cpu) (s : State) → regs (set_regs c s) ≡ c

-- `is_skip_ref` and `skip_dut_nr_inst`.
pub record Flags : Type 0 where
  pub is_skip_ref : Bool
  pub skip_dut_nr_inst : ℕ

unfoldable pub difftest_skip_ref : Flags
difftest_skip_ref = record { is_skip_ref = true; skip_dut_nr_inst = 0 }

-- The loop of checkregs(): whether the first `n` registers agree.
unfoldable pub same_gpr : ℕ → List ℕ → List ℕ → Bool
same_gpr zero ref dut = true
same_gpr (suc n) ref dut = get_or ref n 0 == get_or dut n 0 && same_gpr n ref dut

-- checkregs(ref, pc): a difference ends the program. CONFIG_DIFFTEST_CSR is not defined.
unfoldable pub checkregs : Cpu → Cpu → ℕ → Outcome (Unit {0})
checkregs ref cpu commit_pre_pc =
    if commit_pre_pc == ref.pc && same_gpr gpr_num ref.gpr cpu.gpr then ok tt else stop exited

module _ (r : Ref) where
  open r use {State, exec, set_regs, regs}

  unfoldable pub exec_times : ℕ → State → State
  exec_times zero s = s
  exec_times (suc n) s = exec_times n (exec s)

  -- init_difftest(): the registers of the processor are copied to the reference.
  unfoldable pub init_difftest : Cpu → State → State
  init_difftest cpu s = set_regs cpu s

  unfoldable pub difftest_skip_dut : ℕ → ℕ → Flags → State → Flags × State
  difftest_skip_dut nr_ref nr_dut f s =
      (record f { skip_dut_nr_inst = f.skip_dut_nr_inst + nr_dut }, exec_times nr_ref s)

  -- The branch of difftest_step() in which the processor's instructions are skipped.
  unfoldable pub catch_up : Cpu → ℕ → ℕ → Flags → State → Outcome (Flags × State)
  catch_up cpu commit_pre_pc next_pc f s =
      if (regs s).pc == next_pc
      then (checkregs (regs s) cpu commit_pre_pc >> ok (record f { skip_dut_nr_inst = 0 }, s))
      else if f.skip_dut_nr_inst == 1
      then stop assertion
      else ok (record f { skip_dut_nr_inst = f.skip_dut_nr_inst - 1 }, s)

  -- difftest_step(pc, next_pc).
  unfoldable pub difftest_step : Cpu → ℕ → ℕ → Flags → State → Outcome (Flags × State)
  difftest_step cpu commit_pre_pc next_pc f s =
      if ltb 0 f.skip_dut_nr_inst
      then catch_up cpu commit_pre_pc next_pc f s
      else if f.is_skip_ref
      then ok (record f { is_skip_ref = false }, set_regs cpu s)
      else (checkregs (regs (exec s)) cpu commit_pre_pc >> ok (f, exec s))
