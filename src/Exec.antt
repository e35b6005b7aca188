-- ===== src/Exec.antt =====
-- simulator/src/sim/sim.c: running the simulated processor. The processor is generated from the
-- hardware description, and is a parameter with the reference it is compared to.
pub mod Steps
mod Tests
use cpu_linux.Prelude.{
  ◌>>◌, ℕ, zero, suc, ◌+◌, ◌%◌, ◌^◌, Bool, true, false, List, ◌∷◌, ◌==◌, take, drop, assertion,
  out_of_fuel, Outcome, ok, stop, ◌>>=◌, guard,
}
use cpu_linux.Cpu.{Cpu}
use cpu_linux.Memory.{pmem_read}
use cpu_linux.SimState.{RunState, running, stopped, ended, aborted, quit, SimState}
use cpu_linux.Difftest.{Ref, difftest_step}
use cpu_linux.Dpi.{Host}

-- The processor's ports. `eval clk` sets the clock and evaluates; meanwhile the
-- processor makes the calls of dpi.c, which change the host's state or end the program.
-- `regs` is the register file that dpi_read_regfile() hands over.
pub record Dut : Type 1 where
  pub State : Type 0
  pub eval : Bool → State → Host → Outcome (State × Host)
  pub set_rst : Bool → State → State
  pub commit : State → Bool
  pub commit_pc : State → ℕ
  pub commit_pre_pc : State → ℕ
  pub cur_pc : State → ℕ
  pub regs : State → List ℕ

module _ (d : Dut) (r : Ref) where
  pub record Machine : Type 0 where
    pub dut : d.State
    pub ref : r.State
    pub host : Host
    pub cpu : Cpu
    pub clk_count : ℕ
    pub commit_pre_pc : ℕ

  -- update_cpu_state(): the CSRs in the order MSTATUS, MTVEC, MEPC, MCAUSE of common.h.
  unfoldable pub update_cpu_state : Machine → Machine
  update_cpu_state m = record m {
    cpu = record {
      gpr = take 32 (d.regs m.dut);
      pc = d.cur_pc m.dut;
      csr =
          m.host.cpu_mstatus
          ∷ m.host.cpu_mtvec
          ∷ m.host.cpu_mepc
          ∷ m.host.cpu_mcause
          ∷ drop 4 m.cpu.csr;
    };
  }

  unfoldable pub npc_single_cycle : Machine → Outcome Machine
  unfolding update_cpu_state
  npc_single_cycle m = do
    (s, h) ← d.eval false m.dut m.host
    (s', h') ← d.eval true s h
    ok (update_cpu_state (record m { dut = s'; host = h'; clk_count = (m.clk_count + 1) % 2 ^ 32 }))

  unfoldable pub cycles : ℕ → Machine → Outcome Machine
  cycles zero m = ok m
  cycles (suc n) m = npc_single_cycle m >>= cycles n

  -- npc_reset(n).
  unfoldable pub npc_reset : ℕ → Machine → Outcome Machine
  npc_reset n m = do
    m' ← cycles n (record m { dut = d.set_rst true m.dut })
    ok (record m' { dut = d.set_rst false m'.dut })

  unfoldable pub npc_init : Machine → Outcome Machine
  npc_init m = do m' ← npc_reset 3 m; guard (m'.cpu.pc == 0x8000_0000) assertion; ok m'

  -- `while(dut.commit != 1) npc_single_cycle();`, with fuel.
  unfoldable pub wait_commit : ℕ → Machine → Outcome Machine
  wait_commit zero m = stop out_of_fuel
  wait_commit (suc fuel) m = elim (d.commit m.dut) [
    | true ↦ ok m
    | false ↦ npc_single_cycle m >>= wait_commit fuel
  ]

  -- The comparison at the end of a round of execute(), and its effect on the machine.
  unfoldable pub compare_ref : ℕ → Machine → Outcome Machine
  compare_ref pc m = do
    (f, s) ← difftest_step r m.cpu m.commit_pre_pc ((pc + 4) % 2 ^ 32) m.host.flags m.ref
    ok (record m { ref = s; host = record m.host { flags = f } })

  -- One round of execute(). Of instr_trace() the read of the instruction is kept, and what it prints
  -- is left out. CONFIG_ITRACE and CONFIG_DIFFTEST are defined.
  unfoldable pub commit_one : ℕ → Machine → Outcome Machine
  unfolding compare_ref update_cpu_state
  commit_one fuel m = do
    m₁ ← wait_commit fuel m
    m₂ ← npc_single_cycle (record m₁ { commit_pre_pc = d.commit_pre_pc m₁.dut })
    inst_val ← pmem_read m₂.host.pmem (d.commit_pc m₁.dut) 4
    compare_ref (d.commit_pc m₁.dut) (update_cpu_state m₂)

  -- execute(n), each wait for a commit with fuel `fuel`.
  unfoldable pub execute : ℕ → ℕ → Machine → Outcome Machine
  execute fuel zero m = ok m
  execute fuel (suc n) m = elim m.host.sim_state.state [
    | running ↦ commit_one fuel m >>= execute fuel n
    | _ ↦ ok m
  ]

  abbrev pub set_run_state : RunState → Machine → Machine
  set_run_state s m = record m {
    host = record m.host { sim_state = record m.host.sim_state { state = s } };
  }

  -- The second switch of cpu_exec().
  abbrev pub settle : RunState → Machine → Machine
  settle running m = set_run_state stopped m
  settle _ m = m

  abbrev pub run_from : ℕ → ℕ → Machine → RunState → Outcome Machine
  run_from fuel n m ended = ok m
  run_from fuel n m aborted = ok m
  run_from fuel n m _ =
      execute fuel n (set_run_state running m) >>= λ m'. ok (settle m'.host.sim_state.state m')

  -- cpu_exec(n); its messages and the timing are left out, and with it that get_time() sets the boot time of
  -- the clock if this is its first call.
  unfoldable pub cpu_exec : ℕ → ℕ → Machine → Outcome Machine
  cpu_exec fuel n m = run_from fuel n m m.host.sim_state.state
