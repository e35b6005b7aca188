-- ===== src/Exec/Tests.antt =====
-- Runs of a processor that commits in every third cycle and ends its run at cycle 6.
use cpu_linux.Prelude.{
  ℕ, ◌+◌, ◌%◌, ◌≡◌, refl, inl, true, false, [], ◌==◌, if◌then◌else◌, Outcome, stop, ok, ◌>>=◌,
}
use cpu_linux.Cpu.{Cpu}
use cpu_linux.Memory.{pmem_read, host_read, guest_to_host}
use cpu_linux.SimState.{running, stopped, ended}
use cpu_linux.Difftest.{Ref, difftest_step, checkregs, same_gpr}
use cpu_linux.Dpi.{Host}
use cpu_linux.Exec.{
  Dut, Machine, update_cpu_state, npc_single_cycle, cycles, wait_commit, compare_ref, commit_one,
  execute, set_run_state, cpu_exec,
}
use cpu_linux.Exec.Steps.{cpu_exec_ended, cpu_exec-add, state_of}

abbrev ended_at : ℕ → Host → Host
ended_at pc h = record h { sim_state = record { state = ended; halt_pc = pc; halt_ret = 0 } }

-- The state counts the cycles. An instruction takes three of them.
abbrev counter : Dut
counter = record {
  State = ℕ;
  eval = λ clk n h.
      if clk then ok (n + 1, if n == 5 then ended_at 0x8000_0004 h else h) else ok (n, h);
  set_rst = λ b n. n;
  commit = λ n. n % 3 == 2;
  commit_pc = λ n. 0x8000_0000;
  commit_pre_pc = λ n. 0x8000_0000;
  cur_pc = λ n. 0x8000_0000;
  regs = λ n. [];
}

abbrev still : Ref
still = record {
  State = Cpu;
  exec = λ c. c;
  set_regs = λ c s. c;
  regs = λ s. s;
  regs-set_regs = λ c s. refl;
}

abbrev start : Cpu
start = record { gpr = []; pc = 0x8000_0000; csr = [] }

abbrev machine : Machine counter still
machine = record {
  dut = 0;
  ref = start;
  host = record {
    pmem = λ p. 0;
    serial = [];
    boot_time = 0;
    flags = record { is_skip_ref = false; skip_dut_nr_inst = 0 };
    sim_state = record { state = stopped; halt_pc = 0; halt_ret = 0 };
    cpu_mstatus = 0;
    cpu_mtvec = 0;
    cpu_mcause = 0;
    cpu_mepc = 0;
  };
  cpu = start;
  clk_count = 0;
  commit_pre_pc = 0;
}

abbrev going : Machine counter still
going = set_run_state counter still running machine

abbrev result : Outcome (Machine counter still) → Machine counter still
result (ok m) = m
result (stop s) = machine

abbrev one_done : Machine counter still
unfolding execute commit_one wait_commit npc_single_cycle update_cpu_state compare_ref difftest_step
    checkregs same_gpr pmem_read host_read guest_to_host
one_done = result (execute counter still 3 1 going)

one_instruction : execute counter still 3 1 going ≡ ok one_done
unfolding execute commit_one wait_commit npc_single_cycle update_cpu_state compare_ref difftest_step
    checkregs same_gpr pmem_read host_read guest_to_host one_done
one_instruction = refl

two_cycles : cycles counter still 2 going ≡ ok (result (cycles counter still 2 going))
unfolding cycles npc_single_cycle update_cpu_state
two_cycles = refl

one_running : state_of counter still one_done ≡ running
unfolding one_done
one_running = refl

commits : counter.commit (result (cycles counter still 2 going)).dut ≡ true
unfolding cycles npc_single_cycle update_cpu_state
commits = refl

cpu_exec-add_example :
    cpu_exec counter still 3 (1 + 1) machine
    ≡ (cpu_exec counter still 3 1 machine >>= cpu_exec counter still 3 1)
cpu_exec-add_example =
    cpu_exec-add counter still 3 1 1 machine one_done refl one_instruction (inl one_running)

once : cpu_exec counter still 3 1 machine ≡ ok (set_run_state counter still stopped one_done)
unfolding cpu_exec execute commit_one wait_commit npc_single_cycle update_cpu_state compare_ref
    difftest_step checkregs same_gpr pmem_read host_read guest_to_host one_done
once = refl

cpu_exec_ended_example :
    cpu_exec counter still 3 4 (set_run_state counter still ended machine)
    ≡ ok (set_run_state counter still ended machine)
cpu_exec_ended_example =
    cpu_exec_ended counter still 3 4 (set_run_state counter still ended machine) (inl refl)
