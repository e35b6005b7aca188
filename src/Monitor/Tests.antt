-- ===== src/Monitor/Tests.antt =====
-- Starts of the simulator with a small file and with the built-in program.
use cpu_linux.Prelude.{
  ℕ, ◌+◌, ◌*◌, ◌^◌, ◌<◌, ◌≡◌, refl, true, none, some, List, [], ◌∷◌, codes, length, get_or, arith,
  ok,
}
use cpu_linux.Cpu.{Cpu}
use cpu_linux.Memory.{mbase, Pmem, pmem_read}
use cpu_linux.Difftest.{Ref, init_difftest}
use cpu_linux.Exec.{Dut, npc_init, npc_reset, cycles, npc_single_cycle, update_cpu_state}
use cpu_linux.Expr.Lexer.{Regexec}
use cpu_linux.Watchpoint.{wp_init}
use cpu_linux.Sdb.{
  Debugger, message, sdb_mainloop, line_loop, sdb_line, handle, find_cmd, skip_spaces, up_to_space,
}
use cpu_linux.Sdb.Session.{IsSound}
use cpu_linux.Monitor.{
  Os, Opt, Args, no_args, parse_args, reset_vector, bytes_of, load_mem, init_log, load_img,
  load_builded_img, init_mem, RefLib, first_machine, open_difftest, init_monitor, main,
}
use cpu_linux.Monitor.Boot.{boot_byte, load_mem_lem}
use cpu_linux.Monitor.Start.{Calm, main-IsSound}

abbrev words : List ℕ
words = 0x0010_0093 ∷ 0x0010_0073 ∷ []

abbrev os : Os
os = record {
  read_file = λ name. some (bytes_of words);
  can_write = λ name. true;
  scan_int = λ s. none;
  rand = 0x7a5;
  can_load = λ name. true;
  can_compile = true;
}

abbrev args : Args
args = record no_args { img_file = some (codes "img.bin") }

load_mem_lem_example :
    (m : Pmem) × (load_mem os args ≡ ok (m, 4 * 2))
    × ((q : ℕ) → m q ≡ boot_byte os (bytes_of words) q)
    × ((i : ℕ)
        → i < 2
        → get_or words i 0 < 2 ^ 32
        → pmem_read m (reset_vector + 4 * i) 4 ≡ ok (get_or words i 0))
load_mem_lem_example =
    load_mem_lem os args (codes "img.bin") words refl refl refl (ground arith) (ground arith)

abbrev idle : Dut
idle = record {
  State = ℕ;
  eval = λ clk n h. ok (n + 1, h);
  set_rst = λ b n. n;
  commit = λ n. true;
  commit_pc = λ n. mbase;
  commit_pre_pc = λ n. mbase;
  cur_pc = λ n. mbase;
  regs = λ n. [];
}

abbrev still : Ref
still = record {
  State = Cpu;
  exec = λ c. c;
  set_regs = λ c s. c;
  regs = λ s. s;
  regs-set_regs = λ c s. refl;
}

abbrev whole : Regexec
whole regex s = some (0, length s)

abbrev lib : RefLib idle still
lib = record { ref_difftest_init = λ port s. s; ref_difftest_memcpy = λ m n s. s }

abbrev reset_cpu : Cpu
reset_cpu = record { gpr = []; pc = mbase; csr = 0 ∷ 0 ∷ 0 ∷ 0 ∷ 0 ∷ [] }

abbrev opts : List Opt
opts = record { letter = b'd'; optarg = codes "ref.so" } ∷ []

-- The session after the line `q`.
abbrev started : Debugger idle still whole 1
started =
    let m = first_machine idle still 0 reset_cpu (load_builded_img (init_mem os)) in
    record {
      machine = record m { dut = 6; cpu = reset_cpu; clk_count = 3 };
      pool = wp_init;
      screen = message ∷ [];
    }

idle-Calm : Calm idle still 1
idle-Calm clk s s' h h' n e = ground arith

start_run : main idle still whole 1 os lib opts 0 reset_cpu (codes "q" ∷ []) ≡ ok started
unfolding main init_monitor parse_args load_mem init_log load_img npc_init npc_reset cycles
    npc_single_cycle update_cpu_state open_difftest init_difftest sdb_mainloop line_loop sdb_line
    handle find_cmd skip_spaces up_to_space
start_run = refl

main-IsSound_example : IsSound idle still whole 1 started
main-IsSound_example =
    main-IsSound idle still 1 idle-Calm whole os lib opts 0 reset_cpu (codes "q" ∷ []) started
      start_run
