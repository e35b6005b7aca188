-- ===== src/Sdb/Tests.antt =====
-- Sessions at concrete lines, with a regexec() that matches the whole text by the first rule.
use cpu_linux.Prelude.{
  ℕ, ◌+◌, ◌*◌, ◌%◌, ◌^◌, ◌≡◌, refl, ◌&&◌, true, false, some, List, [], ◌∷◌, codes, length, ltb, leb,
  if◌then◌else◌, undefined, ok, stop, set,
}
use cpu_linux.Cpu.{Cpu, get_reg_val}
use cpu_linux.Memory.{mbase, msize, Pmem}
use cpu_linux.SimState.{stopped}
use cpu_linux.Difftest.{Ref}
use cpu_linux.Expr.Eval.{expr2val, eval, eval_true}
use cpu_linux.Expr.Lexer.{Regexec, first_match, add_token, scan, classify, make_token, expr}
use cpu_linux.Watchpoint.{
  Pool, added, deleted, init_from, wp_init, del_loop, wp_del_watched, enable, copy_text,
  wp_add_watched,
}
use cpu_linux.Exec.{Dut, Machine}
use cpu_linux.Sdb.{
  Print, message, shown, replied, Debugger, skip_spaces, up_to_space, digits_value, arg2val,
  get_memory_val, find_cmd, get_expr_val, cmd_p, cmd_w, cmd_d, handle, sdb_line, line_loop,
  sdb_mainloop,
}
use cpu_linux.Sdb.Args.{words, get_memory_val_lem}

abbrev idle : Dut
idle = record {
  State = ℕ;
  eval = λ clk n h. ok (n + 1, h);
  set_rst = λ b n. n;
  commit = λ n. true;
  commit_pc = λ n. mbase;
  commit_pre_pc = λ n. mbase;
  cur_pc = λ n. mbase;
  regs = λ n. [];
}

abbrev still : Ref
still = record {
  State = Cpu;
  exec = λ c. c;
  set_regs = λ c s. c;
  regs = λ s. s;
  regs-set_regs = λ c s. refl;
}

abbrev whole : Regexec
whole regex s = some (0, length s)

abbrev counting : Pmem
counting p = p % 256

abbrev start : Cpu
start = record { gpr = []; pc = 16; csr = [] }

abbrev machine : Machine idle still
machine = record {
  dut = 0;
  ref = start;
  host = record {
    pmem = counting;
    serial = [];
    boot_time = 0;
    flags = record { is_skip_ref = false; skip_dut_nr_inst = 0 };
    sim_state = record { state = stopped; halt_pc = 0; halt_ret = 0 };
    cpu_mstatus = 0;
    cpu_mtvec = 0;
    cpu_mcause = 0;
    cpu_mepc = 0;
  };
  cpu = start;
  clk_count = 0;
  commit_pre_pc = 0;
}

abbrev debugger : Pool → List Print → Debugger idle still whole 1
debugger pool screen = record { machine = machine; pool = pool; screen = screen }

-- The watchpoint 1 is used up, and disabled.
abbrev used_up : Pool
unfolding wp_init init_from
used_up = record {
  wp = set wp_init.wp 0 (record { number = 1; keep = 0; text = codes "$pc"; value = 16 });
  wp_cnt = 1;
}

abbrev lines : List (List ℕ)
lines = codes "w $pc" ∷ codes "  d 1" ∷ codes "p $pc" ∷ codes "nop" ∷ codes "q" ∷ codes "d" ∷ []

session :
    sdb_mainloop idle still whole 1 false lines (debugger wp_init [])
    ≡ ok
        (debugger used_up (replied (added 1) ∷ replied deleted ∷ shown 16 ∷ message ∷ message ∷ []))
unfolding sdb_mainloop line_loop sdb_line handle cmd_p cmd_w cmd_d get_expr_val find_cmd arg2val
    digits_value skip_spaces up_to_space wp_init init_from wp_add_watched wp_del_watched del_loop
    enable copy_text expr make_token scan first_match add_token classify eval eval_true expr2val
    get_reg_val used_up
session = refl

-- The command p without an argument.
p_alone : (sdb_line idle still whole 1 (codes "p") (debugger wp_init [])) ≡ stop undefined
unfolding sdb_line skip_spaces up_to_space find_cmd handle cmd_p get_expr_val
p_alone = refl

get_memory_val_lem_example : get_memory_val counting 0x8000_0004 2 ≡ (
    if leb 1 2 && ltb 2 (2 ^ 31) && leb mbase 0x8000_0004 && ltb 0x8000_0004 (mbase + msize)
    then (if leb (0x8000_0004 + 4 * 2) (mbase + msize)
        then ok (words counting 0x8000_0004 2)
        else stop undefined)
    else ok (message ∷ []))
get_memory_val_lem_example = get_memory_val_lem counting 0x8000_0004 2
