-- ===== src/Sdb.antt =====
-- simulator/src/monitor/sdb/sdb.c: the commands of the debugger and its loop. The lines that the user
-- types are a list; readline() gives them.
pub mod Args
pub mod Session
mod Tests
use cpu_linux.Prelude.{
  ◌>>=◌, ◌>>◌, ℕ, zero, suc, ◌+◌, ◌-◌, ◌*◌, ◌%◌, ◌^◌, Bool, true, false, ◌&&◌, Option, none, some,
  List, [], ◌∷◌, ◌++◌, ltb, leb, ◌==◌, if◌then◌else◌, length, codes, text_eq, assertion, undefined,
  Outcome, ok, stop,
}
use cpu_linux.Memory.{Pmem, pmem_read}
use cpu_linux.Difftest.{Ref}
use cpu_linux.Expr.Eval.{Env}
use cpu_linux.Expr.Lexer.{Regexec, expr}
use cpu_linux.Watchpoint.{Watchpoint, Pool, Reply, wp_add_watched, wp_del_watched, wp_print}
use cpu_linux.Exec.{Dut, Machine, cpu_exec}

-- strtok(s, " "): the token, and the text behind the space that ends it.
unfoldable pub skip_spaces : List ℕ → List ℕ
skip_spaces [] = []
skip_spaces (ch ∷ s) = let rest = skip_spaces s in if ch == b' ' then rest else ch ∷ s

unfoldable pub up_to_space : List ℕ → List ℕ × List ℕ
up_to_space [] = ([], [])
up_to_space (ch ∷ s) =
    let rest = up_to_space s in if ch == b' ' then ([], s) else (ch ∷ rest.0, rest.1)

abbrev pub some_token : List ℕ → Option (List ℕ × List ℕ)
some_token [] = none
some_token (ch ∷ s) = some (up_to_space (ch ∷ s))

abbrev pub strtok : List ℕ → Option (List ℕ × List ℕ)
strtok s = some_token (skip_spaces s)

-- A pointer to the text, or NULL if nothing is left.
abbrev pub text_left : List ℕ → Option (List ℕ)
text_left [] = none
text_left (ch ∷ s) = some (ch ∷ s)

-- arg2val(): the loop from the value `value` on.
unfoldable pub digits_value : ℕ → List ℕ → Outcome ℕ
digits_value value [] = ok value
digits_value value (ch ∷ s) =
    let rest = digits_value ((value * 10 + (ch - b'0')) % 2 ^ 32) s in
    if leb b'0' ch && leb ch b'9' then rest else stop assertion

-- A NULL is dereferenced.
unfoldable pub arg2val : Option (List ℕ) → Outcome ℕ
arg2val none = stop undefined
arg2val (some arg) = digits_value 0 arg

-- What a command prints. A message about an error or for the reader is left out, and is one
-- `message` whatever it says.
pub data Print : Type 0 where
  message registers : Print
  shown : ℕ → Print
  word_at : ℕ → ℕ → Print
  watchpoints : List Watchpoint → Print
  replied : Reply → Print

-- The loop of get_memory_val().
unfoldable pub memory_words : Pmem → ℕ → ℕ → Outcome (List Print)
memory_words m mem_addr zero = ok []
memory_words m mem_addr (suc n) = do
  v ← pmem_read m mem_addr 4
  rest ← memory_words m ((mem_addr + 4) % 2 ^ 32) n
  ok (word_at mem_addr v ∷ rest)

-- get_memory_val(mem_addr, length); a length from 2^31 on is an `int` below 0.
unfoldable pub get_memory_val : Pmem → ℕ → ℕ → Outcome (List Print)
get_memory_val m mem_addr len =
    if leb 1 len && ltb len (2 ^ 31) && leb 0x8000_0000 mem_addr && leb mem_addr 0x87ff_ffff
    then memory_words m mem_addr len
    else ok (message ∷ [])

-- The handlers of cmd_table.
pub data Handler : Type 0 where
  help_cmd c_cmd q_cmd si_cmd info_cmd x_cmd p_cmd w_cmd d_cmd clear_cmd : Handler

abbrev pub cmd_table : List (List ℕ × Handler)
cmd_table =
    (codes "help", help_cmd)
    ∷ (codes "c", c_cmd)
    ∷ (codes "q", q_cmd)
    ∷ (codes "si", si_cmd)
    ∷ (codes "info", info_cmd)
    ∷ (codes "x", x_cmd)
    ∷ (codes "p", p_cmd)
    ∷ (codes "w", w_cmd)
    ∷ (codes "d", d_cmd)
    ∷ (codes "clear", clear_cmd)
    ∷ []

-- The loop over cmd_table in sdb_mainloop().
unfoldable pub find_cmd : List (List ℕ × Handler) → List ℕ → Option Handler
find_cmd [] cmd = none
find_cmd (row ∷ rows) cmd = if text_eq cmd row.0 then some row.1 else find_cmd rows cmd

module _ (d : Dut) (r : Ref) (regexec : Regexec) (fuel : ℕ) where
  -- `screen` is what was printed.
  pub record Debugger : Type 0 where
    pub machine : Machine d r
    pub pool : Pool
    pub screen : List Print

  abbrev pub say : List Print → Debugger → Debugger
  say lines s = record s { screen = s.screen ++ lines }

  abbrev pub env_of : Debugger → Env
  env_of s = record { cpu = s.machine.cpu; pmem = s.machine.host.pmem }

  -- get_expr_val(args) on a text that may be NULL, which is dereferenced.
  unfoldable pub get_expr_val : Debugger → Option (List ℕ) → Outcome (ℕ × Bool)
  get_expr_val s none = stop undefined
  get_expr_val s (some args) = expr regexec (env_of s) args

  unfoldable pub run_for : ℕ → Debugger → Outcome Debugger
  run_for n s = do m ← cpu_exec d r fuel n s.machine; ok (record s { machine = m })

  unfoldable pub cmd_si : Option (List ℕ) → Debugger → Outcome Debugger
  cmd_si none s = run_for 1 s
  cmd_si (some args) s = do cnt ← arg2val (some args); run_for cnt (say (message ∷ []) s)

  abbrev pub cmd_info : Option (List ℕ) → Debugger → Debugger
  cmd_info none s = say (message ∷ []) s
  cmd_info (some args) s =
      if text_eq args (codes "r")
      then say (registers ∷ []) s
      else if text_eq args (codes "w")
      then say (watchpoints (wp_print s.pool.wp) ∷ []) s
      else s

  -- cmd_x() with [N] and what is left behind it.
  unfoldable pub show_words : Option (List ℕ × List ℕ) → Debugger → Outcome Debugger
  show_words none s = stop undefined
  show_words (some (num_args, rest)) s = do
    num_val ← arg2val (some num_args)
    (expr_val, success) ← get_expr_val s (text_left rest)
    lines ←
        if leb 1 num_val && success
        then get_memory_val s.machine.host.pmem expr_val num_val
        else ok (message ∷ [])
    ok (say lines s)

  unfoldable pub cmd_x : Option (List ℕ) → Debugger → Outcome Debugger
  unfolding show_words
  cmd_x none s = ok (say (message ∷ []) s)
  cmd_x (some args) s = show_words (strtok args) s

  unfoldable pub cmd_p : Option (List ℕ) → Debugger → Outcome Debugger
  cmd_p args s = do
    (value, success) ← get_expr_val s args
    ok (if success then say (shown value ∷ []) s else say (message ∷ []) s)

  unfoldable pub cmd_w : Option (List ℕ) → Debugger → Outcome Debugger
  cmd_w none s = ok (say (message ∷ []) s)
  cmd_w (some args) s = if ltb 100 (length args) then ok (say (message ∷ []) s) else do
    (pool, reply) ← wp_add_watched regexec (env_of s) s.pool args
    ok (say (replied reply ∷ []) (record s { pool = pool }))

  abbrev pub first_arg : Option (List ℕ × List ℕ) → Option (List ℕ)
  first_arg none = none
  first_arg (some (arg, rest)) = some arg

  unfoldable pub cmd_d : Option (List ℕ) → Debugger → Outcome Debugger
  cmd_d none s = ok (say (message ∷ []) s)
  cmd_d (some args) s = do
    num ← arg2val (first_arg (strtok args))
    let (pool, reply) = wp_del_watched s.pool num
    ok (say (replied reply ∷ []) (record s { pool = pool }))

  -- The handlers; the result is true for cmd_q(), which returns -1.
  unfoldable pub handle : Handler → Option (List ℕ) → Debugger → Outcome (Debugger × Bool)
  handle help_cmd args s = ok (say (message ∷ []) s, false)
  handle c_cmd args s = do s' ← run_for (2 ^ 64 - 1) s; ok (s', false)
  handle q_cmd args s = ok (say (message ∷ []) s, true)
  handle si_cmd args s = do s' ← cmd_si args s; ok (s', false)
  handle info_cmd args s = ok (cmd_info args s, false)
  handle x_cmd args s = do s' ← cmd_x args s; ok (s', false)
  handle p_cmd args s = do s' ← cmd_p args s; ok (s', false)
  handle w_cmd args s = do s' ← cmd_w args s; ok (s', false)
  handle d_cmd args s = do s' ← cmd_d args s; ok (s', false)
  handle clear_cmd args s = ok (say (message ∷ []) s, false)

  abbrev pub dispatch : Option Handler → List ℕ → Debugger → Outcome (Debugger × Bool)
  dispatch none rest s = ok (say (message ∷ []) s, false)
  dispatch (some h) rest s = handle h (text_left rest) s

  -- One round of sdb_mainloop() on the line `str`.
  abbrev pub on_token : Option (List ℕ × List ℕ) → Debugger → Outcome (Debugger × Bool)
  on_token none s = ok (s, false)
  on_token (some (cmd, rest)) s = dispatch (find_cmd cmd_table cmd) rest s

  unfoldable pub sdb_line : List ℕ → Debugger → Outcome (Debugger × Bool)
  sdb_line str s = on_token (strtok str) s

  -- The loop of sdb_mainloop() on the lines that are typed; it ends after cmd_q() and at their end.
  unfoldable pub line_loop : List (List ℕ) → Debugger → Outcome Debugger
  line_loop [] s = ok s
  line_loop (str ∷ lines) s = do
    (s', quits) ← sdb_line str s
    if quits then ok s' else line_loop lines s'

  -- sdb_mainloop(), with `is_batch_mode`.
  unfoldable pub sdb_mainloop : Bool → List (List ℕ) → Debugger → Outcome Debugger
  sdb_mainloop is_batch_mode lines s =
      if is_batch_mode then run_for (2 ^ 64 - 1) s else line_loop lines s
