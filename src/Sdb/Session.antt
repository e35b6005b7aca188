-- ===== src/Sdb/Session.antt =====
-- What every session with the debugger keeps, and where it ends.
use cpu_linux.Prelude.{
  ℕ, ◌-◌, ◌^◌, ◌≡◌, refl, sym, ap, subst, ◌∙◌, ◌≢◌, Bool, true, false, Option, none, some, List, [],
  ◌∷◌, ◌++◌, arith, ltb, if◌then◌else◌, length, codes, text_eq, Outcome, ok, ◌>>=◌, >>=-eq-ok,
  Bool-cases, inl, inr,
}
use mathlib.Core.Path.{fun_ext}
use cpu_linux.SimState.{running}
use cpu_linux.Difftest.{Ref}
use cpu_linux.Expr.Lexer.{Regexec}
use cpu_linux.Watchpoint.{wp_print, wp_add_watched, wp_del_watched}
use cpu_linux.Watchpoint.Inv.{IsValid, wp_add_watched-IsValid, wp_del_watched-IsValid}
use cpu_linux.Exec.{Dut, cpu_exec}
use cpu_linux.Exec.Steps.{cpu_exec-ne-running}
use cpu_linux.Sdb.{
  Print, message, replied, shown, registers, watchpoints, Handler, help_cmd, c_cmd, q_cmd, si_cmd,
  info_cmd, x_cmd, p_cmd, w_cmd, d_cmd, clear_cmd, Debugger, arg2val, strtok, skip_spaces,
  up_to_space, find_cmd, cmd_table, get_expr_val, run_for, cmd_si, cmd_info, show_words, cmd_x,
  cmd_p, cmd_w, cmd_d, first_arg, env_of, say, text_left, handle, dispatch, on_token, sdb_line,
  line_loop, sdb_mainloop,
}

module _ (d : Dut) (r : Ref) (regexec : Regexec) (fuel : ℕ) where
  -- The watchpoints are valid, and the processor is not running between commands.
  pub record IsSound (s : Debugger d r regexec fuel) : Type 0 where
    pub pool_ok : IsValid s.pool
    pub at_rest : s.machine.host.sim_state.state ≢ running

  run_for-IsSound :
      (n : ℕ) (s s' : Debugger d r regexec fuel)
      → IsSound s
      → run_for d r regexec fuel n s ≡ ok s'
      → IsSound s'
  unfolding run_for
  run_for-IsSound n s s' h e =
      let (m, c, k) = >>=-eq-ok (cpu_exec d r fuel n s.machine) _ e in
      let same : record s { machine = m } ≡ s' = ground arith in
      subst IsSound same
        (record { pool_ok = h.pool_ok; at_rest = cpu_exec-ne-running d r fuel n s.machine m c })

  -- Commands that change neither the watchpoints nor the processor.
  say-IsSound :
      (s s' : Debugger d r regexec fuel) (lines : List Print)
      → IsSound s
      → say d r regexec fuel lines s ≡ s'
      → IsSound s'
  say-IsSound s s' lines h e = subst IsSound e (record { pool_ok = h.pool_ok; at_rest = h.at_rest })

  cmd_w-IsSound :
      (args : Option (List ℕ)) (s s' : Debugger d r regexec fuel)
      → IsSound s
      → cmd_w d r regexec fuel args s ≡ ok s'
      → IsSound s'
  unfolding cmd_w
  cmd_w-IsSound none s s' h e = say-IsSound s s' (message ∷ []) h (ground arith)
  cmd_w-IsSound (some args) s s' h e = elim (Bool-cases (ltb 100 (length args))) [
    | inl too_long ↦ say-IsSound s s' (message ∷ []) h (ground arith)
    | inr fits ↦ added_lem args s s' h (ground arith)
  ]
    where
      added_lem :
          (args : List ℕ) (s s' : Debugger d r regexec fuel)
          → IsSound s
          → (wp_add_watched regexec (env_of d r regexec fuel s) s.pool args >>= λ x.
              ok (say d r regexec fuel (replied x.1 ∷ []) (record s { pool = x.0 })))
            ≡ ok s'
          → IsSound s'
      added_lem args s s' h e =
          let (x, c, k) =
            >>=-eq-ok (wp_add_watched regexec (env_of d r regexec fuel s) s.pool args) _ e in
          let same : say d r regexec fuel (replied x.1 ∷ []) (record s { pool = x.0 }) ≡ s' =
            ground arith in
          subst IsSound same (record {
            pool_ok =
                wp_add_watched-IsValid regexec (env_of d r regexec fuel s) s.pool x.0 args x.1
                  h.pool_ok c;
            at_rest = h.at_rest;
          })

  cmd_d-IsSound :
      (args : Option (List ℕ)) (s s' : Debugger d r regexec fuel)
      → IsSound s
      → cmd_d d r regexec fuel args s ≡ ok s'
      → IsSound s'
  unfolding cmd_d
  cmd_d-IsSound none s s' h e = say-IsSound s s' (message ∷ []) h (ground arith)
  cmd_d-IsSound (some args) s s' h e =
      let (num, c, k) = >>=-eq-ok (arg2val (first_arg d r regexec fuel (strtok args))) _ e in
      let x = wp_del_watched s.pool num in
      let same : say d r regexec fuel (replied x.1 ∷ []) (record s { pool = x.0 }) ≡ s' =
        ground arith in
      subst IsSound same
        (record { pool_ok = wp_del_watched-IsValid s.pool num h.pool_ok; at_rest = h.at_rest })

  cmd_si-IsSound :
      (args : Option (List ℕ)) (s s' : Debugger d r regexec fuel)
      → IsSound s
      → cmd_si d r regexec fuel args s ≡ ok s'
      → IsSound s'
  unfolding cmd_si
  cmd_si-IsSound none s s' h e = run_for-IsSound 1 s s' h e
  cmd_si-IsSound (some args) s s' h e =
      let (cnt, c, k) = >>=-eq-ok (arg2val (some args)) _ e in
      run_for-IsSound cnt (say d r regexec fuel (message ∷ []) s) s'
        (say-IsSound s (say d r regexec fuel (message ∷ []) s) (message ∷ []) h refl) k

  show_words-IsSound :
      (t : Option (List ℕ × List ℕ)) (s s' : Debugger d r regexec fuel)
      → IsSound s
      → show_words d r regexec fuel t s ≡ ok s'
      → IsSound s'
  unfolding show_words
  show_words-IsSound none s s' h e = absurd (ground arith)
  show_words-IsSound (some (num_args, rest)) s s' h e =
      let (num_val, c, k) = >>=-eq-ok (arg2val (some num_args)) _ e in
      let (v, c', k') = >>=-eq-ok (get_expr_val d r regexec fuel s (text_left rest)) _ k in
      let (lines, c'', k'') = >>=-eq-ok _ (λ x. ok (say d r regexec fuel x s)) k' in
      say-IsSound s s' lines h (ground arith)

  cmd_x-IsSound :
      (args : Option (List ℕ)) (s s' : Debugger d r regexec fuel)
      → IsSound s
      → cmd_x d r regexec fuel args s ≡ ok s'
      → IsSound s'
  unfolding cmd_x
  cmd_x-IsSound none s s' h e = say-IsSound s s' (message ∷ []) h (ground arith)
  cmd_x-IsSound (some args) s s' h e = show_words-IsSound (strtok args) s s' h e

  cmd_p-IsSound :
      (args : Option (List ℕ)) (s s' : Debugger d r regexec fuel)
      → IsSound s
      → cmd_p d r regexec fuel args s ≡ ok s'
      → IsSound s'
  unfolding cmd_p
  cmd_p-IsSound args s s' h e =
      let (v, c, k) = >>=-eq-ok (get_expr_val d r regexec fuel s args) _ e in
      elim (Bool-cases v.1) [
        | inl good ↦ say-IsSound s s' (shown v.0 ∷ []) h (ground arith)
        | inr bad ↦ say-IsSound s s' (message ∷ []) h (ground arith)
      ]

  cmd_info-IsSound :
      (args : Option (List ℕ)) (s : Debugger d r regexec fuel)
      → IsSound s
      → IsSound (cmd_info d r regexec fuel args s)
  cmd_info-IsSound none s h = say-IsSound s _ (message ∷ []) h refl
  cmd_info-IsSound (some args) s h = elim (Bool-cases (text_eq args (codes "r"))) [
    | inl regs ↦ say-IsSound s _ (registers ∷ []) h (rw regs refl)
    | inr other ↦ elim (Bool-cases (text_eq args (codes "w"))) [
      | inl wps ↦ say-IsSound s _ (watchpoints (wp_print s.pool.wp) ∷ []) h (rw (other, wps) refl)
      | inr none_of_both ↦ rw (other, none_of_both) h
    ]
  ]

  abbrev goes_on : Debugger d r regexec fuel → Outcome (Debugger d r regexec fuel × Bool)
  goes_on s = ok (s, false)

  finish-IsSound :
      (m : Outcome (Debugger d r regexec fuel)) (s' : Debugger d r regexec fuel) (b : Bool)
      → ((s : Debugger d r regexec fuel) → m ≡ ok s → IsSound s)
      → (m >>= goes_on) ≡ ok (s', b)
      → IsSound s'
  finish-IsSound m s' b h e =
      let (x, c, k) = >>=-eq-ok m _ e in
      let same : x ≡ s' = ground arith in subst IsSound same (h x c)

  handle-IsSound :
      (c : Handler) (args : Option (List ℕ)) (s s' : Debugger d r regexec fuel) (b : Bool)
      → IsSound s
      → handle d r regexec fuel c args s ≡ ok (s', b)
      → IsSound s'
  unfolding handle
  handle-IsSound help_cmd args s s' b h e = say-IsSound s s' (message ∷ []) h (ground arith)
  handle-IsSound c_cmd args s s' b h e =
      finish-IsSound _ s' b (λ x k. run_for-IsSound (2 ^ 64 - 1) s x h k) e
  handle-IsSound q_cmd args s s' b h e = say-IsSound s s' (message ∷ []) h (ground arith)
  handle-IsSound si_cmd args s s' b h e =
      finish-IsSound _ s' b (λ x k. cmd_si-IsSound args s x h k) e
  handle-IsSound info_cmd args s s' b h e = subst IsSound (ground arith) (cmd_info-IsSound args s h)
  handle-IsSound x_cmd args s s' b h e = finish-IsSound _ s' b (λ x k. cmd_x-IsSound args s x h k) e
  handle-IsSound p_cmd args s s' b h e = finish-IsSound _ s' b (λ x k. cmd_p-IsSound args s x h k) e
  handle-IsSound w_cmd args s s' b h e = finish-IsSound _ s' b (λ x k. cmd_w-IsSound args s x h k) e
  handle-IsSound d_cmd args s s' b h e = finish-IsSound _ s' b (λ x k. cmd_d-IsSound args s x h k) e
  handle-IsSound clear_cmd args s s' b h e = say-IsSound s s' (message ∷ []) h (ground arith)

  dispatch-IsSound :
      (c : Option Handler) (rest : List ℕ) (s s' : Debugger d r regexec fuel) (b : Bool)
      → IsSound s
      → dispatch d r regexec fuel c rest s ≡ ok (s', b)
      → IsSound s'
  dispatch-IsSound none rest s s' b h e = say-IsSound s s' (message ∷ []) h (ground arith)
  dispatch-IsSound (some c) rest s s' b h e = handle-IsSound c (text_left rest) s s' b h e

  on_token-IsSound :
      (t : Option (List ℕ × List ℕ)) (s s' : Debugger d r regexec fuel) (b : Bool)
      → IsSound s
      → on_token d r regexec fuel t s ≡ ok (s', b)
      → IsSound s'
  on_token-IsSound none s s' b h e = subst IsSound (ground arith) h
  on_token-IsSound (some (cmd, rest)) s s' b h e =
      dispatch-IsSound (find_cmd cmd_table cmd) rest s s' b h e

  line_loop-IsSound :
      (lines : List (List ℕ)) (s s' : Debugger d r regexec fuel)
      → IsSound s
      → line_loop d r regexec fuel lines s ≡ ok s'
      → IsSound s'
  unfolding line_loop sdb_line
  line_loop-IsSound [] s s' h e = subst IsSound (ground arith) h
  line_loop-IsSound (str ∷ lines) s s' h e =
      let (x, c, k) = >>=-eq-ok (sdb_line d r regexec fuel str s) _ e in
      let sound = on_token-IsSound (strtok str) s x.0 x.1 h c in
      elim (Bool-cases x.1) [
        | inl quits ↦ subst IsSound (ground arith) sound
        | inr goes ↦ line_loop-IsSound lines x.0 s' sound (ground arith)
      ]

  -- A session that returns, in batch mode or on any lines, leaves the watchpoints valid and
  -- the processor not running, if they were so at first.
  pub sdb_mainloop-IsSound :
      (is_batch_mode : Bool) (lines : List (List ℕ)) (s s' : Debugger d r regexec fuel)
      → IsSound s
      → sdb_mainloop d r regexec fuel is_batch_mode lines s ≡ ok s'
      → IsSound s'
  unfolding sdb_mainloop
  sdb_mainloop-IsSound true lines s s' h e = run_for-IsSound (2 ^ 64 - 1) s s' h e
  sdb_mainloop-IsSound false lines s s' h e = line_loop-IsSound lines s s' h e

  loop_step :
      (str : List ℕ) (lines : List (List ℕ)) (s : Debugger d r regexec fuel)
      → line_loop d r regexec fuel (str ∷ lines) s ≡ (
          sdb_line d r regexec fuel str s >>= λ x.
          if x.1 then ok x.0 else line_loop d r regexec fuel lines x.0)
  unfolding line_loop
  loop_step str lines s = refl

  q_ends :
      (lines : List (List ℕ)) (s : Debugger d r regexec fuel)
      → line_loop d r regexec fuel (codes "q" ∷ lines) s
        ≡ ok (say d r regexec fuel (message ∷ []) s)
  unfolding line_loop sdb_line handle skip_spaces up_to_space find_cmd
  q_ends lines s = refl

  -- A session does nothing with the lines behind a command q.
  pub line_loop_q :
      (before after : List (List ℕ)) (s : Debugger d r regexec fuel)
      → line_loop d r regexec fuel (before ++ codes "q" ∷ after) s
        ≡ line_loop d r regexec fuel (before ++ codes "q" ∷ []) s
  line_loop_q [] after s = q_ends after s ∙ sym (q_ends [] s)
  line_loop_q (str ∷ before) after s =
      loop_step str (before ++ codes "q" ∷ after) s
      ∙ ap (◌>>=◌ (sdb_line d r regexec fuel str s))
          (fun_ext λ x. ap (λ t. if x.1 then ok x.0 else t) (line_loop_q before after x.0))
      ∙ sym (loop_step str (before ++ codes "q" ∷ []) s)
