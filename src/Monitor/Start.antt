-- ===== src/Monitor/Start.antt =====
-- The session that a started simulator is in, and what main() leaves.
use cpu_linux.Prelude.{
  ◌>>◌, >>=-eq-ok, ℕ, zero, suc, ◌≡◌, ◌≢◌, ap, subst, Bool, true, false, List, arith, assertion, ok,
  guard, Stop, ◌==◌,
}
use cpu_linux.SimState.{running}
use cpu_linux.Difftest.{Ref}
use cpu_linux.Dpi.{Host}
use cpu_linux.Exec.{Dut, Machine, npc_single_cycle, cycles, npc_reset, npc_init}
use cpu_linux.Expr.Lexer.{Regexec}
use cpu_linux.Watchpoint.Inv.{wp_init-IsValid}
use cpu_linux.Sdb.{Debugger}
use cpu_linux.Sdb.Session.{IsSound, sdb_mainloop-IsSound}
use cpu_linux.Monitor.{
  Os, Opt, no_args, parse_args, load_mem, RefLib, first_machine, given, open_difftest, init_monitor,
  main,
}

guarded :
    {A : Type 0} (b : Bool) (why : Stop) (x : A) {y : A} → (guard b why >> ok x) ≡ ok y → x ≡ y
guarded false why x e = cc
guarded true why x e = ground arith

module _ (d : Dut) (r : Ref) (fuel : ℕ) where
  abbrev Rests : Machine d r → Type 0
  Rests m = m.host.sim_state.state ≢ running

  -- The processor's calls do not start the run: those of dpi.c end it, or leave its state alone.
  abbrev pub Calm : Type 0
  Calm =
      (clk : Bool) (s s' : d.State) (h h' : Host)
      → h.sim_state.state ≢ running
      → d.eval clk s h ≡ ok (s', h')
      → h'.sim_state.state ≢ running

  module _ (calm : Calm) where
    npc_single_cycle-Rests :
        (m m' : Machine d r) → Rests m → npc_single_cycle d r m ≡ ok m' → Rests m'
    unfolding npc_single_cycle
    npc_single_cycle-Rests m m' h e =
        let ((s₁, h₁), c₁, k₁) = >>=-eq-ok (d.eval false m.dut m.host) _ e in
        let ((s₂, h₂), c₂, k₂) = >>=-eq-ok (d.eval true s₁ h₁) _ k₁ in
        let rests = calm true s₁ s₂ h₁ h₂ (calm false m.dut s₁ m.host h₁ h c₁) c₂ in
        ground (arith, rests, k₂)

    cycles-Rests : (n : ℕ) (m m' : Machine d r) → Rests m → cycles d r n m ≡ ok m' → Rests m'
    unfolding cycles
    cycles-Rests zero m m' h e = ground arith
    cycles-Rests (suc n) m m' h e =
        let (m₁, c, k) = >>=-eq-ok (npc_single_cycle d r m) _ e in
        cycles-Rests n m₁ m' (npc_single_cycle-Rests m m₁ h c) k

    npc_init-Rests : (m m' : Machine d r) → Rests m → npc_init d r m ≡ ok m' → Rests m'
    unfolding npc_init npc_reset
    npc_init-Rests m m' h e =
        let (m₁, c, k) = >>=-eq-ok (npc_reset d r 3 m) _ e in
        let (m₂, c', k') = >>=-eq-ok (cycles d r 3 (record m { dut = d.set_rst true m.dut })) _ c in
        let rests = cycles-Rests 3 (record m { dut = d.set_rst true m.dut }) m₂ h c' in
        let same : m₁ ≡ m' = guarded (m₁.cpu.pc == 0x8000_0000) assertion m₁ k in
        let host : m₂.host ≡ m₁.host = ground arith in
        subst Rests same (subst (λ (t : Host). t.sim_state.state ≢ running) host rests)

    module _ (regexec : Regexec) (os : Os) (lib : RefLib d r) (opts : List Opt) (dut : d.State)
        (ref : r.State) where
      -- A simulator that has started is in a session with valid watchpoints, and is not running.
      init_monitor-IsSound :
          (b : Bool) (s : Debugger d r regexec fuel)
          → init_monitor d r regexec fuel os lib opts dut ref ≡ ok (b, s)
          → IsSound d r regexec fuel s
      unfolding init_monitor open_difftest
      init_monitor-IsSound b s e =
          let (a, c₁, k₁) = >>=-eq-ok (parse_args os opts no_args) _ e in
          let ((pmem, img_size), c₂, k₂) = >>=-eq-ok (load_mem os a) _ k₁ in
          let (m, c₃, k₃) = >>=-eq-ok (npc_init d r (first_machine d r dut ref pmem)) _ k₂ in
          let (m', c₄, k₄) =
            >>=-eq-ok (open_difftest d r os lib a.diff_so_file img_size a.difftest_port m) _ k₃ in
          let rests = npc_init-Rests (first_machine d r dut ref pmem) m (λ q. cc) c₃ in
          let same =
            ap (λ (t : Machine d r). t.host)
              (guarded (given d r a.diff_so_file os.can_load) assertion _ c₄) in
          let last =
            ap (λ (t : Bool × Debugger d r regexec fuel). t.1)
              (guarded os.can_compile assertion _ k₄) in
          subst (IsSound d r regexec fuel) last (record {
            pool_ok = wp_init-IsValid;
            at_rest = subst (λ (t : Host). t.sim_state.state ≢ running) same rests;
          })

      -- main() that returns, in batch mode or not, leaves the watchpoints valid and the processor not
      -- running, if the processor's calls do not start the run.
      pub main-IsSound :
          (lines : List (List ℕ)) (s : Debugger d r regexec fuel)
          → main d r regexec fuel os lib opts dut ref lines ≡ ok s
          → IsSound d r regexec fuel s
      unfolding main
      main-IsSound lines s e =
          let ((b, s₁), c, k) = >>=-eq-ok (init_monitor d r regexec fuel os lib opts dut ref) _ e in
          sdb_mainloop-IsSound d r regexec fuel b lines s₁ s (init_monitor-IsSound b s₁ c) k
