-- ===== src/Exec/Steps.antt =====
-- How runs of the processor compose, and what state they leave.
use cpu_linux.Prelude.{
  ℕ, zero, suc, ◌+◌, ◌≡◌, refl, sym, ap, ◌≢◌, ◌⊎◌, inl, inr, Bool, true, false, arith, Outcome, ok,
  stop, ◌>>=◌, >>=-eq-ok,
}
use mathlib.Core.Path.{fun_ext}
use native.Mathlib.Nat.{zero-add, suc-add}
use cpu_linux.SimState.{RunState, running, stopped, ended, aborted}
use cpu_linux.Difftest.{Ref}
use cpu_linux.Exec.{
  Dut, Machine, npc_single_cycle, cycles, wait_commit, commit_one, execute, set_run_state, settle,
  cpu_exec,
}

abbrev pub state_of : (d : Dut) (r : Ref) → Machine d r → RunState
state_of d r m = m.host.sim_state.state

module _ (d : Dut) (r : Ref) (fuel : ℕ) where
  execute-stays : (n : ℕ) (m : Machine d r) → state_of d r m ≢ running → execute d r fuel n m ≡ ok m
  unfolding execute
  execute-stays zero m h = refl
  execute-stays (suc n) m h = ground arith

  execute-goes :
      (n : ℕ) (m : Machine d r)
      → state_of d r m ≡ running
      → execute d r fuel (suc n) m ≡ (commit_one d r fuel m >>= execute d r fuel n)
  unfolding execute
  execute-goes n m h = rw h

  State-cases : (s : RunState) → (s ≡ running) ⊎ (s ≢ running)
  State-cases running = inl refl
  State-cases _ = inr (λ e. cc)

  >>=_assoc :
      {A B C : Type 0} (m : Outcome A) (f : A → Outcome B) (g : B → Outcome C)
      → (m >>= f >>= g) ≡ (m >>= λ a. f a >>= g)
  >>=_assoc (ok a) f g = refl
  >>=_assoc (stop s) f g = refl

  -- Executing a + b instructions is executing a, and then b from the machine that this leaves, also
  -- where the first part stops.
  pub execute-add :
      (a b : ℕ) (m : Machine d r)
      → execute d r fuel (a + b) m ≡ (execute d r fuel a m >>= execute d r fuel b)
  execute-add zero b m = rw (zero-add b) (unfold execute in refl)
  execute-add (suc a) b m = elim (State-cases (state_of d r m)) [
    | inl runs ↦
        rw (suc-add a b, execute-goes (a + b) m runs, execute-goes a m runs, >>=_assoc)
          (ap (◌>>=◌ (commit_one d r fuel m)) (fun_ext (execute-add a b)))
    | inr stays ↦
        rw (execute-stays (suc a + b) m stays, execute-stays (suc a) m stays)
          (sym (execute-stays b m stays))
  ]

  settle-ne-running : (m : Machine d r) → state_of d r (settle d r (state_of d r m) m) ≢ running
  settle-ne-running m = ground arith

  -- After a cpu_exec() that returns, the run is not in the state `running`.
  pub cpu_exec-ne-running :
      (n : ℕ) (m m' : Machine d r) → cpu_exec d r fuel n m ≡ ok m' → state_of d r m' ≢ running
  unfolding cpu_exec
  cpu_exec-ne-running n m m' h = ground (arith, settle-ne-running m')

  -- Once the run has ended or was aborted, cpu_exec() changes nothing.
  pub cpu_exec_ended :
      (n : ℕ) (m : Machine d r)
      → (state_of d r m ≡ ended) ⊎ (state_of d r m ≡ aborted)
      → cpu_exec d r fuel n m ≡ ok m
  unfolding cpu_exec
  cpu_exec_ended n m (inl h) = rw h
  cpu_exec_ended n m (inr h) = rw h

  stopped_again :
      (m : Machine d r)
      → state_of d r m ≡ running
      → set_run_state d r running (set_run_state d r stopped m) ≡ m
  stopped_again m h = ground arith

  cpu_exec-stopped :
      (n : ℕ) (m : Machine d r)
      → state_of d r m ≡ stopped
      → cpu_exec d r fuel n m ≡ (
          execute d r fuel n (set_run_state d r running m) >>= λ m'.
          ok (settle d r (state_of d r m') m'))
  unfolding cpu_exec
  cpu_exec-stopped n m h = rw h

  settle_ended : (m : Machine d r) → state_of d r m ≡ ended → settle d r (state_of d r m) m ≡ m
  settle_ended m h = ap (λ s. settle d r s m) h

  -- From a stopped run, cpu_exec(a) and then cpu_exec(b) do what cpu_exec(a + b) does, where the
  -- first a instructions either leave the run going or end it.
  pub cpu_exec-add :
      (a b : ℕ) (m m' : Machine d r)
      → state_of d r m ≡ stopped
      → execute d r fuel a (set_run_state d r running m) ≡ ok m'
      → (state_of d r m' ≡ running) ⊎ (state_of d r m' ≡ ended)
      → cpu_exec d r fuel (a + b) m ≡ (cpu_exec d r fuel a m >>= cpu_exec d r fuel b)
  cpu_exec-add a b m m' h x (inl y) = rw (
    cpu_exec-stopped (a + b) m h,
    execute-add a b,
    cpu_exec-stopped a m h,
    x,
    y,
    cpu_exec-stopped b (set_run_state d r stopped m') refl,
    stopped_again m' y,
  )
  cpu_exec-add a b m m' h x (inr y) = rw (
    cpu_exec-stopped (a + b) m h,
    execute-add a b,
    cpu_exec-stopped a m h,
    x,
    execute-stays b m' (λ e. ground arith),
    settle_ended m' y,
    cpu_exec_ended b m' (inl y),
  )

module _ (d : Dut) (r : Ref) where
  wait_now : (f : ℕ) (m : Machine d r) → d.commit m.dut ≡ true → wait_commit d r (suc f) m ≡ ok m
  unfolding wait_commit
  wait_now f m h = rw (h, wait_commit)

  wait_more :
      (f : ℕ) (m : Machine d r)
      → d.commit m.dut ≡ false
      → wait_commit d r (suc f) m ≡ (npc_single_cycle d r m >>= wait_commit d r f)
  unfolding wait_commit
  wait_more f m h = rw (h, wait_commit)

  wait_cases :
      (k : ℕ) (m m' : Machine d r)
      → cycles d r k m ≡ ok m'
      → d.commit m'.dut ≡ true
      → (b : Bool) → d.commit m.dut ≡ b
      → (q : Machine d r) × (wait_commit d r (suc k) m ≡ ok q) × (d.commit q.dut ≡ true)
  unfolding cycles
  wait_cases k m m' h c true e = (m, wait_now k m e, e)
  wait_cases zero m m' h c false e = absurd (ground arith)
  wait_cases (suc k) m m' h c false e =
      let (x, hx, h') = >>=-eq-ok (npc_single_cycle d r m) _ h in
      let (q, hq, cq) = wait_cases k x m' h' c (d.commit x.dut) refl in
      (q, rw (wait_more (suc k) m e, hx) hq, cq)

  -- If k cycles go through and the processor then commits, the wait for a commit ends within fuel
  -- k + 1, at a commit.
  pub wait_commit_lem :
      (k : ℕ) (m m' : Machine d r)
      → cycles d r k m ≡ ok m'
      → d.commit m'.dut ≡ true
      → (q : Machine d r) × (wait_commit d r (suc k) m ≡ ok q) × (d.commit q.dut ≡ true)
  wait_commit_lem k m m' h c = wait_cases k m m' h c (d.commit m.dut) refl
