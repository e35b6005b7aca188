-- ===== src/SimState.antt =====
-- simulator/src/sim/npc_state.c: the state of a run.
use cpu_linux.Prelude.{ℕ, Bool, true, false, not, ◌==◌}

-- The enum of common.h.
pub data RunState : Type 0 where
  running stopped ended aborted quit : RunState

-- SIMState.
pub record SimState : Type 0 where
  pub state : RunState
  pub halt_pc : ℕ
  pub halt_ret : ℕ

unfoldable pub is_good : RunState → ℕ → Bool
is_good ended ret = ret == 0
is_good quit ret = true
is_good _ ret = false

-- is_exit_status_bad().
unfoldable pub is_exit_status_bad : SimState → Bool
unfolding is_good
is_exit_status_bad s = not (is_good s.state s.halt_ret)

-- set_sim_state(), and SIMTRAP(thispc, code).
unfoldable pub set_sim_state : RunState → ℕ → ℕ → SimState
set_sim_state state pc halt_ret = record { state = state; halt_pc = pc; halt_ret = halt_ret }

abbrev pub sim_trap : ℕ → ℕ → SimState
sim_trap pc code = set_sim_state ended pc code
