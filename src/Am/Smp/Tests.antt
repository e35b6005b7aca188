-- ===== src/Am/Smp/Tests.antt =====
-- The start of two processors.
use cpu_linux.Prelude.{ℕ, ◌≤◌, ◌<◌, ◌≡◌, refl, arith, true}
use cpu_linux.Am.Smp.{
  round, waiting, boot_entered, starting, initialised, announced, entered, Smp, set_other,
  first_round, bootap, user_entry, found, percpu_init, ready, Reach, here, later, Steps,
}
use cpu_linux.Am.Smp.Handshake.{started_one_at_a_time, has_announced, all_announced}
use cpu_linux.Am.Smp.Arrival.{start_completes}

abbrev second_started : Smp
second_started = record first_round {
  boot = waiting 1;
  others = set_other first_round.others 1 starting;
}

second_started_reached : Reach 2 second_started
second_started_reached = later here (bootap first_round 1 refl (omega arith))

started_one_at_a_time_example : (second_started.boot ≡ waiting 1) × (◌≡◌ {A = ℕ} 1 1)
started_one_at_a_time_example = started_one_at_a_time second_started_reached 1 1 refl refl

start_completes_example :
    (t : Smp) × Steps 2 second_started t
    × (t.boot ≡ boot_entered)
    × ((i : ℕ) → 1 ≤ i → i < 2 → t.others i ≡ entered)
start_completes_example = start_completes second_started_reached

-- The second processor is ready before the first one looks.
abbrev second_ready : Smp
second_ready = record {
  boot = waiting 1;
  others = set_other (set_other second_started.others 1 initialised) 1 announced;
  ap_ready = 1;
}

second_ready_reached : Reach 2 second_ready
second_ready_reached = later (later second_started_reached (percpu_init second_started 1 refl)) (
    ready (record second_started { others = set_other second_started.others 1 initialised }) 1 refl)

-- The first processor enters the program before the second one does.
abbrev boot_first : Smp
boot_first = record second_ready { boot = boot_entered; ap_ready = 0 }

boot_first_reached : Reach 2 boot_first
boot_first_reached =
    later (later second_ready_reached (found second_ready 1 refl refl))
      (user_entry (record second_ready { boot = round 2; ap_ready = 0 }) 2 refl (omega arith))

all_announced_example : has_announced (boot_first.others 1) ≡ true
all_announced_example = all_announced boot_first_reached refl 1 (omega arith) (omega arith)

boot_first_lem : boot_first.others 1 ≡ announced
boot_first_lem = refl
