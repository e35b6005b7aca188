-- ===== src/Am/Smp.antt =====
-- abstract-machine/am/src/x86/qemu/mpe.c: the first processor starts the others one by one, and each tells with
-- `ap_ready` that it runs. The processors take steps in any order.
pub mod Handshake
pub mod Arrival
mod Tests
use cpu_linux.Prelude.{ℕ, ◌+◌, ◌≤◌, ◌<◌, ◌≡◌, ◌≢◌, ◌==◌, if◌then◌else◌}

-- Where the first processor is in mpe_init(): before the round for a processor, in the wait of that
-- round, or in the program's entry.
pub data Boot : Type 0 where
  round waiting : ℕ → Boot
  boot_entered : Boot

-- Another processor: not started, in the code before othercpu_entry() and in __am_percpu_init(), after it,
-- after its exchange of `ap_ready`, or in the program's entry.
pub data Other : Type 0 where
  off starting initialised announced entered : Other

pub record Smp : Type 0 where
  pub boot : Boot
  pub others : ℕ → Other
  pub ap_ready : ℕ

abbrev pub set_other : (ℕ → Other) → ℕ → Other → ℕ → Other
set_other others cpu o i = if i == cpu then o else others i

-- The start of mpe_init().
abbrev pub first_round : Smp
first_round = record { boot = round 1; others = λ i. off; ap_ready = 0 }

-- One step of one of the processors, of which there are `ncpu`. The two that read or write `ap_ready` are
-- exchanges: the first processor's puts 0, whatever it finds.
pub data Step (ncpu : ℕ) : Smp → Smp → Type 0 where
  -- __am_lapic_bootap(cpu, boot_record()).
  bootap :
      (s : Smp) (cpu : ℕ)
      → s.boot ≡ round cpu
      → cpu < ncpu
      → Step ncpu s (record s { boot = waiting cpu; others = set_other s.others cpu starting })
  -- The loop's test fails, and call_user_entry() is called.
  user_entry :
      (s : Smp) (cpu : ℕ)
      → s.boot ≡ round cpu
      → ncpu ≤ cpu
      → Step ncpu s (record s { boot = boot_entered })
  -- xchg(&ap_ready, 0) gives 1, or another value.
  found :
      (s : Smp) (cpu : ℕ)
      → s.boot ≡ waiting cpu
      → s.ap_ready ≡ 1
      → Step ncpu s (record s { boot = round (cpu + 1); ap_ready = 0 })
  not_yet :
      (s : Smp) (cpu : ℕ)
      → s.boot ≡ waiting cpu
      → s.ap_ready ≢ 1
      → Step ncpu s (record s { ap_ready = 0 })
  -- __am_percpu_init() of othercpu_entry().
  percpu_init :
      (s : Smp) (cpu : ℕ)
      → s.others cpu ≡ starting
      → Step ncpu s (record s { others = set_other s.others cpu initialised })
  -- xchg(&ap_ready, 1).
  ready :
      (s : Smp) (cpu : ℕ)
      → s.others cpu ≡ initialised
      → Step ncpu s (record s { others = set_other s.others cpu announced; ap_ready = 1 })
  -- call_user_entry() of othercpu_entry().
  other_entry :
      (s : Smp) (cpu : ℕ)
      → s.others cpu ≡ announced
      → Step ncpu s (record s { others = set_other s.others cpu entered })

-- The states that the processors can come to.
pub data Reach (ncpu : ℕ) : Smp → Type 0 where
  here : Reach ncpu first_round
  later : {s t : Smp} → Reach ncpu s → Step ncpu s t → Reach ncpu t

-- The steps from one state to another.
pub data Steps (ncpu : ℕ) : Smp → Smp → Type 0 where
  none_left : (s : Smp) → Steps ncpu s s
  and_then : {s t u : Smp} → Step ncpu s t → Steps ncpu t u → Steps ncpu s u
