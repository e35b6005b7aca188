-- ===== src/Am/Ports.antt =====
-- The instructions of abstract-machine/am/src/x86/x86.h that reach a device through a port, and the one that reads
-- the processor's time stamp. They are assembly, and a parameter: each takes the state of the devices, and
-- gives the next one.
use cpu_linux.Prelude.{ℕ}

pub record Ports : Type 1 where
  pub State : Type 0
  pub inb : ℕ → State → ℕ × State
  pub inl : ℕ → State → ℕ × State
  pub outb : ℕ → ℕ → State → State
  pub outl : ℕ → ℕ → State → State
  pub rdtsc : State → ℕ × State
