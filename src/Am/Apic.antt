-- ===== src/Am/Apic.antt =====
-- The interrupt controllers of abstract-machine/am/src/x86/qemu/ioe.c. Their registers in memory are a parameter.
pub mod Lines
mod Tests
use cpu_linux.Prelude.{
  ℕ, zero, suc, ◌+◌, ◌*◌, ◌/◌, ◌%◌, ◌^◌, leb, ◌==◌, if◌then◌else◌, out_of_fuel, Outcome, ok, stop,
  ◌>>=◌,
}
use cpu_linux.Am.Ports.{Ports}

abbrev pub t_irq0 : ℕ
t_irq0 = 32

abbrev pub reg_ver : ℕ
reg_ver = 0x01

abbrev pub reg_table : ℕ
reg_table = 0x10

abbrev pub int_disabled : ℕ
int_disabled = 0x1_0000

-- struct IOAPIC: writes of `reg`, and reads and writes of `data`.
pub record IoApic : Type 1 where
  pub State : Type 0
  pub set_reg : ℕ → State → State
  pub data_ : State → ℕ × State
  pub set_data : ℕ → State → State

module _ (io : IoApic) where
  unfoldable pub ioapicread : ℕ → io.State → ℕ × io.State
  ioapicread reg s = io.data_ (io.set_reg reg s)

  unfoldable pub ioapicwrite : ℕ → ℕ → io.State → io.State
  ioapicwrite reg v s = io.set_data v (io.set_reg reg s)

  -- The loop of __am_ioapic_init() from line `i` on, with `n` rounds left; the two parts of the value are
  -- disjoint bits.
  unfoldable pub mask_lines : ℕ → ℕ → io.State → io.State
  unfolding ioapicwrite
  mask_lines zero i s = s
  mask_lines (suc n) i s = mask_lines n (i + 1) (
      ioapicwrite (reg_table + 2 * i + 1) 0
        (ioapicwrite (reg_table + 2 * i) (int_disabled + (t_irq0 + i)) s))

  -- __am_ioapic_init().
  unfoldable pub ioapic_init : io.State → io.State
  unfolding ioapicread mask_lines
  ioapic_init s = let (ver, s') = ioapicread reg_ver s in mask_lines (ver / 2 ^ 16 % 256 + 1) 0 s'

  -- __am_ioapic_enable(irq, cpunum).
  unfoldable pub ioapic_enable : ℕ → ℕ → io.State → io.State
  unfolding ioapicwrite
  ioapic_enable irq cpunum s =
      ioapicwrite (reg_table + 2 * irq + 1) (cpunum * 2 ^ 24 % 2 ^ 32)
        (ioapicwrite (reg_table + 2 * irq) (t_irq0 + irq) s)

-- The array that __am_lapic points to, by index.
pub record Lapic : Type 1 where
  pub State : Type 0
  pub read : ℕ → State → ℕ × State
  pub write : ℕ → ℕ → State → State

-- The indices of the registers: ID, VER, TPR, EOI, SVR, ESR, ICRLO, ICRHI, TIMER, PCINT, LINT0, LINT1, ERROR,
-- TICR and TDCR.
abbrev pub lapic_id : ℕ
lapic_id = 0x20 / 4

abbrev pub lapic_ver : ℕ
lapic_ver = 0x30 / 4

abbrev pub lapic_tpr : ℕ
lapic_tpr = 0x80 / 4

abbrev pub lapic_eoi_reg : ℕ
lapic_eoi_reg = 0xb0 / 4

abbrev pub lapic_svr : ℕ
lapic_svr = 0xf0 / 4

abbrev pub lapic_esr : ℕ
lapic_esr = 0x280 / 4

abbrev pub lapic_icrlo : ℕ
lapic_icrlo = 0x300 / 4

abbrev pub lapic_icrhi : ℕ
lapic_icrhi = 0x310 / 4

abbrev pub lapic_timer : ℕ
lapic_timer = 0x320 / 4

abbrev pub lapic_pcint : ℕ
lapic_pcint = 0x340 / 4

abbrev pub lapic_lint0 : ℕ
lapic_lint0 = 0x350 / 4

abbrev pub lapic_lint1 : ℕ
lapic_lint1 = 0x360 / 4

abbrev pub lapic_error : ℕ
lapic_error = 0x370 / 4

abbrev pub lapic_ticr : ℕ
lapic_ticr = 0x380 / 4

abbrev pub lapic_tdcr : ℕ
lapic_tdcr = 0x3e0 / 4

module _ (la : Lapic) where
  -- lapicw().
  unfoldable pub lapicw : ℕ → ℕ → la.State → la.State
  lapicw index value s = (la.read lapic_id (la.write index value s)).1

  -- The wait for the delivery, with fuel: bit 12.
  unfoldable pub wait_delivery : ℕ → la.State → Outcome la.State
  wait_delivery zero s = stop out_of_fuel
  wait_delivery (suc fuel) s =
      let (icr, s') = la.read lapic_icrlo s in
      let rest = wait_delivery fuel s' in if icr / 2 ^ 12 % 2 == 1 then rest else ok s'

  -- __am_percpu_initlapic(), with IRQ_SPURIOUS = 31, IRQ_TIMER = 0 and IRQ_ERROR = 19; or-ed values are
  -- disjoint bits.
  unfoldable pub percpu_initlapic : ℕ → la.State → Outcome la.State
  unfolding lapicw wait_delivery
  percpu_initlapic fuel s =
      let s₁ = lapicw lapic_svr (0x100 + (t_irq0 + 31)) s in
      let s₂ = lapicw lapic_tdcr 0xb s₁ in
      let s₃ = lapicw lapic_timer (0x2_0000 + (t_irq0 + 0)) s₂ in
      let s₄ = lapicw lapic_ticr 10_000_000 s₃ in
      let s₅ = lapicw lapic_lint0 0x1_0000 s₄ in
      let s₆ = lapicw lapic_lint1 0x1_0000 s₅ in
      let (ver, s₇) = la.read lapic_ver s₆ in
      let s₈ = if leb 4 (ver / 2 ^ 16 % 256) then lapicw lapic_pcint 0x1_0000 s₇ else s₇ in
      let s₉ = lapicw lapic_error (t_irq0 + 19) s₈ in
      let s₁₀ = lapicw lapic_esr 0 (lapicw lapic_esr 0 s₉) in
      let s₁₁ = lapicw lapic_icrhi 0 (lapicw lapic_eoi_reg 0 s₁₀) in
      let s₁₂ = lapicw lapic_icrlo (0x8_0000 + 0x500 + 0x8000) s₁₁ in
      wait_delivery fuel s₁₂ >>= λ t. ok (lapicw lapic_tpr 0 t)

  -- The words that __am_lapic_bootap(apicid, addr) writes to the memory at 0x467, the ports, and the messages.
  unfoldable pub bootap :
      (io : Ports) → ℕ → ℕ → io.State × la.State → (ℕ × ℕ) × (io.State × la.State)
  unfolding lapicw
  bootap io apicid addr (p, s) =
      let p' = io.outb 0x71 0x0a (io.outb 0x70 0xf p) in
      let s₁ = lapicw lapic_icrhi (apicid * 2 ^ 24 % 2 ^ 32) s in
      let s₂ = lapicw lapic_icrlo (0x500 + 0x8000 + 0x4000) s₁ in
      let s₃ = lapicw lapic_icrlo (0x500 + 0x8000) s₂ in
      let s₄ = lapicw lapic_icrhi (apicid * 2 ^ 24 % 2 ^ 32) s₃ in
      let s₅ = lapicw lapic_icrlo (0x600 + addr / 2 ^ 12) s₄ in
      let s₆ = lapicw lapic_icrhi (apicid * 2 ^ 24 % 2 ^ 32) s₅ in
      let s₇ = lapicw lapic_icrlo (0x600 + addr / 2 ^ 12) s₆ in
      ((0, addr / 2 ^ 4 % 2 ^ 16), (p', s₇))

  -- cpu_current() of mpe.c.
  unfoldable pub cpu_current : la.State → ℕ × la.State
  cpu_current s = let (id, s') = la.read 8 s in (id / 2 ^ 24, s')

  -- The loop of __am_stop_the_world() of mpe.c from `cpu` on, with `n` rounds left: every processor but this one
  -- starts again at boot_record(), where the code is an endless loop.
  unfoldable pub stop_others : (io : Ports) → ℕ → ℕ → io.State × la.State → io.State × la.State
  unfolding bootap cpu_current
  stop_others io zero cpu (p, s) = (p, s)
  stop_others io (suc n) cpu (p, s) =
      let (this, s') = cpu_current s in
      stop_others io n (cpu + 1) (if cpu == this then (p, s') else (bootap io cpu 0x7000 (p, s')).1)
