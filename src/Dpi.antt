-- ===== src/Dpi.antt =====
-- simulator/src/sim/dpi.c: the calls that the hardware model makes into the simulator, and the part
-- of the simulator's state that they touch; with the clock of utils/timer.c.
mod Routes
mod Tests
use cpu_linux.Prelude.{
  ℕ, ◌+◌, ◌-◌, ◌%◌, ◌^◌, Bool, ◌&&◌, List, ◌∷◌, ltb, leb, ◌==◌, if◌then◌else◌, exited, Outcome, ok,
  stop, ◌>>=◌,
}
use cpu_linux.Memory.{Pmem, pmem_read, pmem_write}
use cpu_linux.Difftest.{Flags, difftest_skip_ref}
use cpu_linux.SimState.{SimState, sim_trap}

-- CONFIG_RTC_MMIO and CONFIG_SERIAL_MMIO.
abbrev pub rtc_mmio : ℕ
rtc_mmio = 0xa000_0048

abbrev pub serial_mmio : ℕ
serial_mmio = 0xa000_03f8

-- What the calls change. `serial` is what was printed, the last character first; `boot_time` is
-- the clock's.
pub record Host : Type 0 where
  pub pmem : Pmem
  pub serial : List ℕ
  pub boot_time : ℕ
  pub flags : Flags
  pub sim_state : SimState
  pub cpu_mstatus : ℕ
  pub cpu_mtvec : ℕ
  pub cpu_mcause : ℕ
  pub cpu_mepc : ℕ

-- get_time(): the time since the first call, in microseconds, and the boot time. gettimeofday() is
-- the host's: `t` is its first reading, `u` its second one, which only the first call makes.
unfoldable pub get_time : ℕ → ℕ → ℕ → ℕ × ℕ
get_time boot_time t u =
    if boot_time == 0
    then ((u + 2 ^ 64 - t) % 2 ^ 64, t)
    else ((t + 2 ^ 64 - boot_time) % 2 ^ 64, boot_time)

-- dpi_ebreak(): the run has ended.
unfoldable pub dpi_ebreak : ℕ → Host → Host
dpi_ebreak pc h = record h { sim_state = sim_trap pc 0 }

abbrev pub in_rtc : ℕ → Bool
in_rtc addr = leb rtc_mmio addr && ltb addr (rtc_mmio + 4)

abbrev pub in_ram : ℕ → Bool
in_ram addr = leb 0x8000_0000 addr && leb addr 0x8fff_ffff

-- The branch of dpi_mem_read() that reads the clock.
unfoldable pub rtc_read : ℕ → ℕ → Host → ℕ × Host
unfolding get_time
rtc_read t u h =
    let (time, boot) = get_time h.boot_time t u in
    (time % 2 ^ 32, record h { boot_time = boot; flags = difftest_skip_ref })

-- dpi_mem_read(addr, len), `addr` and the result by their bits.
unfoldable pub dpi_mem_read : ℕ → ℕ → ℕ → ℕ → Host → Outcome (ℕ × Host)
dpi_mem_read addr len t u h =
    if addr == 0
    then ok (0, h)
    else if in_rtc addr
    then ok (rtc_read t u h)
    else if in_ram addr
    then (pmem_read h.pmem addr len >>= λ v. ok (v, h))
    else stop exited

-- dpi_mem_write(addr, data, len).
unfoldable pub dpi_mem_write : ℕ → ℕ → ℕ → Host → Outcome Host
dpi_mem_write addr v len h =
    if addr == serial_mmio
    then ok (record h { serial = (v % 256) ∷ h.serial; flags = difftest_skip_ref })
    else if in_ram addr
    then (pmem_write h.pmem addr len v >>= λ m. ok (record h { pmem = m }))
    else stop exited

-- get_csr_value().
unfoldable pub get_csr_value : ℕ → ℕ → ℕ → ℕ → Host → Host
get_csr_value mstatus mtvec mcause mepc h = record h {
  cpu_mstatus = mstatus;
  cpu_mtvec = mtvec;
  cpu_mcause = mcause;
  cpu_mepc = mepc;
}
