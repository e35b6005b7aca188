-- ===== src/Am/Clock.antt =====
-- The timer of abstract-machine/am/src/x86/qemu/ioe.c: the date of the CMOS clock, and the time stamp of the processor.
pub mod Cmos
mod Tests
use cpu_linux.Prelude.{
  ℕ, zero, suc, ◌+◌, ◌-◌, ◌*◌, ◌/◌, ◌%◌, ◌^◌, true, false, leb, ◌==◌, if◌then◌else◌, undefined,
  out_of_fuel, Outcome, ok, stop, ◌>>=◌,
}
use cpu_linux.Am.Ports.{Ports}

-- AM_TIMER_RTC_T.
pub record Rtc : Type 0 where
  pub year : ℕ
  pub month : ℕ
  pub day : ℕ
  pub hour : ℕ
  pub minute : ℕ
  pub second : ℕ

-- boot_date, freq_mhz and uptsc.
pub record Timer : Type 0 where
  pub boot_date : Rtc
  pub freq_mhz : ℕ
  pub uptsc : ℕ

-- Two digits, of four bits each.
abbrev pub of_bcd : ℕ → ℕ
of_bcd ret = ret % 16 + ret / 16 * 10

module _ (io : Ports) where
  unfoldable pub read_rtc : ℕ → io.State → ℕ × io.State
  read_rtc reg s = let (ret, s') = io.inb 0x71 (io.outb 0x70 reg s) in (of_bcd ret, s')

  -- read_rtc_async(), with the calls in the order that they are written in.
  unfoldable pub read_rtc_async : io.State → Rtc × io.State
  unfolding read_rtc
  read_rtc_async s =
      let (second, s₁) = read_rtc 0 s in
      let (minute, s₂) = read_rtc 2 s₁ in
      let (hour, s₃) = read_rtc 4 s₂ in
      let (day, s₄) = read_rtc 7 s₃ in
      let (month, s₅) = read_rtc 8 s₄ in
      let (year, s₆) = read_rtc 9 s₅ in
      (
        record {
          year = year + 2000;
          month = month;
          day = day;
          hour = hour;
          minute = minute;
          second = second;
        },
        s₆,
      )

  -- wait_sec(), with fuel; the loop that only counts is left out.
  unfoldable pub wait_sec : ℕ → io.State → Outcome (Rtc × io.State)
  unfolding read_rtc_async
  wait_sec zero s = stop out_of_fuel
  wait_sec (suc fuel) s =
      let (t0, s₁) = read_rtc_async s in
      let (t1, s₂) = read_rtc_async s₁ in
      let rest = wait_sec fuel s₂ in if t0.second == t1.second then rest else ok (t1, s₂)

  abbrev pub seconds : Rtc → ℕ
  seconds rtc = rtc.minute * 60 + rtc.second

  -- estimate_freq(), with fuel for its own calls and for the waits. The difference of time stamps is one of
  -- 64 bits, and the result has 32.
  unfoldable pub estimate_freq : ℕ → ℕ → io.State → Outcome (ℕ × io.State)
  unfolding wait_sec
  estimate_freq zero waits s = stop out_of_fuel
  estimate_freq (suc fuel) waits s = do
    (rtc1, s₁) ← wait_sec waits s
    let (tsc1, s₂) = io.rdtsc s₁
    (rtc2, s₃) ← wait_sec waits s₂
    let (tsc2, s₄) = io.rdtsc s₃
    elim (leb (seconds rtc2) (seconds rtc1)) [
      | true ↦ estimate_freq fuel waits s₄
      | false ↦
          ok ((tsc2 + 2 ^ 64 - tsc1) % 2 ^ 64 / 2 ^ 20 / (seconds rtc2 - seconds rtc1) % 2 ^ 32, s₄)
    ]

  -- timer_rtc(), with fuel.
  unfoldable pub timer_rtc : ℕ → io.State → Outcome (Rtc × io.State)
  unfolding read_rtc_async
  timer_rtc zero s = stop out_of_fuel
  timer_rtc (suc fuel) s =
      let (rtc, s₁) = read_rtc_async s in
      let (tmp, s₂) = read_rtc 0 s₁ in
      let rest = timer_rtc fuel s₂ in if tmp == rtc.second then ok (rtc, s₂) else rest

  -- timer_init().
  unfoldable pub timer_init : ℕ → ℕ → io.State → Outcome (Timer × io.State)
  unfolding estimate_freq timer_rtc
  timer_init fuel waits s = do
    (freq, s₁) ← estimate_freq fuel waits s
    (date, s₂) ← timer_rtc fuel s₁
    let (tsc, s₃) = io.rdtsc s₂
    ok (record { boot_date = date; freq_mhz = freq; uptsc = tsc }, s₃)

  -- timer_uptime().
  unfoldable pub timer_uptime : Timer → io.State → Outcome (ℕ × io.State)
  timer_uptime t s =
      let (tsc, s') = io.rdtsc s in
      if t.freq_mhz == 0
      then stop undefined
      else ok ((tsc + 2 ^ 64 - t.uptsc) % 2 ^ 64 / t.freq_mhz, s')
