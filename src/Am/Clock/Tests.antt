-- ===== src/Am/Clock/Tests.antt =====
-- A clock on which forty instructions take a second.
use cpu_linux.Prelude.{ℕ, ◌+◌, ◌*◌, ◌/◌, ◌%◌, ◌≤◌, ◌<◌, ◌≡◌, refl, ◌==◌, if◌then◌else◌, arith, ok}
use cpu_linux.Am.Ports.{Ports}
use cpu_linux.Am.Clock.{read_rtc, read_rtc_async, timer_rtc}
use cpu_linux.Am.Clock.Cmos.{IsCmos, date_at, timer_rtc_lem}

abbrev field : ℕ → ℕ → ℕ
field r t = if r == 0 then t % 60 else 10 + r % 10

abbrev bcd : ℕ → ℕ
bcd v = v / 10 * 16 + v % 10

-- The number of instructions so far, and the register that is selected. The time stamp advances by 2^20 at each.
abbrev slow : Ports
slow = record {
  State = ℕ × ℕ;
  inb = λ p s. (bcd (field s.1 (s.0 / 40)), (s.0 + 1, s.1));
  inl = λ p s. (0, s);
  outb = λ p v s. (s.0 + 1, v);
  outl = λ p v s. s;
  rdtsc = λ s. (s.0 * 1_048_576, s);
}

field-lt : (r t : ℕ) → field r t < 100
field-lt r t = ground arith

abbrev slow_cmos : IsCmos slow field
slow_cmos = record {
  clock = λ s. s.0 / 40;
  selected = λ s. s.1;
  selected-outb = λ r s. refl;
  outb_later = λ r s. omega arith;
  inb_later = λ s. omega arith;
  value = λ s. refl;
  two_digits = field-lt;
  second = λ t. refl;
}

timer_rtc_lem_example :
    (t : ℕ) × (s' : ℕ × ℕ) × (timer_rtc slow 2 (2_390, 0) ≡ ok (date_at field t, s'))
    × (2_390 / 40 ≤ t)
    × (t ≤ s'.0 / 40)
unfolding read_rtc_async read_rtc
timer_rtc_lem_example =
    timer_rtc_lem slow field slow_cmos (λ s. omega arith) 2 (2_390, 0) (omega arith)

-- The first round starts in the last second of a minute and ends in the next one, so that there is a second.
timer_rtc_run :
    timer_rtc slow 2 (2_390, 0)
    ≡ ok (
      record { year = 2019; month = 18; day = 17; hour = 14; minute = 12; second = 0 },
      (2_418, 0),
    )
unfolding timer_rtc read_rtc_async read_rtc
timer_rtc_run = refl
