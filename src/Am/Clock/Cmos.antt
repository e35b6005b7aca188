-- ===== src/Am/Clock/Cmos.antt =====
-- The date that timer_rtc() gives is that of one instant.
use cpu_linux.Prelude.{
  ℕ, zero, suc, ◌+◌, ◌*◌, ◌/◌, ◌%◌, ◌≤◌, ◌<◌, ◌≡◌, refl, sym, ap, ◌∙◌, ◌==◌, ==_iff, true, false,
  arith, Bool-cases, inl, inr, Outcome, ok,
}
use cpu_linux.Am.Ports.{Ports}
use cpu_linux.Am.Clock.{Rtc, read_rtc, read_rtc_async, timer_rtc}

-- What the driver relies on of the clock: a counter of seconds that does not go back, and the registers, which
-- give the parts of its date as two decimal digits. The register that was written to port 0x70 is read.
pub record IsCmos (io : Ports) (field : ℕ → ℕ → ℕ) : Type 0 where
  pub clock : io.State → ℕ
  pub selected : io.State → ℕ
  pub selected-outb : (r : ℕ) (s : io.State) → selected (io.outb 0x70 r s) ≡ r
  pub outb_later : (r : ℕ) (s : io.State) → clock s ≤ clock (io.outb 0x70 r s)
  pub inb_later : (s : io.State) → clock s ≤ clock (io.inb 0x71 s).1
  pub value :
      (s : io.State)
      → (io.inb 0x71 s).0
        ≡ field (selected s) (clock s) / 10 * 16 + field (selected s) (clock s) % 10
  pub two_digits : (r t : ℕ) → field r t < 100
  pub second : (t : ℕ) → field 0 t ≡ t % 60

-- The date of an instant.
abbrev pub date_at : (ℕ → ℕ → ℕ) → ℕ → Rtc
date_at field t = record {
  year = field 9 t + 2000;
  month = field 8 t;
  day = field 7 t;
  hour = field 4 t;
  minute = field 2 t;
  second = field 0 t;
}

-- The state after a round of timer_rtc().
abbrev pub after_round : (io : Ports) → io.State → io.State
after_round io s = (read_rtc io 0 (read_rtc_async io s).1).1

module _ (io : Ports) (field : ℕ → ℕ → ℕ) (cmos : IsCmos io field) where
  open cmos use {clock, selected, selected-outb, outb_later, inb_later, value, two_digits, second}

  read_rtc_lem :
      (reg : ℕ) (s : io.State)
      → (t : ℕ) × (clock s ≤ t)
        × (t ≤ clock (read_rtc io reg s).1)
        × ((read_rtc io reg s).0 ≡ field reg t)
  unfolding read_rtc
  read_rtc_lem reg s =
      let s₁ = io.outb 0x70 reg s in
      (
        clock s₁,
        outb_later reg s,
        inb_later s₁,
        digits
            (value s₁
              ∙ ap (λ r. field r (clock s₁) / 10 * 16 + field r (clock s₁) % 10)
                  (selected-outb reg s))
            (two_digits reg (clock s₁)),
      )
    where
      digits : {v f : ℕ} → v ≡ f / 10 * 16 + f % 10 → f < 100 → v % 16 + v / 16 * 10 ≡ f
      digits e h = omega arith

  same_date :
      {y y' mo mo' d d' h h' mi mi' se se' : ℕ}
      → y ≡ y'
      → mo ≡ mo'
      → d ≡ d'
      → h ≡ h'
      → mi ≡ mi'
      → se ≡ se'
      → ◌≡◌ {A = Rtc}
          (record { year = y + 2000; month = mo; day = d; hour = h; minute = mi; second = se })
          (record {
            year = y' + 2000;
            month = mo';
            day = d';
            hour = h';
            minute = mi';
            second = se';
          })
  same_date a b c d e f = cc

  -- A round in less than a minute: it ends the loop if the second is the same at its end, and this is so
  -- if no second passed.
  round_lem :
      (s : io.State)
      → clock (after_round io s) < clock s + 60
      → (t : ℕ) × (clock s ≤ t)
        × (t ≤ clock (after_round io s))
        × ((read_rtc io 0 (read_rtc_async io s).1).0 ≡ (read_rtc_async io s).0.second
            → (read_rtc_async io s).0 ≡ date_at field t)
        × (clock (after_round io s) ≡ clock s
            → (read_rtc io 0 (read_rtc_async io s).1).0 ≡ (read_rtc_async io s).0.second)
  unfolding read_rtc_async
  round_lem s short =
      let s₁ = (read_rtc io 0 s).1 in
      let s₂ = (read_rtc io 2 s₁).1 in
      let s₃ = (read_rtc io 4 s₂).1 in
      let s₄ = (read_rtc io 7 s₃).1 in
      let s₅ = (read_rtc io 8 s₄).1 in
      let s₆ = (read_rtc io 9 s₅).1 in
      let (t₀, a₀, b₀, e₀) = read_rtc_lem 0 s in
      let (t₁, a₁, b₁, e₁) = read_rtc_lem 2 s₁ in
      let (t₂, a₂, b₂, e₂) = read_rtc_lem 4 s₂ in
      let (t₃, a₃, b₃, e₃) = read_rtc_lem 7 s₃ in
      let (t₄, a₄, b₄, e₄) = read_rtc_lem 8 s₄ in
      let (t₅, a₅, b₅, e₅) = read_rtc_lem 9 s₅ in
      let (t₆, a₆, b₆, e₆) = read_rtc_lem 0 s₆ in
      let same : (t : ℕ) → t₀ ≤ t → t ≤ t₆ → (read_rtc io 0 s₆).0 ≡ (read_rtc io 0 s).0 → t ≡ t₀ =
        λ t l u e. omega (arith, e₀, e₆, second t₀, second t₆) in
      (
        t₀,
        a₀,
        omega arith,
        λ e.
            same_date (e₅ ∙ ap (field 9) (same t₅ (omega arith) (omega arith) e))
              (e₄ ∙ ap (field 8) (same t₄ (omega arith) (omega arith) e))
              (e₃ ∙ ap (field 7) (same t₃ (omega arith) (omega arith) e))
              (e₂ ∙ ap (field 4) (same t₂ (omega arith) (omega arith) e))
              (e₁ ∙ ap (field 2) (same t₁ (omega arith) (omega arith) e)) e₀,
        λ still. e₆ ∙ ap (field 0) {x = t₆} {y = t₀} (omega arith) ∙ sym e₀,
      )

  read_rtc-le : (reg : ℕ) (s : io.State) → clock s ≤ clock (read_rtc io reg s).1
  unfolding read_rtc
  read_rtc-le reg s = omega (arith, outb_later reg s, inb_later (io.outb 0x70 reg s))

  after_round-le : (s : io.State) → clock s ≤ clock (after_round io s)
  unfolding read_rtc_async
  after_round-le s =
      let s₁ = (read_rtc io 0 s).1 in
      let s₂ = (read_rtc io 2 s₁).1 in
      let s₃ = (read_rtc io 4 s₂).1 in
      let s₄ = (read_rtc io 7 s₃).1 in
      let s₅ = (read_rtc io 8 s₄).1 in
      let s₆ = (read_rtc io 9 s₅).1 in
      omega (
        arith,
        read_rtc-le 0 s,
        read_rtc-le 2 s₁,
        read_rtc-le 4 s₂,
        read_rtc-le 7 s₃,
        read_rtc-le 8 s₄,
        read_rtc-le 9 s₅,
        read_rtc-le 0 s₆,
      )

  -- A round that ends the loop, and one that goes on.
  last_round :
      (fuel t : ℕ) (s : io.State)
      → (read_rtc io 0 (read_rtc_async io s).1).0 ≡ (read_rtc_async io s).0.second
      → (read_rtc_async io s).0 ≡ date_at field t
      → timer_rtc io (suc fuel) s ≡ ok (date_at field t, after_round io s)
  unfolding timer_rtc
  last_round fuel t s e d =
      rw ((==_iff _ _).1 e) (ap {B = Outcome (Rtc × io.State)} (λ x. ok (x, after_round io s)) d)

  next_round :
      (fuel : ℕ) (s : io.State)
      → ((read_rtc io 0 (read_rtc_async io s).1).0 == (read_rtc_async io s).0.second) ≡ false
      → timer_rtc io (suc fuel) s ≡ timer_rtc io fuel (after_round io s)
  unfolding timer_rtc
  next_round fuel s e = rw e refl

-- If two rounds after each other take at most one second, two rounds are enough: timer_rtc() ends, with the
-- date of one instant of the call.
pub timer_rtc_lem :
    (io : Ports) (field : ℕ → ℕ → ℕ) (cmos : IsCmos io field)
    → ((s : io.State) → cmos.clock (after_round io (after_round io s)) ≤ cmos.clock s + 1)
    → (fuel : ℕ) (s : io.State) → 2 ≤ fuel
    → (t : ℕ) × (s' : io.State) × (timer_rtc io fuel s ≡ ok (date_at field t, s'))
      × (cmos.clock s ≤ t)
      × (t ≤ cmos.clock s')
timer_rtc_lem io field cmos fast zero s h = absurd (omega arith)
timer_rtc_lem io field cmos fast (suc zero) s h = absurd (omega arith)
timer_rtc_lem io field cmos fast (suc (suc fuel)) s h =
    let s' = after_round io s in
    let later = after_round-le io field cmos s in
    let later' = after_round-le io field cmos s' in
    let (t, a, b, date, still) = round_lem io field cmos s (omega (arith, fast s)) in
    let (t', a', b', date', still') = round_lem io field cmos s' (omega (arith, fast s')) in
    elim (Bool-cases
      ((read_rtc io 0 (read_rtc_async io s).1).0 == (read_rtc_async io s).0.second)) [
        | inl same ↦ (
          t,
          s',
          last_round io field cmos (suc fuel) t s ((==_iff _ _).0 same)
              (date ((==_iff _ _).0 same)),
          a,
          b,
        )
        | inr passed ↦
            let moved : cmos.clock s' ≡ cmos.clock s → false ≡ true =
              λ e. sym passed ∙ (==_iff _ _).1 (still e) in
            let quiet : cmos.clock (after_round io s') ≡ cmos.clock s' =
              ground (arith, moved, fast s) in
            (
              t',
              after_round io s',
              next_round io field cmos (suc fuel) s passed
                  ∙ last_round io field cmos fuel t' s' (still' quiet) (date' (still' quiet)),
              omega arith,
              b',
            )
      ]
