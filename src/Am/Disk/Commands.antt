-- ===== src/Am/Disk/Commands.antt =====
-- The waits for the controller, and the registers after a command.
use cpu_linux.Prelude.{
  ℕ, zero, suc, ◌+◌, ◌*◌, ◌/◌, ◌%◌, ◌^◌, ◌<◌, ◌≡◌, ap, ◌∙◌, Bool, true, false, if◌then◌else◌, arith,
  dec_lt, ok,
}
use cpu_linux.Am.Ports.{Ports}
use cpu_linux.Am.Disk.{wait_disk, command}
use cpu_linux.Am.Disk.Ata.{idle, reading, writing, Ata, start, set_register, IsAta}

module _ (io : Ports) (view : io.State → Ata) (latency : ℕ) (ata : IsAta io view latency) where
  open ata use {busy, busy_le, ready, waiting, view-status, view-outb}

  wait_disk_lem :
      (fuel : ℕ) (s : io.State)
      → busy s < fuel
      → (s' : io.State) × (wait_disk io fuel s ≡ ok s') × (busy s' ≡ 0) × (view s' ≡ view s)
  unfolding wait_disk
  wait_disk_lem zero s h = absurd (omega arith)
  wait_disk_lem (suc fuel) s h = elim (dec_lt 0 (busy s)) [
    | yes p ↦
        let (s', e, b, v) = wait_disk_lem fuel (io.inb 0x1f7 s).1 (omega (arith, waiting s p)) in
        (s', ground (arith, waiting s p, e), b, v ∙ view-status s)
    | no p ↦ (
      (io.inb 0x1f7 s).1,
      ground (arith, ready s (omega arith)),
      ground (arith, ready s (omega arith)),
      view-status s,
    )
  ]

  -- The registers after the six bytes.
  unfoldable pub commanded : Bool → ℕ → Ata → Ata
  commanded write b a = record a {
    count = 1;
    lba_low = b % 256;
    lba_mid = b / 2 ^ 8 % 256;
    lba_high = b / 2 ^ 16 % 256;
    device = 0xe0 + b / 2 ^ 24 % 32;
    phase = if write then writing b 0 else reading b 0;
  }

  address :
      (b : ℕ)
      → b < 2 ^ 28
      → b % 256
          + 2 ^ 8 * (b / 2 ^ 8 % 256)
          + 2 ^ 16 * (b / 2 ^ 16 % 256)
          + 2 ^ 24 * ((0xe0 + b / 2 ^ 24 % 32) % 16)
        ≡ b
  address b h = omega arith

  -- The registers before the command.
  addressed : ℕ → Ata → Ata
  addressed b a = record a {
    count = 1;
    lba_low = b % 256;
    lba_mid = b / 2 ^ 8 % 256;
    lba_high = b / 2 ^ 16 % 256;
    device = 0xe0 + b / 2 ^ 24 % 32;
  }

  start-addressed :
      (write : Bool) (b : ℕ) (a : Ata)
      → b < 2 ^ 28
      → a.phase ≡ idle
      → start (if write then 0x30 else 0x20) (addressed b a)
        ≡ (if write then writing b 0 else reading b 0)
  unfolding addressed
  start-addressed true b a h free = ground (arith, ap (λ n. writing n 0) (address b h))
  start-addressed false b a h free = ground (arith, ap (λ n. reading n 0) (address b h))

  view-registers :
      (b : ℕ) (s : io.State)
      → view (
          io.outb 0x1f6 (0xe0 + b / 2 ^ 24 % 32) (
            io.outb 0x1f5
              (b / 2 ^ 16 % 256)
              (io.outb 0x1f4 (b / 2 ^ 8 % 256) (io.outb 0x1f3 (b % 256) (io.outb 0x1f2 1 s)))))
        ≡ addressed b (view s)
  unfolding addressed
  view-registers b s = simp view-outb

  view-command :
      (write : Bool) (b : ℕ) (s : io.State)
      → b < 2 ^ 28
      → (view s).phase ≡ idle
      → view (command io write b s) ≡ commanded write b (view s)
  unfolding command commanded addressed
  view-command write b s h free =
      view-outb 0x1f7 (if write then 0x30 else 0x20) _
      ∙ ap (set_register 0x1f7 (if write then 0x30 else 0x20)) (view-registers b s)
      ∙ ap (λ p. record (addressed b (view s)) { phase = p })
          (start-addressed write b (view s) h free)

  -- Both waits, with the command between them.
  pub opened_lem :
      (fuel : ℕ) (write : Bool) (b : ℕ) (s : io.State)
      → latency < fuel
      → b < 2 ^ 28
      → (view s).phase ≡ idle
      → (ready' : io.State) × (opened : io.State) × (wait_disk io fuel s ≡ ok ready')
        × (wait_disk io fuel (command io write b ready') ≡ ok opened)
        × (busy opened ≡ 0)
        × (view opened ≡ commanded write b (view s))
  opened_lem fuel write b s l h free =
      let (s₁, e₁, w₁, v₁) = wait_disk_lem fuel s (omega (arith, busy_le s)) in
      let (s₂, e₂, w₂, v₂) =
        wait_disk_lem fuel (command io write b s₁)
          (omega (arith, busy_le (command io write b s₁))) in
      (
        s₁,
        s₂,
        e₁,
        e₂,
        w₂,
        v₂ ∙ view-command write b s₁ h (ap (λ a. a.phase) v₁ ∙ free) ∙ ap (commanded write b) v₁,
      )
