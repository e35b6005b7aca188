-- ===== src/Am/Apic/Lines.antt =====
-- Which lines of the controller for devices are open.
use cpu_linux.Prelude.{
  ℕ, zero, suc, ◌+◌, ◌*◌, ◌/◌, ◌%◌, ◌^◌, ◌≤◌, ◌≡◌, refl, ap, ◌∙◌, Bool, true, false, ◌&&◌, ◌||◌,
  ltb, leb, ◌==◌, if◌then◌else◌, arith, List, [], ◌∷◌,
}
use cpu_linux.Am.Apic.{
  IoApic, ioapicread, reg_ver, ioapicwrite, mask_lines, ioapic_init, ioapic_enable, int_disabled,
  t_irq0, reg_table,
}

-- What the driver relies on of the controller: writes of `data` set the register that was selected, if it
-- is one of the table, and nothing else changes the table.
pub record IsIoApic (io : IoApic) (table : io.State → ℕ → ℕ) : Type 0 where
  pub selected : io.State → ℕ
  pub selected-set_reg : (r : ℕ) (s : io.State) → selected (io.set_reg r s) ≡ r
  pub table-set_reg : (r : ℕ) (s : io.State) → table (io.set_reg r s) ≡ table s
  pub table-data : (s : io.State) → table (io.data_ s).1 ≡ table s
  pub table-set_data :
      (v : ℕ) (s : io.State) (r : ℕ)
      → reg_table ≤ r
      → table (io.set_data v s) r ≡ (if r == selected s then v else table s r)

-- __am_ioapic_enable() for lines and their processors, one after the other.
pub enable_all : (io : IoApic) → List (ℕ × ℕ) → io.State → io.State
enable_all io [] s = s
enable_all io (line ∷ lines) s = enable_all io lines (ioapic_enable io line.0 line.1 s)

-- The line is among them.
pub is_listed : List (ℕ × ℕ) → ℕ → Bool
is_listed [] i = false
is_listed (line ∷ lines) i = line.0 == i || is_listed lines i

-- The last processor that it was given to.
pub cpu_of : List (ℕ × ℕ) → ℕ → ℕ → ℕ
cpu_of [] i found = found
cpu_of (line ∷ lines) i found = cpu_of lines i (if line.0 == i then line.1 else found)

module _ (io : IoApic) (table : io.State → ℕ → ℕ) (apic : IsIoApic io table) where
  open apic use {selected, selected-set_reg, table-set_reg, table-data, table-set_data}

  table-ioapicwrite :
      (reg v : ℕ) (s : io.State) (r : ℕ)
      → reg_table ≤ r
      → table (ioapicwrite io reg v s) r ≡ (if r == reg then v else table s r)
  unfolding ioapicwrite
  table-ioapicwrite reg v s r h =
      table-set_data v (io.set_reg reg s) r h
      ∙ ground (arith, selected-set_reg reg s, ap (λ f. f r) (table-set_reg reg s))

  low :
      (n i : ℕ) (s : io.State) (k : ℕ)
      → table (mask_lines io n i s) (reg_table + 2 * k) ≡ (
          if leb i k && ltb k (i + n)
          then int_disabled + (t_irq0 + k)
          else table s (reg_table + 2 * k))
  unfolding mask_lines
  low zero i s k = ground arith
  low (suc n) i s k =
      let r = reg_table + 2 * k in
      let s₁ = ioapicwrite io (reg_table + 2 * i) (int_disabled + (t_irq0 + i)) s in
      low n (i + 1) (ioapicwrite io (reg_table + 2 * i + 1) 0 s₁) k
      ∙ ground (
        arith,
        table-ioapicwrite (reg_table + 2 * i + 1) 0 s₁ r (omega arith),
        table-ioapicwrite (reg_table + 2 * i) (int_disabled + (t_irq0 + i)) s r (omega arith),
      )

  low-enable :
      (irq cpunum : ℕ) (s : io.State) (k : ℕ)
      → table (ioapic_enable io irq cpunum s) (reg_table + 2 * k)
        ≡ (if irq == k then t_irq0 + k else table s (reg_table + 2 * k))
  unfolding ioapic_enable
  low-enable irq cpunum s k =
      let r = reg_table + 2 * k in
      let s₁ = ioapicwrite io (reg_table + 2 * irq) (t_irq0 + irq) s in
      ground (
        arith,
        table-ioapicwrite (reg_table + 2 * irq + 1) (cpunum * 2 ^ 24 % 2 ^ 32) s₁ r (omega arith),
        table-ioapicwrite (reg_table + 2 * irq) (t_irq0 + irq) s r (omega arith),
      )

  high-enable :
      (irq cpunum : ℕ) (s : io.State) (k : ℕ)
      → table (ioapic_enable io irq cpunum s) (reg_table + 2 * k + 1)
        ≡ (if irq == k then cpunum * 2 ^ 24 % 2 ^ 32 else table s (reg_table + 2 * k + 1))
  unfolding ioapic_enable
  high-enable irq cpunum s k =
      let r = reg_table + 2 * k + 1 in
      let s₁ = ioapicwrite io (reg_table + 2 * irq) (t_irq0 + irq) s in
      ground (
        arith,
        table-ioapicwrite (reg_table + 2 * irq + 1) (cpunum * 2 ^ 24 % 2 ^ 32) s₁ r (omega arith),
        table-ioapicwrite (reg_table + 2 * irq) (t_irq0 + irq) s r (omega arith),
      )

  high :
      (n i : ℕ) (s : io.State) (k : ℕ)
      → table (mask_lines io n i s) (reg_table + 2 * k + 1)
        ≡ (if leb i k && ltb k (i + n) then 0 else table s (reg_table + 2 * k + 1))
  unfolding mask_lines
  high zero i s k = ground arith
  high (suc n) i s k =
      let r = reg_table + 2 * k + 1 in
      let s₁ = ioapicwrite io (reg_table + 2 * i) (int_disabled + (t_irq0 + i)) s in
      high n (i + 1) (ioapicwrite io (reg_table + 2 * i + 1) 0 s₁) k
      ∙ ground (
        arith,
        table-ioapicwrite (reg_table + 2 * i + 1) 0 s₁ r (omega arith),
        table-ioapicwrite (reg_table + 2 * i) (int_disabled + (t_irq0 + i)) s r (omega arith),
      )

  low-enable_all :
      (lines : List (ℕ × ℕ)) (s : io.State) (k : ℕ)
      → table (enable_all io lines s) (reg_table + 2 * k)
        ≡ (if is_listed lines k then t_irq0 + k else table s (reg_table + 2 * k))
  unfolding enable_all is_listed
  low-enable_all [] s k = refl
  low-enable_all (line ∷ lines) s k =
      low-enable_all lines (ioapic_enable io line.0 line.1 s) k
      ∙ ground (arith, low-enable line.0 line.1 s k)

  high-enable_all :
      (lines : List (ℕ × ℕ)) (s : io.State) (k found : ℕ)
      → table s (reg_table + 2 * k + 1) ≡ found * 2 ^ 24 % 2 ^ 32
      → table (enable_all io lines s) (reg_table + 2 * k + 1)
        ≡ cpu_of lines k found * 2 ^ 24 % 2 ^ 32
  unfolding enable_all cpu_of
  high-enable_all [] s k found e = e
  high-enable_all (line ∷ lines) s k found e =
      high-enable_all lines (ioapic_enable io line.0 line.1 s) k
        (if line.0 == k then line.1 else found)
        (high-enable line.0 line.1 s k ∙ split (line.0 == k))
    where
      split :
          (b : Bool)
          → (if b then line.1 * 2 ^ 24 % 2 ^ 32 else table s (reg_table + 2 * k + 1))
            ≡ (if b then line.1 else found) * 2 ^ 24 % 2 ^ 32
      split true = refl
      split false = e

-- Which lines get through: after __am_ioapic_init() and __am_ioapic_enable() of some lines, each line up to the
-- last one that the controller has is masked, unless it is among them. One among them raises the interrupt
-- with its number above T_IRQ0, on the processor that it was given to last.
pub ioapic_lem :
    (io : IoApic) (table : io.State → ℕ → ℕ)
    → IsIoApic io table
    → (lines : List (ℕ × ℕ)) (s : io.State) (k : ℕ) → k ≤ (ioapicread io reg_ver s).0 / 2 ^ 16 % 256
    → (table (enable_all io lines (ioapic_init io s)) (reg_table + 2 * k)
        ≡ (if is_listed lines k then t_irq0 + k else int_disabled + (t_irq0 + k)))
      × (table (enable_all io lines (ioapic_init io s)) (reg_table + 2 * k + 1)
          ≡ cpu_of lines k 0 * 2 ^ 24 % 2 ^ 32)
unfolding ioapic_init
ioapic_lem io table apic lines s k h =
    let n = (ioapicread io reg_ver s).0 / 2 ^ 16 % 256 + 1 in
    let s' = (ioapicread io reg_ver s).1 in
    (
      low-enable_all io table apic lines (mask_lines io n 0 s') k
          ∙ ground (arith, low io table apic n 0 s' k),
      high-enable_all io table apic lines (mask_lines io n 0 s') k 0
          (high io table apic n 0 s' k ∙ ground arith),
    )
