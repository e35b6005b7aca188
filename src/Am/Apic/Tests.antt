-- ===== src/Am/Apic/Tests.antt =====
-- A controller of 24 lines.
use cpu_linux.Prelude.{ℕ, ◌+◌, ◌*◌, ◌%◌, ◌^◌, ◌≡◌, refl, List, [], ◌∷◌, ◌==◌, if◌then◌else◌, arith}
use cpu_linux.Am.Apic.{IoApic, ioapicread, ioapic_init, reg_table, int_disabled, t_irq0}
use cpu_linux.Am.Apic.Lines.{IsIoApic, enable_all, is_listed, cpu_of, ioapic_lem}

abbrev chip : IoApic
chip = record {
  State = ℕ × (ℕ → ℕ);
  set_reg = λ r s. (r, s.1);
  data_ = λ s. (if s.0 == 1 then 0x17_0011 else s.1 s.0, s);
  set_data = λ v s. (s.0, λ r. if r == s.0 then v else s.1 r);
}

chip-IsIoApic : IsIoApic chip (λ s. s.1)
chip-IsIoApic = record {
  selected = λ s. s.0;
  selected-set_reg = λ r s. refl;
  table-set_reg = λ r s. refl;
  table-data = λ s. refl;
  table-set_data = λ v s r h. refl;
}

abbrev silent : ℕ × (ℕ → ℕ)
silent = (0, λ r. 0)

-- The keyboard's line goes to the first processor, and then to the third one; the serial port's to the second.
abbrev enabled : List (ℕ × ℕ)
enabled = (1, 0) ∷ (4, 1) ∷ (1, 2) ∷ []

ioapic_lem_example :
    ((enable_all chip enabled (ioapic_init chip silent)).1 (reg_table + 2 * 1)
      ≡ (if is_listed enabled 1 then t_irq0 + 1 else int_disabled + (t_irq0 + 1)))
    × ((enable_all chip enabled (ioapic_init chip silent)).1 (reg_table + 2 * 1 + 1)
        ≡ cpu_of enabled 1 0 * 2 ^ 24 % 2 ^ 32)
unfolding ioapicread
ioapic_lem_example = ioapic_lem chip (λ s. s.1) chip-IsIoApic enabled silent 1 (omega arith)
