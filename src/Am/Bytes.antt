-- ===== src/Am/Bytes.antt =====
-- The fields of two and four bytes of structures in a memory of bytes, lowest byte first.
use cpu_linux.Prelude.{ℕ, ◌+◌, ◌*◌, ◌^◌}

abbrev pub u16 : (ℕ → ℕ) → ℕ → ℕ
u16 mem p = mem p + 2 ^ 8 * mem (p + 1)

abbrev pub u32 : (ℕ → ℕ) → ℕ → ℕ
u32 mem p = u16 mem p + 2 ^ 16 * u16 mem (p + 2)
