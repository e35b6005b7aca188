-- ===== src/Cpu.antt =====
-- simulator/src/cpu/cpu.c and include/cpu.h: the processor's state as the simulator keeps it, and
-- its registers by name.
use cpu_linux.Prelude.{
  ℕ, Bool, true, false, ◌||◌, List, [], ◌∷◌, map, ltb, if◌then◌else◌, assertion, Outcome, ok, ◌>>◌,
  guard, codes, text_eq,
}

-- The register file, the pc and the CSRs by their index.
pub record Cpu : Type 0 where
  pub gpr : List ℕ
  pub pc : ℕ
  pub csr : List ℕ

-- GPR_NUM and CSR_NUM.
abbrev pub gpr_num : ℕ
gpr_num = 32

abbrev pub csr_num : ℕ
csr_num = 5

-- check_reg_idx().
unfoldable pub check_reg_idx : ℕ → Outcome ℕ
check_reg_idx idx = do guard (ltb idx gpr_num) assertion; ok idx

-- `regs`.
abbrev pub regs : List (List ℕ)
regs = map codes (
    "$0" ∷ "ra" ∷ "sp" ∷ "gp" ∷ "tp" ∷ "t0" ∷ "t1" ∷ "t2" ∷ "s0" ∷ "s1" ∷ "a0" ∷ "a1" ∷ "a2" ∷ "a3"
    ∷ "a4" ∷ "a5" ∷ "a6" ∷ "a7" ∷ "s2" ∷ "s3" ∷ "s4" ∷ "s5" ∷ "s6" ∷ "s7" ∷ "s8" ∷ "s9" ∷ "s10"
    ∷ "s11" ∷ "t3" ∷ "t4" ∷ "t5" ∷ "t6" ∷ [])

-- The loop of get_reg_val() over the names and the registers.
unfoldable pub find_reg : List (List ℕ) → List ℕ → List ℕ → ℕ × Bool
find_reg [] gpr s = (0, false)
find_reg (name ∷ names) [] s = (0, false)
find_reg (name ∷ names) (v ∷ gpr) s = if text_eq name s then (v, true) else find_reg names gpr s

-- get_reg_val(): the value and `*success`.
unfoldable pub get_reg_val : Cpu → List ℕ → ℕ × Bool
get_reg_val cpu s =
    if text_eq s (codes "pc") || text_eq s (codes "PC")
    then (cpu.pc, true)
    else find_reg regs cpu.gpr s
