-- ===== src/Difftest/Lockstep.antt =====
-- When a step of the comparison goes through, and what the reference then holds.
use cpu_linux.Prelude.{
  ℕ, zero, suc, ◌<◌, ◌≡◌, refl, sym, subst, ◌↔◌, ◌⊎◌, inl, inr, true, false, List, arith, get_or,
  exited, ok, stop, ◌>>◌, ℕ_discrete,
}
use cpu_linux.Cpu.{Cpu, gpr_num}
use cpu_linux.Difftest.{Ref, Flags, same_gpr, checkregs, difftest_step}

-- The pc and the 32 registers agree.
abbrev pub SameRegs : Cpu → Cpu → ℕ → Type 0
SameRegs ref cpu pc =
    (pc ≡ ref.pc) × ((i : ℕ) → i < gpr_num → get_or ref.gpr i 0 ≡ get_or cpu.gpr i 0)

same_gpr_sound :
    (n : ℕ) (a b : List ℕ) → same_gpr n a b ≡ true → (i : ℕ) → i < n → get_or a i 0 ≡ get_or b i 0
unfolding same_gpr
same_gpr_sound zero a b h i k = absurd (omega arith)
same_gpr_sound (suc n) a b h i k = elim (ℕ_discrete i n) [
  | yes e ↦ subst (λ j. get_or a j 0 ≡ get_or b j 0) (sym e) (ground arith)
  | no e ↦ same_gpr_sound n a b (ground arith) i (omega arith)
]

same_gpr_complete :
    (n : ℕ) (a b : List ℕ) → ((i : ℕ) → i < n → get_or a i 0 ≡ get_or b i 0) → same_gpr n a b ≡ true
unfolding same_gpr
same_gpr_complete zero a b h = refl
same_gpr_complete (suc n) a b h =
    ground (arith, h n (omega arith), same_gpr_complete n a b (λ i k. h i (omega arith)))

checkregs_of_same : (ref cpu : Cpu) (pc : ℕ) → SameRegs ref cpu pc → checkregs ref cpu pc ≡ ok tt
unfolding checkregs
checkregs_of_same ref cpu pc h =
    let same = same_gpr_complete gpr_num ref.gpr cpu.gpr h.1 in ground (arith, h.0, same)

checkregs-eq-ok : (ref cpu : Cpu) (pc : ℕ) → checkregs ref cpu pc ≡ ok tt → SameRegs ref cpu pc
unfolding checkregs
checkregs-eq-ok ref cpu pc h = (ground arith, same_gpr_sound gpr_num ref.gpr cpu.gpr (ground arith))

checkregs-cases :
    (ref cpu : Cpu) (pc : ℕ) → (checkregs ref cpu pc ≡ ok tt) ⊎ (checkregs ref cpu pc ≡ stop exited)
unfolding checkregs
checkregs-cases ref cpu pc = ground arith

-- checkregs() returns exactly when the pc and the 32 registers agree; otherwise the program exits.
pub checkregs_iff :
    (ref cpu : Cpu) (pc : ℕ)
    → ((checkregs ref cpu pc ≡ ok tt) ↔ SameRegs ref cpu pc)
      × ((checkregs ref cpu pc ≡ stop exited) ↔ ¬ SameRegs ref cpu pc)
checkregs_iff ref cpu pc = (
  (checkregs-eq-ok ref cpu pc, checkregs_of_same ref cpu pc),
  (
    λ e s. absurd (ground (arith, checkregs_of_same ref cpu pc s)),
    λ n. elim (checkregs-cases ref cpu pc) [
      | inl good ↦ absurd (n (checkregs-eq-ok ref cpu pc good))
      | inr bad ↦ bad
    ],
  ),
)

module _ (r : Ref) (cpu : Cpu) (pre next : ℕ) (f : Flags) (s : r.State) where
  step_of_check :
      f.skip_dut_nr_inst ≡ 0
      → f.is_skip_ref ≡ false
      → difftest_step r cpu pre next f s
        ≡ (checkregs (r.regs (r.exec s)) cpu pre >> ok (f, r.exec s))
  unfolding difftest_step
  step_of_check a b = ground arith

  -- A step with nothing to skip executes one instruction of the reference. It goes through, with
  -- the reference after that instruction, exactly when the pc and the 32 registers then agree, and
  -- ends the program exactly when they do not.
  pub difftest_step_lem :
      f.skip_dut_nr_inst ≡ 0
      → f.is_skip_ref ≡ false
      → ((difftest_step r cpu pre next f s ≡ ok (f, r.exec s))
          ↔ SameRegs (r.regs (r.exec s)) cpu pre)
        × ((difftest_step r cpu pre next f s ≡ stop exited)
            ↔ ¬ SameRegs (r.regs (r.exec s)) cpu pre)
  difftest_step_lem a b =
      let c = checkregs_iff (r.regs (r.exec s)) cpu pre in
      let k = checkregs-cases (r.regs (r.exec s)) cpu pre in
      rw (step_of_check a b) (
        (λ e. c.0.0 (ground arith), λ h. rw (c.0.1 h) refl),
        (λ e. c.1.0 (ground arith), λ n. rw (c.1.1 n) refl),
      )

  -- With no instruction of the processor to skip, a step that the reference must skip copies the
  -- registers of the processor to the reference, so that they agree, and clears the mark.
  pub difftest_step_skips :
      f.skip_dut_nr_inst ≡ 0
      → f.is_skip_ref ≡ true
      → (difftest_step r cpu pre next f s ≡ ok (record f { is_skip_ref = false }, r.set_regs cpu s))
        × SameRegs (r.regs (r.set_regs cpu s)) cpu cpu.pc
  unfolding difftest_step
  difftest_step_skips a b = (ground arith, rw (r.regs-set_regs cpu s) (refl, λ i _. refl))
