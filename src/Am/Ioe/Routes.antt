-- ===== src/Am/Ioe/Routes.antt =====
-- Which registers have devices.
use cpu_linux.Prelude.{
  ℕ, zero, suc, ◌≡◌, ◌≢◌, refl, sym, ◌∙◌, Bool, true, false, ◌||◌, List, [], ◌∷◌, ltb, ◌==◌,
  if◌then◌else◌, arith, assertion, undefined, ok, stop, Bool-cases, inl, inr,
}
use cpu_linux.Am.Ioe.{
  Handler, Mmio, Slot, Reading, kept, npc_lut, nemu_lut, lut_len, initial_lut, fill_slot, ioe_init,
  call, ioe_read,
}

ioe_init-eq :
    (n : ℕ) (lut : ℕ → Slot) (reg : ℕ)
    → ioe_init n lut reg ≡ (if ltb reg n then fill_slot (lut reg) else lut reg)
unfolding ioe_init
ioe_init-eq zero lut reg = ground arith
ioe_init-eq (suc n) lut reg = ground (arith, ioe_init-eq n lut reg)

-- There is a row for the register.
pub has_row : List (ℕ × Handler) → ℕ → Bool
has_row [] reg = false
has_row (row ∷ rows) reg = row.0 == reg || has_row rows reg

pub row_of : List (ℕ × Handler) → ℕ → Mmio → Reading × Mmio
row_of [] reg io = (kept, io)
row_of (row ∷ rows) reg io = if row.0 == reg then row.1 io else row_of rows reg io

call-initial_lut :
    (rows : List (ℕ × Handler)) (reg : ℕ) (io : Mmio)
    → call (fill_slot (initial_lut rows reg)) io
      ≡ (if has_row rows reg then ok (row_of rows reg io) else stop assertion)
unfolding initial_lut has_row row_of
call-initial_lut [] reg io = refl
call-initial_lut (row ∷ rows) reg io = elim (Bool-cases (row.0 == reg)) [
  | inl this ↦ rw this refl
  | inr other ↦ rw other (call-initial_lut rows reg io)
]

-- After ioe_init(), reading or writing a register below 128 calls the handler of its row, and panics if there
-- is none; one from 128 on is outside the table.
pub ioe_read_lem :
    (rows : List (ℕ × Handler)) (reg : ℕ) (io : Mmio)
    → ioe_read (ioe_init lut_len (initial_lut rows)) reg io ≡ (
        if ltb reg lut_len
        then (if has_row rows reg then ok (row_of rows reg io) else stop assertion)
        else stop undefined)
unfolding ioe_read
ioe_read_lem rows reg io =
    ground (arith, ioe_init-eq lut_len (initial_lut rows) reg, call-initial_lut rows reg io)

same_row :
    (reg : ℕ) (io : Mmio)
    → has_row npc_lut reg ≡ true
    → reg ≢ 6
    → (has_row nemu_lut reg ≡ true) × (row_of nemu_lut reg io ≡ row_of npc_lut reg io)
unfolding has_row row_of
same_row reg io h n = (ground arith, ground arith)

-- A program that reads a register of the NPC, other than the uptime, reads the same on NEMU's machines.
pub npc_nemu :
    (reg : ℕ) (io : Mmio)
    → has_row npc_lut reg ≡ true
    → reg ≢ 6
    → ioe_read (ioe_init lut_len (initial_lut nemu_lut)) reg io
      ≡ ioe_read (ioe_init lut_len (initial_lut npc_lut)) reg io
npc_nemu reg io h n =
    ioe_read_lem nemu_lut reg io
    ∙ ground (arith, h, same_row reg io h n)
    ∙ sym (ioe_read_lem npc_lut reg io)
