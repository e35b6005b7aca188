-- ===== src/Am/Boot/Segments.antt =====
-- What the processor reads from the segment descriptors.
use cpu_linux.Prelude.{
  ℕ, ◌+◌, ◌-◌, ◌*◌, ◌/◌, ◌%◌, ◌^◌, ◌≤◌, ◌<◌, ◌≡◌, ◌==◌, if◌then◌else◌, arith, refl,
}
use cpu_linux.Am.Boot.{SegDesc, seg16, seg32, percpu_initgdt}

-- The address and the last offset of a segment, from the processor's manual: with `g` the offset counts pages.
pub base_of : SegDesc → ℕ
base_of d = d.base_15_0 + 2 ^ 16 * d.base_23_16 + 2 ^ 24 * d.base_31_24

pub limit_of : SegDesc → ℕ
limit_of d =
    let lim = d.lim_15_0 + 2 ^ 16 * d.lim_19_16 in
    if d.g == 1 then lim * 2 ^ 12 + (2 ^ 12 - 1) else lim

base_of-seg32 : (type_ base lim dpl : ℕ) → base < 2 ^ 32 → base_of (seg32 type_ base lim dpl) ≡ base
unfolding base_of seg32
base_of-seg32 type_ base lim dpl h = omega arith

limit_of-seg32 :
    (type_ base lim dpl : ℕ)
    → lim < 2 ^ 32
    → limit_of (seg32 type_ base lim dpl) ≡ lim / 2 ^ 12 * 2 ^ 12 + (2 ^ 12 - 1)
unfolding limit_of seg32
limit_of-seg32 type_ base lim dpl h = omega arith

base_of-seg16 : (type_ base lim dpl : ℕ) → base < 2 ^ 32 → base_of (seg16 type_ base lim dpl) ≡ base
unfolding base_of seg16
base_of-seg16 type_ base lim dpl h = omega arith

limit_of-seg16 : (type_ base lim dpl : ℕ) → lim < 2 ^ 20 → limit_of (seg16 type_ base lim dpl) ≡ lim
unfolding limit_of seg16
limit_of-seg16 type_ base lim dpl h = omega arith

-- The types, from the processor's manual: code that can be read, data that can be written, and a task state
-- segment of 32 bits that is not in use.
abbrev pub code : ℕ
code = 10

abbrev pub data_ : ℕ
data_ = 2

abbrev pub available_tss : ℕ
available_tss = 9

-- A segment of code or data of all addresses, that is present, of the type and for the level given.
pub IsFlat : SegDesc → (type_ dpl : ℕ) → Type 0
IsFlat d type_ dpl =
    (base_of d ≡ 0)
    × (limit_of d ≡ 2 ^ 32 - 1)
    × (d.type_ ≡ type_)
    × (d.s ≡ 1)
    × (d.dpl ≡ dpl)
    × (d.p ≡ 1)

-- A system segment that is present, for the kernel's level: the task state of `size` bytes at `tss`.
pub IsTaskState : SegDesc → (tss size : ℕ) → Type 0
IsTaskState d tss size =
    (base_of d ≡ tss)
    × (limit_of d + 1 ≡ size)
    × (d.type_ ≡ available_tss)
    × (d.s ≡ 0)
    × (d.dpl ≡ 0)
    × (d.p ≡ 1)

-- __am_percpu_initgdt(), on any table before: the first and the third segment are of code and the second and the
-- fourth of data, they are present and cover all addresses of 32 bits, the first two for the kernel's level
-- and the others for the user's. The fifth one is a task state segment of 32 bits, present and for the kernel's
-- level, with the address and the size given, if that is an address of 32 bits and at most 2^20 bytes.
pub percpu_initgdt_lem :
    (tss tss_size : ℕ) (gdt : ℕ → SegDesc)
    → tss < 2 ^ 32
    → 1 ≤ tss_size
    → tss_size ≤ 2 ^ 20
    → IsFlat (percpu_initgdt tss tss_size gdt 1) code 0
      × IsFlat (percpu_initgdt tss tss_size gdt 2) data_ 0
      × IsFlat (percpu_initgdt tss tss_size gdt 3) code 3
      × IsFlat (percpu_initgdt tss tss_size gdt 4) data_ 3
      × IsTaskState (percpu_initgdt tss tss_size gdt 5) tss tss_size
unfolding percpu_initgdt IsFlat IsTaskState
percpu_initgdt_lem tss tss_size gdt h l u = (
  flat (0x8 + 0x2) 0,
  flat 0x2 0,
  flat (0x8 + 0x2) 3,
  flat 0x2 3,
  (
    base_of-seg16 0x9 tss (tss_size - 1) 0 h,
    omega (arith, limit_of-seg16 0x9 tss (tss_size - 1) 0 (omega arith)),
    refl,
    refl,
    refl,
    refl,
  ),
)
  where
    flat : (type_ dpl : ℕ) → IsFlat (seg32 type_ 0 0xffff_ffff dpl) (type_ % 2 ^ 4) (dpl % 4)
    flat type_ dpl = (
      base_of-seg32 type_ 0 0xffff_ffff dpl (omega arith),
      limit_of-seg32 type_ 0 0xffff_ffff dpl (omega arith),
      refl,
      refl,
      refl,
      refl,
    )
