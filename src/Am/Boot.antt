-- ===== src/Am/Boot.antt =====
-- abstract-machine/am/src/x86/qemu/trm.c for 32 bits: the heap, the number of processors, the segments, and the message
-- of halt(). The memory below 16 MB, with the tables of the firmware, is a function from addresses to bytes.
pub mod Heap
pub mod Processors
pub mod Segments
mod Tests
use cpu_linux.Prelude.{
  ℕ, zero, suc, ◌+◌, ◌-◌, ◌*◌, ◌/◌, ◌%◌, ◌^◌, true, false, ◌||◌, Option, none, some, List, [], ◌∷◌,
  ltb, leb, ◌==◌, if◌then◌else◌, assertion, out_of_fuel, Outcome, ok, stop, ◌>>=◌, ◌>>◌, guard,
  codes, get_or,
}
use cpu_linux.Am.Bytes.{u16, u32}
use cpu_linux.Am.Ports.{Ports}
use cpu_linux.Am.Vme.{Area}

-- __am_heap_init(), with the address of `end`. The halves of the size are disjoint bits.
unfoldable pub heap_init : (io : Ports) → ℕ → io.State → Area × io.State
heap_init io end_ s =
    let (lo, s₁) = io.inb 0x71 (io.outb 0x70 0x34 s) in
    let (hi, s₂) = io.inb 0x71 (io.outb 0x70 0x35 s₁) in
    (
      record {
        start = (end_ + (2 ^ 20 - 1)) % 2 ^ 32 / 2 ^ 20 * 2 ^ 20;
        end = (lo + (hi + 1) * 2 ^ 8) * 2 ^ 16 % 2 ^ 32;
      },
      s₂,
    )

abbrev pub max_cpu : ℕ
max_cpu = 8

-- The magic number of MPDesc, "_MP_".
abbrev pub mp_magic : ℕ
mp_magic = 0x5f50_4d5f

-- The outer loop of __am_lapic_init() from `st` on, with `n` rounds left.
unfoldable pub find_desc : ℕ → ℕ → (ℕ → ℕ) → Option ℕ
find_desc zero st mem = none
find_desc (suc n) st mem =
    let rest = find_desc n (st + 1) mem in if u32 mem st == mp_magic then some st else rest

-- The loop over the entries, with fuel; the entry of a processor has 20 bytes, and another one 8.
unfoldable pub count_cpus : ℕ → (ptr limit ncpu : ℕ) → (ℕ → ℕ) → Outcome ℕ
count_cpus zero ptr limit ncpu mem = stop out_of_fuel
count_cpus (suc fuel) ptr limit ncpu mem = elim (ltb ptr limit) [
  | false ↦ ok ncpu
  | true ↦ elim (mem ptr == 0) [
    | true ↦
        (guard (leb (ncpu + 1) max_cpu) assertion
          >> count_cpus fuel (ptr + 12 + 8) limit (ncpu + 1) mem)
    | false ↦ count_cpus fuel (ptr + 8) limit ncpu mem
  ]
]

-- The fields of MPConf and its size.
abbrev pub conf_length : (ℕ → ℕ) → ℕ → ℕ
conf_length mem conf = u16 mem (conf + 4)

abbrev pub conf_lapicaddr : (ℕ → ℕ) → ℕ → ℕ
conf_lapicaddr mem conf = u32 mem (conf + 36)

abbrev pub conf_size : ℕ
conf_size = 44

-- What __am_lapic_init() does with the descriptor, or without one: bug().
unfoldable pub read_conf : ℕ → (ℕ → ℕ) → Option ℕ → Outcome (ℕ × ℕ)
read_conf fuel mem none = stop assertion
read_conf fuel mem (some st) =
    let conf = u32 mem (st + 4) in
    (count_cpus fuel (conf + conf_size) (conf + conf_length mem conf) 0 mem >>= λ ncpu.
    ok (conf_lapicaddr mem conf, ncpu))

-- __am_lapic_init(): __am_lapic and __am_ncpu.
unfoldable pub lapic_init : ℕ → (ℕ → ℕ) → Outcome (ℕ × ℕ)
lapic_init fuel mem = read_conf fuel mem (find_desc (0xff_ffff - 0xf_0000) 0xf_0000 mem)

-- SegDesc.
pub record SegDesc : Type 0 where
  pub lim_15_0 : ℕ
  pub base_15_0 : ℕ
  pub base_23_16 : ℕ
  pub type_ : ℕ
  pub s : ℕ
  pub dpl : ℕ
  pub p : ℕ
  pub lim_19_16 : ℕ
  pub avl : ℕ
  pub l : ℕ
  pub db : ℕ
  pub g : ℕ
  pub base_31_24 : ℕ

-- SEG16 and SEG32; a value is cut to the bits of its field.
unfoldable pub seg16 : (type_ base lim dpl : ℕ) → SegDesc
seg16 type_ base lim dpl = record {
  lim_15_0 = lim % 2 ^ 16;
  base_15_0 = base % 2 ^ 16;
  base_23_16 = base / 2 ^ 16 % 2 ^ 8;
  type_ = type_ % 2 ^ 4;
  s = 0;
  dpl = dpl % 2 ^ 2;
  p = 1;
  lim_19_16 = lim / 2 ^ 16 % 2 ^ 4;
  avl = 0;
  l = 0;
  db = 1;
  g = 0;
  base_31_24 = base / 2 ^ 24 % 2 ^ 8;
}

unfoldable pub seg32 : (type_ base lim dpl : ℕ) → SegDesc
seg32 type_ base lim dpl = record {
  lim_15_0 = lim / 2 ^ 12 % 2 ^ 16;
  base_15_0 = base % 2 ^ 16;
  base_23_16 = base / 2 ^ 16 % 2 ^ 8;
  type_ = type_ % 2 ^ 4;
  s = 1;
  dpl = dpl % 2 ^ 2;
  p = 1;
  lim_19_16 = lim / 2 ^ 28 % 2 ^ 4;
  avl = 0;
  l = 0;
  db = 1;
  g = 1;
  base_31_24 = base / 2 ^ 24 % 2 ^ 8;
}

abbrev pub set_desc : (ℕ → SegDesc) → ℕ → SegDesc → ℕ → SegDesc
set_desc gdt i d j = if j == i then d else gdt j

-- __am_percpu_initgdt(), with the address of CPU->tss and its size. The two types of segments are STA_X | STA_R and
-- STA_W, and the system's is STS_T32A.
unfoldable pub percpu_initgdt : (tss tss_size : ℕ) → (ℕ → SegDesc) → ℕ → SegDesc
unfolding seg16 seg32
percpu_initgdt tss tss_size gdt₀ =
    let gdt₁ = set_desc gdt₀ 1 (seg32 (0x8 + 0x2) 0 0xffff_ffff 0) in
    let gdt₂ = set_desc gdt₁ 2 (seg32 0x2 0 0xffff_ffff 0) in
    let gdt₃ = set_desc gdt₂ 3 (seg32 (0x8 + 0x2) 0 0xffff_ffff 3) in
    let gdt₄ = set_desc gdt₃ 4 (seg32 0x2 0 0xffff_ffff 3) in
    set_desc gdt₄ 5 (seg16 0x9 tss (tss_size - 1) 0)

-- The loop of halt() over the characters of `fmt`.
abbrev pub hex : ℕ → ℕ
hex i = get_or (codes "0123456789abcdef") i 0

unfoldable pub halt_chars : ℕ → ℕ → List ℕ → List ℕ
halt_chars cpu code [] = []
halt_chars cpu code (ch ∷ rest) =
    (if ch == 36
      then hex cpu
      else if ch == 48 || ch == 52
      then hex (code / 2 ^ (ch - 48) % 16)
      else ch)
    ∷ halt_chars cpu code rest

-- What halt(code) prints on a processor, with `code` read as one of 32 bits.
unfoldable pub halt_message : ℕ → ℕ → List ℕ
unfolding halt_chars
halt_message cpu code = halt_chars cpu code (codes "CPU #$ Halt (40).\n")
