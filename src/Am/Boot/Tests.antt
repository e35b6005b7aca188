-- ===== src/Am/Boot/Tests.antt =====
-- A machine of two processors and 128 MB.
use cpu_linux.Prelude.{
  ℕ, ◌+◌, ◌≡◌, refl, List, [], ◌∷◌, leb, ◌==◌, if◌then◌else◌, arith, assertion, codes, ok, stop,
}
use cpu_linux.Am.Bytes.{u32}
use cpu_linux.Am.Ports.{Ports}
use cpu_linux.Am.Boot.{
  heap_init, lapic_init, halt_message, halt_chars, max_cpu, conf_lapicaddr, percpu_initgdt, SegDesc,
}
use cpu_linux.Am.Boot.Processors.{Entry, processor, device, cpus, Listed, lapic_init_lem}
use cpu_linux.Am.Boot.Segments.{code, data_, IsFlat, IsTaskState, percpu_initgdt_lem}

-- The descriptor at 0xf0000, and the table at 0x1000 with the entries of a processor, a bus and a processor.
abbrev firmware : ℕ → ℕ
firmware p =
    if p == 0xf_0000
    then 0x5f
    else if p == 0xf_0001
    then 0x4d
    else if p == 0xf_0002
    then 0x50
    else if p == 0xf_0003
    then 0x5f
    else if p == 0xf_0005
    then 0x10
    else if p == 0x1004
    then 92
    else if p == 0x1026
    then 0xe0
    else if p == 0x1027
    then 0xfe
    else if p == 0x1040
    then 1
    else 0

abbrev entries : List Entry
entries = processor ∷ device ∷ processor ∷ []

entries-Listed : Listed firmware 0x102c 0x105c entries
unfolding Listed
entries-Listed =
    (omega arith, refl, (omega arith, (λ e. absurd (omega arith)), (omega arith, refl, refl)))

lapic_init_lem_example : lapic_init 4 firmware ≡ (
    if leb (cpus entries) max_cpu
    then ok (conf_lapicaddr firmware (u32 firmware (0xf_0000 + 0 + 4)), cpus entries)
    else stop assertion)
lapic_init_lem_example =
    lapic_init_lem firmware 4 0 entries (omega arith) (λ i h. absurd (omega arith)) refl
      entries-Listed (omega arith)

-- The bytes of the clock's memory, by the register that is selected.
abbrev cmos : Ports
cmos = record {
  State = ℕ;
  inb = λ p s. (if s == 0x34 then 0 else if s == 0x35 then 7 else 0, s);
  inl = λ p s. (0, s);
  outb = λ p v s. v;
  outl = λ p v s. s;
  rdtsc = λ s. (0, s);
}

heap_init_run : (heap_init cmos 0x10_4321 0).0 ≡ record { start = 0x20_0000; end = 0x800_0000 }
unfolding heap_init
heap_init_run = refl

abbrev no_desc : SegDesc
no_desc = record {
  lim_15_0 = 0;
  base_15_0 = 0;
  base_23_16 = 0;
  type_ = 0;
  s = 0;
  dpl = 0;
  p = 0;
  lim_19_16 = 0;
  avl = 0;
  l = 0;
  db = 0;
  g = 0;
  base_31_24 = 0;
}

abbrev gdt : ℕ → SegDesc
gdt = percpu_initgdt 0x12_3456 104 (λ i. no_desc)

percpu_initgdt_lem_example :
    IsFlat (gdt 1) code 0
    × IsFlat (gdt 2) data_ 0
    × IsFlat (gdt 3) code 3
    × IsFlat (gdt 4) data_ 3
    × IsTaskState (gdt 5) 0x12_3456 104
percpu_initgdt_lem_example =
    percpu_initgdt_lem 0x12_3456 104 (λ i. no_desc) (omega arith) (omega arith) (omega arith)

halt_message_run : halt_message 1 0xab ≡ codes "CPU #1 Halt (ab).\n"
unfolding halt_message halt_chars
halt_message_run = refl
