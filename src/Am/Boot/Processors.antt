-- ===== src/Am/Boot/Processors.antt =====
-- The number of processors that __am_lapic_init() counts in the table of the firmware.
use cpu_linux.Prelude.{
  ℕ, zero, suc, ◌+◌, ◌-◌, ◌≤◌, ◌<◌, ◌≡◌, ◌≢◌, ap, ◌∙◌, ◌==◌, ==_iff, false, leb, List, [], ◌∷◌,
  length, arith, dec_lt, if◌then◌else◌, assertion, ok, stop, some,
}
use cpu_linux.Am.Bytes.{u32}
use cpu_linux.Am.Boot.{
  count_cpus, find_desc, read_conf, lapic_init, mp_magic, max_cpu, conf_length, conf_lapicaddr,
  conf_size,
}

-- An entry of the table.
pub data Entry : Type 0 where
  processor device : Entry

pub cpus : List Entry → ℕ
cpus [] = 0
cpus (processor ∷ es) = suc (cpus es)
cpus (device ∷ es) = cpus es

-- The bytes from `ptr` to `limit` are these entries, which begin with 0 if and only if they are of processors.
unfoldable pub Listed : (ℕ → ℕ) → (ptr limit : ℕ) → List Entry → Type 0
Listed mem ptr limit [] = ptr ≡ limit
Listed mem ptr limit (processor ∷ es) =
    (ptr < limit) × (mem ptr ≡ 0) × Listed mem (ptr + 12 + 8) limit es
Listed mem ptr limit (device ∷ es) = (ptr < limit) × (mem ptr ≢ 0) × Listed mem (ptr + 8) limit es

count_cpus_lem :
    (es : List Entry) (mem : ℕ → ℕ) (fuel ptr limit n m : ℕ)
    → length es < fuel
    → n ≤ max_cpu
    → n + cpus es ≡ m
    → Listed mem ptr limit es
    → count_cpus fuel ptr limit n mem ≡ (if leb m max_cpu then ok m else stop assertion)
unfolding count_cpus cpus Listed
count_cpus_lem [] mem zero ptr limit n m f le e h = absurd (omega arith)
count_cpus_lem (x ∷ es) mem zero ptr limit n m f le e h = absurd (omega arith)
count_cpus_lem [] mem (suc fuel) ptr limit n m f le e h = ground (arith, h, ap (λ x. ok x) e)
count_cpus_lem (device ∷ es) mem (suc fuel) ptr limit n m f le e (lt, nz, h) =
    ground (arith, lt, nz, count_cpus_lem es mem fuel (ptr + 8) limit n m (omega arith) le e h)
count_cpus_lem (processor ∷ es) mem (suc fuel) ptr limit n m f le e (lt, z, h) =
    elim (dec_lt n max_cpu) [
      | yes room ↦ ground (
        arith,
        lt,
        z,
        count_cpus_lem es mem fuel (ptr + 12 + 8) limit (n + 1) m (omega arith) (omega arith)
            (omega arith) h,
      )
      | no full ↦ ground (arith, lt, z)
    ]

find_desc_lem :
    (k n st : ℕ) (mem : ℕ → ℕ)
    → k < n
    → ((i : ℕ) → i < k → u32 mem (st + i) ≢ mp_magic)
    → u32 mem (st + k) ≡ mp_magic
    → find_desc n st mem ≡ some (st + k)
unfolding find_desc
find_desc_lem k zero st mem lt before e = absurd (omega arith)
find_desc_lem zero (suc n) st mem lt before e =
    let here : u32 mem st ≡ mp_magic = ap (u32 mem) {x = st} {y = st + 0} (omega arith) ∙ e in
    rw ((==_iff _ _).1 here) (ap some {x = st} {y = st + 0} (omega arith))
find_desc_lem (suc k) (suc n) st mem lt before e =
    let rest =
      find_desc_lem k n (st + 1) mem (omega arith)
        (λ i l q.
          before (i + 1) (omega arith)
            (ap (u32 mem) {x = st + (i + 1)} {y = st + 1 + i} (omega arith) ∙ q))
        (ap (u32 mem) {x = st + 1 + k} {y = st + suc k} (omega arith) ∙ e) in
    let there : (u32 mem st == mp_magic) ≡ false = ground (
      arith,
      λ (q : u32 mem st ≡ mp_magic).
          before 0 (omega arith) (ap (u32 mem) {x = st + 0} {y = st} (omega arith) ∙ q),
    ) in
    rw there (rest ∙ ap some {x = st + 1 + k} {y = st + suc k} (omega arith))

read_conf_lem :
    (mem : ℕ → ℕ) (fuel st : ℕ) (es : List Entry)
    → Listed mem
        (u32 mem (st + 4) + conf_size)
        (u32 mem (st + 4) + conf_length mem (u32 mem (st + 4)))
        es
    → length es < fuel
    → read_conf fuel mem (some st) ≡ (
        if leb (cpus es) max_cpu
        then ok (conf_lapicaddr mem (u32 mem (st + 4)), cpus es)
        else stop assertion)
unfolding read_conf
read_conf_lem mem fuel st es h f =
    let conf = u32 mem (st + 4) in
    rw
      (count_cpus_lem es mem fuel (conf + conf_size) (conf + conf_length mem conf) 0 (cpus es) f
        (omega arith) (omega arith) h)
      (ground arith)

-- Where the firmware's magic number stands in the memory from 0xf0000 on, first at `st`, and the table that it points
-- to lists processors and other entries: given fuel for them, __am_lapic_init() finds the address of the
-- local controller, and counts the processors if they are at most 8; if there are more, it panics.
pub lapic_init_lem :
    (mem : ℕ → ℕ) (fuel k : ℕ) (es : List Entry)
    → k < 0xff_ffff - 0xf_0000
    → ((i : ℕ) → i < k → u32 mem (0xf_0000 + i) ≢ mp_magic)
    → u32 mem (0xf_0000 + k) ≡ mp_magic
    → Listed mem
        (u32 mem (0xf_0000 + k + 4) + conf_size)
        (u32 mem (0xf_0000 + k + 4) + conf_length mem (u32 mem (0xf_0000 + k + 4)))
        es
    → length es < fuel
    → lapic_init fuel mem ≡ (
        if leb (cpus es) max_cpu
        then ok (conf_lapicaddr mem (u32 mem (0xf_0000 + k + 4)), cpus es)
        else stop assertion)
unfolding lapic_init
lapic_init_lem mem fuel k es lt before e h f =
    ap (read_conf fuel mem) (find_desc_lem k (0xff_ffff - 0xf_0000) 0xf_0000 mem lt before e)
    ∙ read_conf_lem mem fuel (0xf_0000 + k) es h f
