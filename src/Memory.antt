-- ===== src/Memory.antt =====
-- simulator/src/memory/memory.c: the guest's physical memory and the accesses to it.
pub mod Access
pub mod Bounds
mod Tests
use cpu_linux.Prelude.{
  ℕ, ◌+◌, ◌-◌, ◌*◌, ◌/◌, ◌%◌, Bool, not, ◌&&◌, ◌||◌, Outcome, ok, stop, undefined, assertion, leb,
  ◌==◌, if◌then◌else◌,
}

-- CONFIG_MBASE and CONFIG_MSIZE of autoconf.h.
abbrev pub mbase : ℕ
mbase = 0x8000_0000

abbrev pub msize : ℕ
msize = 0x800_0000

-- The array `pmem`, by the offset of a byte.
abbrev pub Pmem : Type 0
Pmem = ℕ → ℕ

abbrev pub store_byte : Pmem → ℕ → ℕ → Pmem
store_byte m p v q = if p == q then v % 256 else m q

-- `pmem + paddr - CONFIG_MBASE`, as an offset; `inside` says that `len` bytes from there on are
-- bytes of the array.
unfoldable pub guest_to_host : ℕ → ℕ
guest_to_host paddr = paddr - mbase

abbrev pub inside : ℕ → ℕ → Bool
inside paddr len = leb mbase paddr && leb (paddr + len) (mbase + msize)

-- `*(uint16_t *)addr` and `*(uint32_t *)addr` on a little-endian host. Another length reads nothing
-- and gives 0, since CONFIG_ISA64 and CONFIG_RT_CHECK are not defined.
unfoldable pub host_read : Pmem → ℕ → ℕ → ℕ
host_read m p len =
    if len == 1
    then m p
    else if len == 2
    then m p + 256 * m (p + 1)
    else if len == 4
    then m p + 256 * m (p + 1) + 0x1_0000 * m (p + 2) + 0x100_0000 * m (p + 3)
    else 0

unfoldable pub host_write : Pmem → ℕ → ℕ → ℕ → Pmem
host_write m p len v =
    if len == 1
    then store_byte m p v
    else if len == 2
    then store_byte (store_byte m p v) (p + 1) (v / 256)
    else if len == 4
    then store_byte
        (store_byte (store_byte (store_byte m p v) (p + 1) (v / 256)) (p + 2) (v / 0x1_0000))
        (p + 3) (v / 0x100_0000)
    else m

-- The lengths at which `host_read` and `host_write` touch the array.
abbrev pub is_len : ℕ → Bool
is_len len = (len == 1) || (len == 2) || (len == 4)

unfoldable pub in_pmem : ℕ → Bool
in_pmem addr = leb mbase addr && leb addr (mbase + msize)

unfoldable pub pmem_read : Pmem → ℕ → ℕ → Outcome ℕ
pmem_read m addr len =
    if not (is_len len) || inside addr len
    then ok (host_read m (guest_to_host addr) len)
    else stop undefined

unfoldable pub pmem_write : Pmem → ℕ → ℕ → ℕ → Outcome Pmem
pmem_write m addr len v =
    if not (is_len len) || inside addr len
    then ok (host_write m (guest_to_host addr) len v)
    else stop undefined

-- CONFIG_DEVICE is not defined, so an address outside goes to out_of_bound(), which panics.
unfoldable pub paddr_read : Pmem → ℕ → ℕ → Outcome ℕ
unfolding in_pmem
paddr_read m addr len = if in_pmem addr then pmem_read m addr len else stop assertion

unfoldable pub paddr_write : Pmem → ℕ → ℕ → ℕ → Outcome Pmem
unfolding in_pmem
paddr_write m addr len v = if in_pmem addr then pmem_write m addr len v else stop assertion
