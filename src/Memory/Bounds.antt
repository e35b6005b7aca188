-- ===== src/Memory/Bounds.antt =====
-- Which addresses the guards let through, and the size of what is read.
use cpu_linux.Prelude.{
  ℕ, ◌+◌, ◌*◌, ◌^◌, ◌≤◌, ◌<◌, ◌≡◌, ◌↔◌, ◌⊎◌, true, arith, assertion, undefined, ok, stop,
}
use cpu_linux.Memory.{
  Pmem, mbase, msize, is_len, host_read, host_write, guest_to_host, in_pmem, pmem_read, pmem_write,
  paddr_read,
}
use native.Mathlib.Nat.{one-le-pow}
use cpu_linux.Memory.Access.{pmem_write-eq-ok}

pow_pos : (n : ℕ) → 0 < 2 ^ n
pow_pos n = one-le-pow n 2 (omega arith)

-- Every cell of the array holds a byte.
abbrev pub IsBytes : Pmem → Type 0
IsBytes m = (p : ℕ) → m p < 256

host_write-lt : (m : Pmem) (p len v q : ℕ) → m q < 256 → host_write m p len v q < 256
unfolding host_write
host_write-lt m p len v q h = ground arith

host_read-lt : (m : Pmem) (p len : ℕ) → IsBytes m → host_read m p len < 2 ^ (8 * len)
unfolding host_read
host_read-lt m p len h = ground (arith, h p, h (p + 1), h (p + 2), h (p + 3), pow_pos (8 * len))

-- A write that goes through, in an array of bytes, keeps every cell a byte.
pub pmem_write-IsBytes :
    (m m' : Pmem) (addr len v : ℕ) → IsBytes m → pmem_write m addr len v ≡ ok m' → IsBytes m'
pmem_write-IsBytes m m' addr len v h e p =
    rw (pmem_write-eq-ok m m' addr len v e).0 (host_write-lt m (guest_to_host addr) len v p (h p))

-- A read of `len` bytes that goes through, in an array of bytes, gives a number of `len` bytes.
pub pmem_read-lt :
    (m : Pmem) (addr len : ℕ) {v : ℕ} → IsBytes m → pmem_read m addr len ≡ ok v → v < 2 ^ (8 * len)
unfolding pmem_read
pmem_read-lt m addr len h e = ground (arith, host_read-lt m (guest_to_host addr) len h)

-- The guard of paddr_read lets one address past the array through: for an access of 1, 2 or 4
-- bytes there, the array is left. At every other address that the guard lets through, a
-- single byte can be read.
pub paddr_read_past_end :
    (m : Pmem) (len : ℕ)
    → is_len len ≡ true
    → (in_pmem (mbase + msize) ≡ true) × (paddr_read m (mbase + msize) len ≡ stop undefined)
unfolding paddr_read pmem_read in_pmem
paddr_read_past_end m len h = ground arith

-- A read of 1, 2 or 4 bytes through paddr_read panics exactly where the address is below the memory or
-- beyond the one past its end, and leaves the array exactly where the guard lets the address through
-- and the bytes end behind the array.
pub paddr_read_cases :
    (m : Pmem) (addr len : ℕ)
    → is_len len ≡ true
    → ((paddr_read m addr len ≡ stop assertion) ↔ ((addr < mbase) ⊎ (mbase + msize < addr)))
      × ((paddr_read m addr len ≡ stop undefined)
          ↔ ((mbase ≤ addr) × (addr ≤ mbase + msize) × (mbase + msize < addr + len)))
unfolding paddr_read pmem_read in_pmem
paddr_read_cases m addr len h = ground arith
