-- ===== src/Memory/Access.antt =====
-- What a read gives after a write, at the same place and elsewhere.
use cpu_linux.Prelude.{ℕ, ◌+◌, ◌-◌, ◌*◌, ◌%◌, ◌^◌, ◌≤◌, ◌<◌, ◌≡◌, ◌⊎◌, true, false, arith, ok}
use cpu_linux.Memory.{
  Pmem, mbase, is_len, inside, host_read, host_write, guest_to_host, pmem_read, pmem_write,
}

pub host_read-host_write :
    (m : Pmem) (p len v : ℕ)
    → is_len len ≡ true
    → host_read (host_write m p len v) p len ≡ v % 2 ^ (8 * len)
unfolding host_read host_write
host_read-host_write m p len v h = ground arith

-- A byte outside the ones written keeps its value.
pub host_write_outside :
    (m : Pmem) (p len v q : ℕ) → (q < p) ⊎ (p + len ≤ q) → host_write m p len v q ≡ m q
unfolding host_write
host_write_outside m p len v q h = ground arith

host_read-host_write_apart :
    (m : Pmem) (p q len k v : ℕ)
    → (q + k ≤ p) ⊎ (p + len ≤ q)
    → host_read (host_write m p len v) q k ≡ host_read m q k
unfolding host_read
host_read-host_write_apart m p q len k v h = ground (
  arith,
  host_write_outside m p len v q,
  host_write_outside m p len v (q + 1),
  host_write_outside m p len v (q + 2),
  host_write_outside m p len v (q + 3),
)

host_read_no_len : (m : Pmem) (p len : ℕ) → is_len len ≡ false → host_read m p len ≡ 0
unfolding host_read
host_read_no_len m p len h = ground arith

-- What a write that goes through has done.
pub pmem_write-eq-ok :
    (m m' : Pmem) (addr len v : ℕ)
    → pmem_write m addr len v ≡ ok m'
    → (m' ≡ host_write m (guest_to_host addr) len v) × (is_len len ≡ true → inside addr len ≡ true)
unfolding pmem_write
pmem_write-eq-ok m m' addr len v e = ground arith

-- A read of 1, 2 or 4 bytes at an address where such a write was done gives back the value written,
-- cut to the length.
pub pmem_read-pmem_write :
    (m m' : Pmem) (addr len v : ℕ)
    → is_len len ≡ true
    → pmem_write m addr len v ≡ ok m'
    → pmem_read m' addr len ≡ ok (v % 2 ^ (8 * len))
unfolding pmem_read
pmem_read-pmem_write m m' addr len v h e =
    let w = pmem_write-eq-ok m m' addr len v e in
    rw (w.0, w.1 h) (ground (arith, h, host_read-host_write m (guest_to_host addr) len v))

-- A write of 1, 2 or 4 bytes that goes through leaves every read that does not overlap it as it was.
pub pmem_read-pmem_write_apart :
    (m m' : Pmem) (addr len v b k : ℕ)
    → is_len len ≡ true
    → pmem_write m addr len v ≡ ok m'
    → (b + k ≤ addr) ⊎ (addr + len ≤ b)
    → pmem_read m' b k ≡ pmem_read m b k
unfolding pmem_read guest_to_host
pmem_read-pmem_write_apart m m' addr len v b k h e d =
    let w = pmem_write-eq-ok m m' addr len v e in
    let i = w.1 h in
    rw w.0 (
      ground (
        arith,
        i,
        d,
        host_read_no_len m (b - mbase) k,
        host_read_no_len (host_write m (addr - mbase) len v) (b - mbase) k,
        host_read-host_write_apart m (addr - mbase) (b - mbase) len k v,
      ))
