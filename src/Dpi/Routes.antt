-- ===== src/Dpi/Routes.antt =====
-- Where the accesses of the hardware model go.
use cpu_linux.Prelude.{
  ℕ, ◌+◌, ◌*◌, ◌%◌, ◌^◌, ◌≤◌, ◌<◌, ◌≡◌, ap, ◌≢◌, ◌⊎◌, inl, inr, true, false, ◌∷◌, arith, ◌==◌,
  if◌then◌else◌, Bool-cases, undefined, ok, stop,
}
use cpu_linux.Memory.{mbase, msize, is_len, pmem_read, pmem_write}
use cpu_linux.Memory.Access.{pmem_read-pmem_write, pmem_read-pmem_write_apart}
use cpu_linux.Difftest.{difftest_skip_ref}
use cpu_linux.Dpi.{Host, serial_mmio, get_time, dpi_mem_read, dpi_mem_write}

-- After a store of 1, 2 or 4 bytes by the hardware model that goes through and is not to the serial
-- port, a load at the same address and length gives back the value stored, cut to the length,
-- and changes nothing.
pub dpi_mem_read-dpi_mem_write :
    (addr len v t u : ℕ) (h h' : Host)
    → is_len len ≡ true
    → addr ≢ serial_mmio
    → dpi_mem_write addr v len h ≡ ok h'
    → dpi_mem_read addr len t u h' ≡ ok (v % 2 ^ (8 * len), h')
unfolding dpi_mem_read dpi_mem_write
dpi_mem_read-dpi_mem_write addr len v t u h h' k n e =
    ground (arith, pmem_read-pmem_write h.pmem h'.pmem addr len v k)

-- A store of 1, 2 or 4 bytes that goes through, to the serial port, prints its low byte, and marks the instruction
-- as one that the reference must not execute; one to the memory prints nothing and leaves the mark.
-- Neither changes the state of the run, and a load from the memory of bytes that the store does not
-- write gives what it gave before.
pub dpi_mem_write_frame :
    (addr len v b k : ℕ) (h h' : Host)
    → is_len len ≡ true
    → (b + k ≤ addr) ⊎ (addr + len ≤ b)
    → dpi_mem_write addr v len h ≡ ok h'
    → (h'.serial ≡ (if addr == serial_mmio then (v % 256) ∷ h.serial else h.serial))
      × (h'.flags ≡ (if addr == serial_mmio then difftest_skip_ref else h.flags))
      × (h'.sim_state ≡ h.sim_state)
      × (pmem_read h'.pmem b k ≡ pmem_read h.pmem b k)
unfolding dpi_mem_write
dpi_mem_write_frame addr len v b k h h' n d e = (
  ground arith,
  ground arith,
  ground arith,
  elim (Bool-cases (addr == serial_mmio)) [
    | inl serial ↦ ap (λ m. pmem_read m b k) (ground arith)
    | inr other ↦ pmem_read-pmem_write_apart h.pmem h'.pmem addr len v b k n (stored other) d
  ],
)
  where
    stored : (addr == serial_mmio) ≡ false → pmem_write h.pmem addr len v ≡ ok h'.pmem
    stored other = ground arith

-- The addresses from 0x88000000 to 0x8fffffff pass the check of the calls, and are outside the
-- memory: a load or a store of 1, 2 or 4 bytes there leaves the array.
pub dpi_past_memory :
    (addr len v t u : ℕ) (h : Host)
    → is_len len ≡ true
    → mbase + msize ≤ addr
    → addr ≤ 0x8fff_ffff
    → (dpi_mem_read addr len t u h ≡ stop undefined) × (dpi_mem_write addr v len h ≡ stop undefined)
unfolding dpi_mem_read dpi_mem_write pmem_read pmem_write
dpi_past_memory addr len v t u h k a b = (ground arith, ground arith)

-- Once the boot time is set, the time that get_time() gives is the time that has passed since
-- then, and does not fall from one call to a later one, for clock readings from the boot time on and
-- below 2^64.
pub get_time_mono :
    (boot t u t' u' : ℕ)
    → 0 < boot
    → boot ≤ t
    → t ≤ t'
    → t' < 2 ^ 64
    → ((get_time boot t u).0 + boot ≡ t) × ((get_time boot t u).0 ≤ (get_time boot t' u').0)
unfolding get_time
get_time_mono boot t u t' u' a b c d = ground arith
