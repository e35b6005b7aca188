-- ===== src/Memory/Tests.antt =====
-- The accesses to the memory at concrete addresses.
use cpu_linux.Prelude.{◌≡◌, refl, inr, arith, ok}
use cpu_linux.Memory.{host_read, Pmem, host_write, guest_to_host, pmem_read, pmem_write, paddr_read}
use cpu_linux.Memory.Access.{pmem_read-pmem_write, pmem_read-pmem_write_apart}
use cpu_linux.Memory.Bounds.{IsBytes}

abbrev zeros : Pmem
zeros p = 0

abbrev written : Pmem
unfolding host_write
written = host_write zeros 16 4 0xdead_beef

written_at : pmem_write zeros 0x8000_0010 4 0xdead_beef ≡ ok written
unfolding pmem_write guest_to_host host_write written
written_at = refl

written_bytes :
    (pmem_read written 0x8000_0012 2 ≡ ok 0xdead) × (paddr_read written 0x8000_0014 4 ≡ ok 0)
unfolding pmem_read paddr_read guest_to_host host_write written host_read
written_bytes = (refl, refl)

zeros-IsBytes : IsBytes zeros
zeros-IsBytes p = omega arith

pmem_read-pmem_write_example : pmem_read written 0x8000_0010 4 ≡ ok 0xdead_beef
pmem_read-pmem_write_example =
    pmem_read-pmem_write zeros written 0x8000_0010 4 0xdead_beef refl written_at

pmem_read-pmem_write_apart_example : pmem_read written 0x8000_0014 4 ≡ pmem_read zeros 0x8000_0014 4
pmem_read-pmem_write_apart_example =
    pmem_read-pmem_write_apart zeros written 0x8000_0010 4 0xdead_beef 0x8000_0014 4 refl written_at
      (inr (omega arith))

read_word : pmem_read written 0x8000_0010 4 ≡ ok 0xdead_beef
unfolding pmem_read guest_to_host host_write written host_read
read_word = refl
