-- ===== src/Dpi/Tests.antt =====
-- The calls of the hardware model at concrete addresses.
use cpu_linux.Prelude.{◌≡◌, refl, inr, false, [], arith, exited, ok, stop}
use cpu_linux.Memory.{Pmem, host_write, guest_to_host, pmem_read, pmem_write}
use cpu_linux.SimState.{running}
use cpu_linux.Difftest.{difftest_skip_ref}
use cpu_linux.Dpi.{Host, get_time, dpi_mem_read, dpi_mem_write, rtc_read}
use cpu_linux.Dpi.Routes.{dpi_mem_read-dpi_mem_write, dpi_mem_write_frame}

abbrev empty_pmem : Pmem
empty_pmem p = 0

abbrev fresh : Host
fresh = record {
  pmem = empty_pmem;
  serial = [];
  boot_time = 1000;
  flags = record { is_skip_ref = false; skip_dut_nr_inst = 0 };
  sim_state = record { state = running; halt_pc = 0; halt_ret = 0 };
  cpu_mstatus = 0;
  cpu_mtvec = 0;
  cpu_mcause = 0;
  cpu_mepc = 0;
}

abbrev stored : Host
unfolding host_write
stored = record fresh { pmem = host_write empty_pmem 256 2 0x1_2345 }

store_half : dpi_mem_write 0x8000_0100 0x1_2345 2 fresh ≡ ok stored
unfolding dpi_mem_write pmem_write guest_to_host host_write stored
store_half = refl

outside_memory : dpi_mem_read 0x9000_0000 4 0 0 fresh ≡ stop exited
unfolding dpi_mem_read
outside_memory = refl

clock :
    dpi_mem_read 0xa000_0048 4 1500 0 fresh ≡ ok (500, record fresh { flags = difftest_skip_ref })
unfolding dpi_mem_read rtc_read get_time
clock = refl

dpi_mem_read-dpi_mem_write_example : dpi_mem_read 0x8000_0100 2 0 0 stored ≡ ok (0x2345, stored)
dpi_mem_read-dpi_mem_write_example =
    dpi_mem_read-dpi_mem_write 0x8000_0100 2 0x1_2345 0 0 fresh stored refl (λ e. omega arith)
      store_half

dpi_mem_write_frame_example :
    (stored.serial ≡ [])
    × (stored.flags ≡ fresh.flags)
    × (stored.sim_state ≡ fresh.sim_state)
    × (pmem_read stored.pmem 0x8000_0102 4 ≡ pmem_read fresh.pmem 0x8000_0102 4)
dpi_mem_write_frame_example =
    dpi_mem_write_frame 0x8000_0100 2 0x1_2345 0x8000_0102 4 fresh stored refl (inr (omega arith))
      store_half
