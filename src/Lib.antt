-- ===== src/Lib.antt =====
-- The simulator for the processor, and the abstract machine and C library of the programs that run on it.
--
-- The simulator (simulator/) drives a processor that is generated from its hardware description,
-- one clock cycle at a time. The processor calls back for its memory, its clock and its serial port,
-- after each instruction its registers are compared with those of a reference, and a debugger
-- evaluates expressions on its state and watches them. The programs use the abstract machine
-- (abstract-machine/am), which gives pages, devices and traps on several machines, and its C library.
--
--   Memory      simulator/src/memory/memory.c: the physical memory, a function from offsets to
--               bytes; guest_to_host, host_read, host_write, in_pmem, pmem_read, pmem_write,
--               paddr_read, paddr_write.
--   Cpu         simulator/src/cpu/cpu.c, include/cpu.h: the registers, and get_reg_val.
--   Expr        simulator/src/monitor/sdb/expr.c: make_token in Expr/Lexer, eval, check_parentheses,
--               getPosition and expr2val in Expr/Eval. Expr/Grammar is the reference: trees, the
--               tokens that they are written as, and their values.
--   Watchpoint  simulator/src/monitor/sdb/watchpoint.c: the pool of ten watchpoints, with one
--               function for each operation.
--   SimState    simulator/src/sim/npc_state.c: the state of a run.
--   Difftest    simulator/src/difftest/difftest.c: the flags and difftest_step, checkregs.
--   Dpi         simulator/src/sim/dpi.c and utils/timer.c: the calls by the processor.
--   Exec        simulator/src/sim/sim.c: npc_single_cycle, npc_reset, execute, cpu_exec.
--   Sdb         simulator/src/monitor/sdb/sdb.c: the commands, one function each, and sdb_mainloop on
--               the list of the lines typed.
--   Monitor     simulator/src/monitor/monitor.c and main.c: the options, the image, the start of the
--               parts above, and main.
--   Am.Vme      abstract-machine/am/src/x86/qemu/vme.c: the page tables of two levels. Vme/Walk is what
--               the processor finds in them, Vme/Refine the function from pages to entries that map
--               changes, Vme/Protect and Vme/Unprotect the start and the end of a space.
--   Am.Trap     am/src/x86/qemu/cte.c: events, contexts and the table of gates.
--   Am.Gpu      am/src/x86/qemu/ioe.c: drawing a rectangle on the frame buffer.
--   Am.Canvas   am/src/x86/qemu/ioe.c: gpu_render(), which draws the tree of canvases in the GPU's memory,
--               and gpu_memcpy(), which writes that memory. Canvas/Trees is the reference: trees, and the pictures that they stand for.
--   Am.Disk     am/src/x86/qemu/ioe.c: disk_blkio(). Disk/Ata is the interface to the controller.
--   Am.Clock    am/src/x86/qemu/ioe.c: the date and the time stamps.
--   Am.Devices  am/src/x86/qemu/ioe.c: the serial port, and ioe_init() and ioe_read() over the models above and
--               below.
--   Am.Apic     am/src/x86/qemu/ioe.c: the two interrupt controllers.
--   Am.Boot     am/src/x86/qemu/trm.c: the heap, the table of processors and the segments.
--   Am.Smp      am/src/x86/qemu/mpe.c: the start of the other processors, as a relation of steps.
--   Am.Keys     am/src/x86/qemu/ioe.c: the codes of the keyboard; am/src/native/ioe/input.c: the queue.
--   Am.Native   am/src/native/vme.c in PageMap: spaces as linked lists of pages of the host; ioe/audio.c in
--               Audio: the pipe of the sound. The callback of the sound runs between the calls of the program,
--               though SDL runs it in a thread that shares `count` without a lock.
--   Am.Ioe      am/src/riscv/npc/{ioe,timer,input}.c and am/src/platform/nemu/ioe: the device registers.
--   Klib        abstract-machine/klib/src: string.c in Klib/Mem and Klib/Text, the numbers of stdio.c and
--               stdlib.c in Klib/Number, with decimal text itself in Number/Text, the formats of stdio.c in Klib/Format.
--
-- Am.Ports has the instructions that reach devices; Am.Disk, Am.Clock, Am.Apic and Am.Boot use it, and
-- Am.Devices calls Am.Disk, Am.Clock, Am.Keys, Am.Gpu and Am.Canvas.
--
-- Exec calls Difftest and the processor; the processor calls Dpi, which reads and writes Memory and
-- sets the flags of Difftest and the state of the run. Watchpoint evaluates its texts with Expr, which
-- reads Cpu and Memory. The commands of Sdb call Exec, Expr and Watchpoint. Monitor fills Memory, resets
-- Exec, opens Difftest and starts Sdb. Am.Trap resumes the contexts that Am.Vme makes for processes.
--
-- A call returns an Outcome: a result, or the reason why there is none: a failed assertion or a
-- panic, an exit of the program, an access outside an array or another undefined operation, or
-- too little fuel. State is passed explicitly, and what a call prints is left out, except
-- for the serial port, the replies of the watchpoints, the values that commands show and the message
-- of halt(). Words have 32 bits, and their wrap-around is written out.
--
-- Parameters stand for the code that is not in the repository: the processor generated from
-- the hardware description (Exec.Dut), the reference that the comparison loads (Difftest.Ref, with the law
-- that copying registers in and out gives them back), regexec() (Expr.Lexer.Regexec), the
-- host's clock, its files, options and numbers (Monitor.Os), the functions of the loaded reference
-- (Monitor.RefLib), hsearch_r() (Am.Native.PageMap.Hash), write() and read() on a pipe
-- (Am.Native.Audio.Pipe), the program's handler of events, the key codes of SDL, and the results of pgalloc(), which are a list of the pages to come. The hardware is one too: the ports,
-- the time stamp, and the registers of the interrupt controllers. What the drivers rely on of it is a
-- record of laws each: Am.Disk.Ata.IsAta, Am.Clock.Cmos.IsCmos and Am.Apic.Lines.IsIoApic, from the documents of the
-- devices.
--
-- Fuel: eval() has one unit for each token and one more, which suffices on every token array
-- (Expr.Total). The wait for a commit, strlen(), strcmp(), strcpy() and strcat() have fuel as an
-- argument, since the code does not bound them; so have the loops over the lists of pages of Am.Native, for
-- which one unit more than the length is enough. The loops of vme_init() and protect() have as many rounds as
-- 32-bit addresses have pages and tables. A number has at most ten decimal digits, and make_token()
-- has one round for each character. The waits for the disk, the clock and the controllers have fuel as an
-- argument; the disk needs one unit more than the controller can be busy, the date two rounds, and
-- gpu_render() the number of canvases and of ends of lists.
--
-- The lengths given to the functions of Klib/Mem other than memmove() are below 2^31. The configuration is that of
-- include/utils/autoconf.h: CONFIG_DEVICE, CONFIG_ISA64, CONFIG_RT_CHECK and CONFIG_DIFFTEST_CSR are not
-- defined, CONFIG_DIFFTEST and CONFIG_ITRACE are.
--
-- Pages of Am.Vme are functions from a page's address and an index to a word, so that the tables
-- in them may overlap; that they do not is an invariant. Am.Vme and Am.Trap are those of 32 bits. The coordinates
-- of Am.Gpu are not negative. In Am.Canvas a product of sizes that does not fit
-- an int is undefined. Am.Boot and Am.Smp are those of 32 bits
-- too, and the address that processors start at is below 2^20.
--
-- Not modelled: the texts of messages, logs and traces, the 64-bit routines of the compiler, of the
-- abstract machine the disk of native and the targets mips and loongarch, which are stubs, assembly, the
-- benchmarks and test programs, and the hardware description itself.
pub mod Prelude
pub mod Memory
pub mod Cpu
pub mod Expr
pub mod Watchpoint
pub mod Difftest
pub mod SimState
pub mod Dpi
pub mod Exec
pub mod Klib
pub mod Sdb
pub mod Monitor
pub mod Am
