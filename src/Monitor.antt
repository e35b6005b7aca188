-- ===== src/Monitor.antt =====
-- simulator/src/monitor/monitor.c and main.c, with init_mem() of memory.c, init_rand(), init_log() and
-- init_sdb(): how the simulator starts. Files, getopt_long() and the reference's library are parameters.
pub mod Boot
pub mod Start
mod Tests
use cpu_linux.Prelude.{
  ◌>>=◌, ◌>>◌, ℕ, zero, suc, ◌+◌, ◌/◌, ◌%◌, Bool, true, false, Option, none, some, List, [], ◌∷◌,
  ltb, leb, ◌==◌, if◌then◌else◌, length, assertion, undefined, exited, Outcome, ok, stop, guard,
}
use cpu_linux.Prelude.Int.{ℤ, pos}
use cpu_linux.Cpu.{Cpu, gpr_num, csr_num}
use cpu_linux.Memory.{Pmem, mbase, msize, store_byte, guest_to_host}
use cpu_linux.SimState.{stopped}
use cpu_linux.Difftest.{Ref, init_difftest}
use cpu_linux.Expr.Lexer.{Regexec}
use cpu_linux.Watchpoint.{wp_init}
use cpu_linux.Exec.{Dut, Machine, npc_init}
use cpu_linux.Sdb.{Debugger, sdb_mainloop}

-- PMEM_LEFT + CONFIG_PC_RESET_OFFSET.
abbrev pub reset_vector : ℕ
reset_vector = mbase + 0

-- What a call of getopt_long() gives before the last one, which gives -1: the option's letter, or 1 for
-- an argument that is no option, and `optarg`.
pub record Opt : Type 0 where
  pub letter : ℕ
  pub optarg : List ℕ

-- The variables that parse_args() sets; `is_batch_mode` is that of sdb.c.
pub record Args : Type 0 where
  pub is_batch_mode : Bool
  pub img_file : Option (List ℕ)
  pub log_file : Option (List ℕ)
  pub diff_so_file : Option (List ℕ)
  pub difftest_port : ℤ

abbrev pub no_args : Args
no_args = record {
  is_batch_mode = false;
  img_file = none;
  log_file = none;
  diff_so_file = none;
  difftest_port = pos 1234;
}

-- What the host answers: `read_file` is fopen() for reading and the bytes of the file, `can_write` is
-- fopen() for writing, `scan_int` is sscanf() with %d, `rand` is rand(), `can_load` is dlopen() with the
-- calls of dlsym(), and `can_compile` says that regcomp() takes the rules.
pub record Os : Type 0 where
  pub read_file : List ℕ → Option (List ℕ)
  pub can_write : List ℕ → Bool
  pub scan_int : List ℕ → Option ℤ
  pub rand : ℕ
  pub can_load : List ℕ → Bool
  pub can_compile : Bool

abbrev pub set_port : Option ℤ → Args → Args
set_port none a = a
set_port (some port) a = record a { difftest_port = port }

-- parse_args(): the options before the first argument that is none; a wrong one, and -h, prints the usage.
unfoldable pub parse_args : Os → List Opt → Args → Outcome Args
parse_args os [] a = ok a
parse_args os (o ∷ opts) a = elim (o.letter == 1) [
  | true ↦ ok (record a { img_file = some o.optarg })
  | false ↦
      (if o.letter == b'b'
        then ok (record a { is_batch_mode = true })
        else if o.letter == b'p'
        then ok (set_port (os.scan_int o.optarg) a)
        else if o.letter == b'l'
        then ok (record a { log_file = some o.optarg })
        else if o.letter == b'd'
        then ok (record a { diff_so_file = some o.optarg })
        else stop exited)
      >>= parse_args os opts
]

abbrev pub can_open : Os → Option (List ℕ) → Bool
can_open os none = true
can_open os (some name) = os.can_write name

unfoldable pub init_log : Os → Option (List ℕ) → Outcome (Unit {0})
init_log os log_file = guard (can_open os log_file) assertion

-- CONFIG_MEM_RANDOM is defined: memset() with the low byte of rand().
unfoldable pub init_mem : Os → Pmem
init_mem os p = os.rand % 256

-- Bytes in a row, from offset `p` on.
unfoldable pub store_bytes : Pmem → ℕ → List ℕ → Pmem
store_bytes m p [] = m
store_bytes m p (v ∷ vs) = store_bytes (store_byte m p v) (p + 1) vs

-- `img`, and its bytes on a little-endian host.
abbrev pub img : List ℕ
img = 0x000a_2083 ∷ 0x001a_2023 ∷ 0x000a_2103 ∷ 0x0010_0073 ∷ []

abbrev pub bytes_of : List ℕ → List ℕ
bytes_of [] = []
bytes_of (w ∷ ws) =
    w % 256 ∷ w / 0x100 % 256 ∷ w / 0x1_0000 % 256 ∷ w / 0x100_0000 % 256 ∷ bytes_of ws

unfoldable pub load_builded_img : Pmem → Pmem
load_builded_img m = store_bytes m (guest_to_host reset_vector) (bytes_of img)

-- The file's bytes are read as one item: of an empty file there is none, and fread() gives 0. A file
-- larger than the memory overruns it.
unfoldable pub read_img : Pmem → List ℕ → Outcome (Pmem × ℕ)
read_img m bytes = do
  guard (leb (length bytes) msize) undefined
  guard (ltb 0 (length bytes)) assertion
  ok (store_bytes m (guest_to_host reset_vector) bytes, length bytes)

abbrev pub opened : Option (List ℕ) → Outcome (List ℕ)
opened none = stop assertion
opened (some bytes) = ok bytes

-- load_img(): the memory and the size.
unfoldable pub load_img : Os → Option (List ℕ) → Pmem → Outcome (Pmem × ℕ)
load_img os none m = ok (m, 4096)
load_img os (some img_file) m = do bytes ← opened (os.read_file img_file); read_img m bytes

-- The memory before the processor is reset, and the size of the image.
unfoldable pub load_mem : Os → Args → Outcome (Pmem × ℕ)
load_mem os a = do init_log os a.log_file; load_img os a.img_file (load_builded_img (init_mem os))

abbrev pub zeros : ℕ → List ℕ
zeros zero = []
zeros (suc n) = 0 ∷ zeros n

abbrev pub zero_cpu : Cpu
zero_cpu = record { gpr = zeros gpr_num; pc = 0; csr = zeros csr_num }

module _ (d : Dut) (r : Ref) where
  -- The reference's difftest_init() and difftest_memcpy(), with the memory and the number of bytes.
  pub record RefLib : Type 0 where
    pub ref_difftest_init : ℤ → r.State → r.State
    pub ref_difftest_memcpy : Pmem → ℕ → r.State → r.State

  -- The variables of the simulator before main(), with `dut` and `ref` as they are made.
  abbrev pub first_machine : d.State → r.State → Pmem → Machine d r
  first_machine dut ref pmem = record {
    dut = dut;
    ref = ref;
    host = record {
      pmem = pmem;
      serial = [];
      boot_time = 0;
      flags = record { is_skip_ref = false; skip_dut_nr_inst = 0 };
      sim_state = record { state = stopped; halt_pc = 0; halt_ret = 0 };
      cpu_mstatus = 0;
      cpu_mtvec = 0;
      cpu_mcause = 0;
      cpu_mepc = 0;
    };
    cpu = zero_cpu;
    clk_count = 0;
    commit_pre_pc = 0;
  }

  abbrev pub given : Option (List ℕ) → (List ℕ → Bool) → Bool
  given none loads = false
  given (some name) loads = loads name

  -- init_difftest(ref_so_file, img_size, port).
  unfoldable pub open_difftest :
      Os → RefLib → Option (List ℕ) → ℕ → ℤ → Machine d r → Outcome (Machine d r)
  open_difftest os lib ref_so_file img_size port m = do
    guard (given ref_so_file os.can_load) assertion
    ok (record m {
      ref =
          init_difftest r m.cpu
            (lib.ref_difftest_memcpy m.host.pmem img_size (lib.ref_difftest_init port m.ref));
    })

  module _ (regexec : Regexec) (fuel : ℕ) where
    -- init_monitor(argc, argv); init_disasm() and welcome() only prepare and print messages.
    unfoldable pub init_monitor :
        Os → RefLib → List Opt → d.State → r.State → Outcome (Bool × Debugger d r regexec fuel)
    init_monitor os lib opts dut ref = do
      a ← parse_args os opts no_args
      (pmem, img_size) ← load_mem os a
      m ← npc_init d r (first_machine dut ref pmem)
      m' ← open_difftest os lib a.diff_so_file img_size a.difftest_port m
      guard os.can_compile assertion
      ok (a.is_batch_mode, record { machine = m'; pool = wp_init; screen = [] })

    -- main().
    unfoldable pub main :
        Os
        → RefLib
        → List Opt
        → d.State
        → r.State
        → List (List ℕ)
        → Outcome (Debugger d r regexec fuel)
    main os lib opts dut ref lines = do
      (is_batch_mode, s) ← init_monitor os lib opts dut ref
      sdb_mainloop d r regexec fuel is_batch_mode lines s
