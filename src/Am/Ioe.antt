-- ===== src/Am/Ioe.antt =====
-- The devices of abstract-machine/am: riscv/npc/{ioe,timer,input}.c, and platform/nemu/ioe/*.c for the machines of
-- NEMU, with the registers of am/include/amdev.h by their numbers.
pub mod Routes
mod Tests
use cpu_linux.Prelude.{
  ℕ, zero, suc, ◌+◌, Bool, true, false, List, [], ◌∷◌, ltb, ◌==◌, if◌then◌else◌, assertion,
  undefined, Outcome, ok, stop,
}
use cpu_linux.Am.Keys.{Keybrd, key_none}

-- What a handler stores at `buf`. One that stores nothing leaves it `kept`.
pub data Reading : Type 0 where
  kept : Reading
  timer_config : Bool → Bool → Reading
  timer_rtc : (year month day hour minute second : ℕ) → Reading
  timer_uptime : ℕ → Reading
  input_config : Bool → Reading
  keybrd : Keybrd → Reading
  uart_config : Bool → Reading
  gpu_config : (present has_accel : Bool) (width height vmemsz : ℕ) → Reading
  gpu_status : Bool → Reading
  audio_config : Bool → Reading
  audio_status : ℕ → Reading
  disk_config : Bool → Reading
  net_config : Bool → Reading

-- The device memory: the 64 bits at RTC_ADDR, and the words that outl() wrote, the last one first. `sync` is
-- the field of AM_GPU_FBDRAW_T at `buf`.
pub record Mmio : Type 0 where
  pub rtc : ℕ
  pub sync : Bool
  pub written : List (ℕ × ℕ)

abbrev pub Handler : Type 0
Handler = Mmio → Reading × Mmio

-- A handler that only stores something.
abbrev pub stores : Reading → Handler
stores r io = (r, io)

-- __am_timer_uptime() and __am_timer_rtc() of riscv/npc/timer.c.
unfoldable pub npc_timer_uptime : Handler
npc_timer_uptime = stores (timer_uptime 0)

unfoldable pub am_timer_rtc : Handler
am_timer_rtc = stores (timer_rtc 1900 0 0 0 0 0)

-- __am_input_keybrd() of riscv/npc/input.c and platform/nemu/ioe/input.c.
unfoldable pub no_keybrd : Handler
no_keybrd = stores (keybrd (record { keydown = false; keycode = key_none }))

-- The rows of `lut` in riscv/npc/ioe.c.
abbrev pub npc_lut : List (ℕ × Handler)
npc_lut =
    (4, stores (timer_config true true))
    ∷ (5, am_timer_rtc)
    ∷ (6, npc_timer_uptime)
    ∷ (7, stores (input_config true))
    ∷ (8, no_keybrd)
    ∷ (1, stores (uart_config false))
    ∷ []

-- __am_timer_uptime() of platform/nemu/ioe/timer.c.
unfoldable pub nemu_timer_uptime : Handler
nemu_timer_uptime io = (timer_uptime io.rtc, io)

-- SYNC_ADDR.
abbrev pub sync_addr : ℕ
sync_addr = 0xa000_0000 + 0x100 + 4

-- The handlers of platform/nemu/ioe/gpu.c.
unfoldable pub gpu_config_handler : Handler
gpu_config_handler = stores (gpu_config true false 0 0 0)

unfoldable pub nemu_gpu_fbdraw : Handler
nemu_gpu_fbdraw io =
    (kept, if io.sync then record io { written = (sync_addr, 1) ∷ io.written } else io)

unfoldable pub gpu_status_handler : Handler
gpu_status_handler = stores (gpu_status true)

-- The rows of `lut` in platform/nemu/ioe/ioe.c, with the handlers of audio.c and disk.c.
abbrev pub nemu_lut : List (ℕ × Handler)
nemu_lut =
    (4, stores (timer_config true true))
    ∷ (5, am_timer_rtc)
    ∷ (6, nemu_timer_uptime)
    ∷ (7, stores (input_config true))
    ∷ (8, no_keybrd)
    ∷ (9, gpu_config_handler)
    ∷ (11, nemu_gpu_fbdraw)
    ∷ (10, gpu_status_handler)
    ∷ (1, stores (uart_config false))
    ∷ (14, stores (audio_config false))
    ∷ (15, stores kept)
    ∷ (16, stores (audio_status 0))
    ∷ (17, stores kept)
    ∷ (18, stores (disk_config false))
    ∷ (19, stores kept)
    ∷ (20, stores kept)
    ∷ (21, stores (net_config false))
    ∷ []

-- A pointer in `lut`.
pub data Slot : Type 0 where
  null fail : Slot
  handler : Handler → Slot

abbrev pub lut_len : ℕ
lut_len = 128

unfoldable pub initial_lut : List (ℕ × Handler) → ℕ → Slot
initial_lut [] reg = null
initial_lut (row ∷ rows) reg =
    let rest = initial_lut rows reg in if row.0 == reg then handler row.1 else rest

abbrev pub fill_slot : Slot → Slot
fill_slot null = fail
fill_slot s = s

-- The loop of ioe_init() over the first `n` pointers.
unfoldable pub ioe_init : ℕ → (ℕ → Slot) → ℕ → Slot
ioe_init zero lut reg = lut reg
ioe_init (suc n) lut reg = if reg == n then fill_slot (lut n) else ioe_init n lut reg

-- A call of the pointer: fail() panics.
abbrev pub call : Slot → Mmio → Outcome (Reading × Mmio)
call null io = stop undefined
call fail io = stop assertion
call (handler h) io = ok (h io)

-- ioe_read(reg, buf); ioe_write() has the same body.
unfoldable pub ioe_read : (ℕ → Slot) → ℕ → Mmio → Outcome (Reading × Mmio)
ioe_read lut reg io = if ltb reg lut_len then call (lut reg) io else stop undefined
