-- ===== src/Am/Devices.antt =====
-- The serial port and the table of the device registers of abstract-machine/am/src/x86/qemu/ioe.c, over the models of the
-- other devices.
mod Tests
use cpu_linux.Prelude.{
  ℕ, ◌+◌, ◌*◌, ◌/◌, ◌%◌, ◌^◌, Bool, true, false, ◌==◌, assertion, Outcome, ok, stop, ◌>>=◌, ◌>>◌,
  guard,
}
use cpu_linux.Am.Bytes.{u16}
use cpu_linux.Am.Ports.{Ports}
use cpu_linux.Am.Gpu.{Fbdraw, gpu_fbdraw, vmem_size}
use cpu_linux.Am.Canvas.{Buffers, gpu_memcpy, gpu_render}
use cpu_linux.Am.Clock.{Rtc, Timer, timer_init, timer_rtc, timer_uptime}
use cpu_linux.Am.Disk.{Blkio, Buffer, blksz, disk_blkio}
use cpu_linux.Am.Keys.{Keybrd, input_keybrd}

abbrev pub com1 : ℕ
com1 = 0x3f8

-- `display` and the buffers of the GPU, `vmem`, the timer, and the devices behind the ports.
pub record Devices (io : Ports) : Type 0 where
  pub ports : io.State
  pub timer : Timer
  pub display_w : ℕ
  pub display_h : ℕ
  pub buffers : Buffers
  pub vmem : ℕ → ℕ

-- The registers with what their handlers read at `buf`: those of the GPU, those of the other devices, and those
-- without a handler.
pub data GpuRequest : Type 0 where
  gpu_config gpu_status : GpuRequest
  gpu_render_ : ℕ → GpuRequest
  gpu_fbdraw_ : Fbdraw → GpuRequest
  gpu_memcpy_ : (dest size : ℕ) → (ℕ → ℕ) → GpuRequest

pub data PortRequest : Type 0 where
  uart_config uart_rx timer_config timer_rtc_ timer_uptime_ input_config input_keybrd_ : PortRequest
  audio_config disk_config disk_status net_config : PortRequest
  uart_tx : ℕ → PortRequest
  disk_blkio_ : Blkio → Buffer → PortRequest

pub data Request : Type 0 where
  gpu : GpuRequest → Request
  port : PortRequest → Request
  other : Request

-- What a handler stores at `buf`.
pub data Answer : Type 0 where
  kept : Answer
  present ready : Bool → Answer
  timer_answer : (present has_rtc : Bool) → Answer
  received uptime : ℕ → Answer
  date : Rtc → Answer
  key : Keybrd → Answer
  gpu_answer : (present has_accel : Bool) (width height vmemsz : ℕ) → Answer
  disk_answer : (present : Bool) (blksz blkcnt : ℕ) → Answer
  buffer : Buffer → Answer

module _ (io : Ports) where
  unfoldable pub uart_init : io.State → io.State
  uart_init s =
      let s₁ = io.outb (com1 + 2) 0 s in
      let s₂ = io.outb (com1 + 3) 0x80 s₁ in
      let s₃ = io.outb (com1 + 0) (115_200 / 9_600) s₂ in
      let s₄ = io.outb (com1 + 1) 0 s₃ in
      let s₅ = io.outb (com1 + 3) 0x03 s₄ in
      let s₆ = io.outb (com1 + 4) 0 s₅ in
      let s₇ = io.outb (com1 + 1) 0x01 s₆ in
      let s₈ = (io.inb (com1 + 2) s₇).1 in (io.inb (com1 + 0) s₈).1

  unfoldable pub uart_tx_out : ℕ → io.State → io.State
  uart_tx_out data_ s = io.outb com1 (data_ % 256) s

  -- uart_rx(): -1 as a byte if nothing was received.
  unfoldable pub uart_rx_in : io.State → ℕ × io.State
  uart_rx_in s =
      let (status, s') = io.inb (com1 + 5) s in
      elim (status % 2 == 1) [ true ↦ io.inb com1 s' | false ↦ (255, s') ]

  -- input_keybrd() with its reads of the ports.
  unfoldable pub keybrd_in : io.State → Keybrd × io.State
  keybrd_in s =
      let (status, s') = io.inb 0x64 s in
      elim (status % 2 == 1) [
        | true ↦ let (value, s'') = io.inb 0x60 s' in (input_keybrd status value, s'')
        | false ↦ (input_keybrd status 0, s')
      ]

  -- gpu_init(), with the memory of the machine: the address of the frame buffer is left out.
  unfoldable pub gpu_init : (ℕ → ℕ) → Devices io → Devices io
  gpu_init mem d = record d { display_w = u16 mem (0x4000 + 18); display_h = u16 mem (0x4000 + 20) }

  -- ioe_init(), with the number of the processor.
  unfoldable pub ioe_init : ℕ → ℕ → ℕ → (ℕ → ℕ) → Devices io → Outcome (Devices io)
  unfolding uart_init gpu_init
  ioe_init cpu fuel waits mem d = do
    guard (cpu == 0) assertion
    (timer, s) ← timer_init io fuel waits (uart_init d.ports)
    ok (gpu_init mem (record d { ports = s; timer = timer }))

  -- The handlers that use the ports.
  unfoldable pub on_ports : ℕ → PortRequest → Devices io → Outcome (Answer × Devices io)
  unfolding uart_tx_out uart_rx_in keybrd_in
  on_ports fuel (uart_tx data_) d = ok (kept, record d { ports = uart_tx_out data_ d.ports })
  on_ports fuel uart_rx d =
      let (data_, s) = uart_rx_in d.ports in ok (received data_, record d { ports = s })
  on_ports fuel timer_rtc_ d =
      timer_rtc io fuel d.ports >>= λ x. ok (date x.0, record d { ports = x.1 })
  on_ports fuel timer_uptime_ d =
      timer_uptime io d.timer d.ports >>= λ x. ok (uptime x.0, record d { ports = x.1 })
  on_ports fuel input_keybrd_ d =
      let (k, s) = keybrd_in d.ports in ok (key k, record d { ports = s })
  on_ports fuel (disk_blkio_ bio buf) d =
      disk_blkio io fuel bio buf d.ports >>= λ x. ok (buffer x.0, record d { ports = x.1 })
  on_ports fuel uart_config d = ok (present true, d)
  on_ports fuel timer_config d = ok (timer_answer true true, d)
  on_ports fuel input_config d = ok (present true, d)
  on_ports fuel audio_config d = ok (present false, d)
  on_ports fuel disk_config d = ok (disk_answer true blksz (64 * 2 ^ 20 / blksz), d)
  on_ports fuel disk_status d = ok (ready true, d)
  on_ports fuel net_config d = ok (present false, d)

  -- The handlers of the GPU.
  unfoldable pub on_gpu : ℕ → GpuRequest → Devices io → Outcome (Answer × Devices io)
  on_gpu fuel gpu_config d = ok (gpu_answer true false d.display_w d.display_h vmem_size, d)
  on_gpu fuel gpu_status d = ok (ready true, d)
  on_gpu fuel (gpu_fbdraw_ draw) d = ok (
    kept,
    record d {
      buffers = record d.buffers { fb = gpu_fbdraw d.display_w d.display_h draw d.buffers.fb };
    },
  )
  on_gpu fuel (gpu_memcpy_ dest size src) d =
      gpu_memcpy dest size src d.vmem >>= λ vmem. ok (kept, record d { vmem = vmem })
  on_gpu fuel (gpu_render_ root) d =
      gpu_render d.vmem fuel root d.display_w d.buffers >>= λ g. ok (kept, record d { buffers = g })

  -- ioe_read(reg, buf) and ioe_write(reg, buf) after ioe_init(): the handler of the register, or fail().
  unfoldable pub ioe_read : ℕ → Request → Devices io → Outcome (Answer × Devices io)
  unfolding on_ports on_gpu
  ioe_read fuel (gpu r) d = on_gpu fuel r d
  ioe_read fuel (port r) d = on_ports fuel r d
  ioe_read fuel other d = stop assertion
