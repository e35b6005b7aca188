-- ===== src/Am/Devices/Tests.antt =====
-- A program that uses the serial port and draws a texture.
use cpu_linux.Prelude.{
  ℕ, ◌+◌, ◌*◌, ◌≡◌, refl, List, [], ◌∷◌, ◌==◌, if◌then◌else◌, get_or, Outcome, ok, stop, assertion,
  ◌>>=◌,
}
use cpu_linux.Am.Ports.{Ports}
use cpu_linux.Am.Gpu.{Pixel}
use cpu_linux.Am.Canvas.{
  node_at, read_pixel, write_pixel, cell_in_range, blit_column, blit, render, gpu_render, black,
}
use cpu_linux.Am.Devices.{
  Devices, Request, uart_tx, uart_rx, disk_status, gpu, port, other, gpu_render_, received,
  on_ports, on_gpu, uart_tx_out, uart_rx_in, ioe_read,
}

-- The bytes sent, and one that waits to be read.
abbrev line : Ports
line = record {
  State = List ℕ;
  inb = λ p s. (if p == 0x3f8 + 5 then 1 else 66, s);
  inl = λ p s. (0, s);
  outb = λ p v s. v ∷ s;
  outl = λ p v s. s;
  rdtsc = λ s. (0, s);
}

abbrev bytes : List ℕ
bytes =
    1 ∷ 0 ∷ 0 ∷ 0 ∷ 0 ∷ 0 ∷ 1 ∷ 0 ∷ 0 ∷ 0 ∷ 2 ∷ 0 ∷ 2 ∷ 0 ∷ 255 ∷ 255 ∷ 255 ∷ 255 ∷ 1 ∷ 0 ∷ 1 ∷ 0
    ∷ 26 ∷ 0 ∷ 0 ∷ 0 ∷ 7 ∷ 8 ∷ 9 ∷ []

abbrev vmem : ℕ → ℕ
vmem p = get_or bytes p 0

abbrev pixel : ℕ → Pixel
pixel k = record { b = vmem (26 + 3 * k); g = vmem (26 + 3 * k + 1); r = vmem (26 + 3 * k + 2) }

abbrev machine : List ℕ → Devices line
machine sent = record {
  ports = sent;
  timer = record {
    boot_date = record { year = 2023; month = 1; day = 1; hour = 0; minute = 0; second = 0 };
    freq_mhz = 2000;
    uptsc = 0;
  };
  display_w = 4;
  display_h = 2;
  buffers = record { fb = λ q. black; vbuf = λ q. black; vbuf_head = 0 };
  vmem = vmem;
}

-- Uses of registers, one after the other.
abbrev use_all : List Request → Devices line → Outcome (Devices line)
use_all [] d = ok d
use_all (r ∷ rs) d = ioe_read line 1 r d >>= λ x. use_all rs x.1

abbrev uses : List Request
uses = port (uart_tx 72) ∷ port uart_rx ∷ port disk_status ∷ port (uart_tx 105) ∷ []

uses_run : use_all uses (machine []) ≡ ok (machine (105 ∷ 72 ∷ []))
unfolding ioe_read on_ports uart_tx_out uart_rx_in
uses_run = refl

received_run : ioe_read line 1 (port uart_rx) (machine []) ≡ ok (received 66, machine [])
unfolding ioe_read on_ports uart_rx_in
received_run = refl

other_run : ioe_read line 1 other (machine []) ≡ stop assertion
unfolding ioe_read
other_run = refl

shown_after : (X Y : ℕ) → Outcome (Devices line) → Pixel
shown_after X Y (ok d) = d.buffers.fb (4 * Y + X)
shown_after X Y (stop why) = black

-- GPU_RENDER after them.
render_run : shown_after 2 1 (use_all (gpu (gpu_render_ 0) ∷ []) (machine [])) ≡ pixel 0
unfolding shown_after ioe_read on_gpu gpu_render render blit blit_column cell_in_range write_pixel
    read_pixel node_at
render_run = refl
