-- ===== src/Am/Boot/Heap.antt =====
-- Where the heap begins and ends.
use cpu_linux.Prelude.{ℕ, ◌+◌, ◌*◌, ◌/◌, ◌%◌, ◌^◌, ◌≤◌, ◌<◌, ◌≡◌, arith}
use cpu_linux.Am.Ports.{Ports}
use cpu_linux.Am.Boot.{heap_init}

-- If the clock's memory gives in its bytes 0x34 and 0x35 the number of units of 64 KB above 16 MB, and these end
-- below 4 GB: the heap begins at the first whole MB from the end of the program on, and ends with the memory.
pub heap_init_lem :
    (io : Ports) (units : ℕ)
    → ((s : io.State) → (io.inb 0x71 (io.outb 0x70 0x34 s)).0 ≡ units % 256)
    → ((s : io.State) → (io.inb 0x71 (io.outb 0x70 0x35 s)).0 ≡ units / 256)
    → (end_ : ℕ) (s : io.State) → end_ + 2 ^ 20 ≤ 2 ^ 32
    → 2 ^ 24 + units * 2 ^ 16 < 2 ^ 32
    → ((heap_init io end_ s).0.end ≡ 2 ^ 24 + units * 2 ^ 16)
      × (end_ ≤ (heap_init io end_ s).0.start)
      × ((heap_init io end_ s).0.start < end_ + 2 ^ 20)
      × ((heap_init io end_ s).0.start % 2 ^ 20 ≡ 0)
unfolding heap_init
heap_init_lem io units low high end_ s h k =
    let a = low s in
    let b = high (io.inb 0x71 (io.outb 0x70 0x34 s)).1 in
    (omega arith, omega arith, omega arith, omega arith)
