-- ===== src/Am/Disk/Tests.antt =====
-- A controller that is busy for one read of its status after each command and each block.
use cpu_linux.Prelude.{
  ℕ, ◌+◌, ◌-◌, ◌*◌, ◌/◌, ◌%◌, ◌<◌, ◌≡◌, refl, Bool, true, false, not, ◌&&◌, ◌||◌, ltb, leb, ◌==◌,
  if◌then◌else◌, arith, ok,
}
use cpu_linux.Am.Ports.{Ports}
use cpu_linux.Am.Disk.{Blkio, Buffer, block_words, disk_blkio}
use cpu_linux.Am.Disk.Ata.{
  Ata, idle, set_register, next_word, take_word, put_word, after_in, after_out, under_way, IsAta,
}
use cpu_linux.Am.Disk.Blocks.{disk_blkio_write, disk_blkio_read, disk_blkio_read-disk_blkio_write}

abbrev drive : Ports
drive = record {
  State = Ata × Bool;
  inb = λ p s. if p == 0x1f7 && not s.1 then (0x50, s) else (0xd0, (s.0, false));
  inl = λ p s. (next_word s.0 s.0.phase, (take_word s.0, not (under_way (after_in s.0.phase))));
  outb = λ p v s. (set_register p v s.0, s.1 || p == 0x1f7);
  outl = λ p v s. (put_word v s.0, not (under_way (after_out s.0.phase)));
  rdtsc = λ s. (0, s);
}

drive-IsAta : IsAta drive (λ s. s.0) 1
drive-IsAta = record {
  busy = λ s. if s.1 then 1 else 0;
  busy_le = λ s. ground arith;
  ready = λ s h. ground arith;
  waiting = λ s h. ground arith;
  view-status = λ s. ground arith;
  view-outb = λ p v s. refl;
  view-inl = λ s h. (refl, refl, λ u. ground arith);
  view-outl = λ v s h. (refl, λ u. ground arith);
}

-- Block b holds the words 1000 b + k.
abbrev fresh : Ata
fresh = record {
  blocks = λ b k. 1000 * b + k;
  count = 0;
  lba_low = 0;
  lba_mid = 0;
  lba_high = 0;
  device = 0;
  phase = idle;
}

abbrev counting : Buffer
counting i = i + 7

abbrev view : Ata × Bool → Ata
view s = s.0

abbrev outward : Blkio
outward = record { write = true; blkno = 70_000; blkcnt = 2 }

abbrev inward : Blkio
inward = record { write = false; blkno = 70_000; blkcnt = 2 }

disk_blkio_write_example :
    (s' : Ata × Bool) × (disk_blkio drive 2 outward counting (fresh, false) ≡ ok (counting, s'))
    × ((view s').phase ≡ idle)
    × ((b k : ℕ)
        → (view s').blocks b k ≡ (
            if leb 70_000 b && ltb b (70_000 + 2) && ltb k block_words
            then counting ((b - 70_000) * block_words + k)
            else fresh.blocks b k))
disk_blkio_write_example =
    disk_blkio_write drive view 1 drive-IsAta 2 outward counting (fresh, false) (omega arith) refl
      (omega arith) refl

disk_blkio_read_example :
    (buf' : Buffer) × (s' : Ata × Bool) × (disk_blkio drive 2 inward counting (fresh, false)
      ≡ ok (buf', s'))
    × ((view s').phase ≡ idle)
    × ((view s').blocks ≡ fresh.blocks)
    × ((i : ℕ)
        → buf' i ≡ (
            if ltb i (2 * block_words)
            then fresh.blocks (70_000 + i / block_words) (i % block_words)
            else counting i))
disk_blkio_read_example =
    disk_blkio_read drive view 1 drive-IsAta 2 inward counting (fresh, false) (omega arith) refl
      (omega arith) refl

disk_blkio_read-disk_blkio_write_example :
    (s' : Ata × Bool) × (s'' : Ata × Bool) × (back : Buffer) × (disk_blkio drive 2 outward counting
        (fresh, false)
      ≡ ok (counting, s'))
    × (disk_blkio drive 2 inward (λ i. 0) s' ≡ ok (back, s''))
    × ((i : ℕ) → i < 2 * block_words → back i ≡ counting i)
disk_blkio_read-disk_blkio_write_example =
    disk_blkio_read-disk_blkio_write drive view 1 drive-IsAta 2 70_000 2 counting (λ i. 0)
      (fresh, false) (omega arith) (omega arith) refl
