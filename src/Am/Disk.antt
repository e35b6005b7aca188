-- ===== src/Am/Disk.antt =====
-- The disk of abstract-machine/am/src/x86/qemu/ioe.c: blocks are moved word by word through the ports of an
-- ATA controller. The buffer is a function from the index of a word to the word.
pub mod Ata
pub mod Blocks
mod Commands
mod Words
mod Tests
use cpu_linux.Prelude.{
  ℕ, zero, suc, ◌+◌, ◌*◌, ◌/◌, ◌%◌, ◌^◌, Bool, ◌==◌, if◌then◌else◌, out_of_fuel, Outcome, ok, stop,
  ◌>>=◌,
}
use cpu_linux.Am.Ports.{Ports}

-- BLKSZ, and the words of a block.
abbrev pub blksz : ℕ
blksz = 512

abbrev pub block_words : ℕ
block_words = blksz / 4

-- AM_DISK_BLKIO_T; `buf` is apart.
pub record Blkio : Type 0 where
  pub write : Bool
  pub blkno : ℕ
  pub blkcnt : ℕ

abbrev pub Buffer : Type 0
Buffer = ℕ → ℕ

module _ (io : Ports) where
  -- wait_disk(), with fuel: bits 6 and 7 of the status.
  unfoldable pub wait_disk : ℕ → io.State → Outcome io.State
  wait_disk zero s = stop out_of_fuel
  wait_disk (suc fuel) s =
      let (status, s') = io.inb 0x1f7 s in
      let rest = wait_disk fuel s' in if status / 64 % 4 == 1 then ok s' else rest

  -- The six outb() of a round, each of a byte; the last but one sets bits 5 to 7.
  unfoldable pub command : Bool → ℕ → io.State → io.State
  command write blkno s = io.outb 0x1f7 (if write then 0x30 else 0x20) (
      io.outb 0x1f6 (0xe0 + blkno / 2 ^ 24 % 32) (
        io.outb 0x1f5 (blkno / 2 ^ 16 % 256)
          (io.outb 0x1f4 (blkno / 2 ^ 8 % 256) (io.outb 0x1f3 (blkno % 256) (io.outb 0x1f2 1 s)))))

  -- The inner loops, with `n` rounds left and `ptr` at the index given.
  unfoldable pub out_words : ℕ → ℕ → Buffer → io.State → io.State
  out_words zero ptr buf s = s
  out_words (suc n) ptr buf s = out_words n (ptr + 1) buf (io.outl 0x1f0 (buf ptr) s)

  unfoldable pub in_words : ℕ → ℕ → Buffer → io.State → Buffer × io.State
  in_words zero ptr buf s = (buf, s)
  in_words (suc n) ptr buf s =
      let (word, s') = io.inl 0x1f0 s in
      in_words n (ptr + 1) (λ i. if i == ptr then word else buf i) s'

  -- A round of disk_blkio().
  unfoldable pub move_block : ℕ → Bool → ℕ → ℕ → Buffer → io.State → Outcome (Buffer × io.State)
  unfolding wait_disk command out_words in_words
  move_block fuel write blkno ptr buf s = do
    ready ← wait_disk fuel s
    opened ← wait_disk fuel (command write blkno ready)
    ok (
        if write
        then (buf, out_words block_words ptr buf opened)
        else in_words block_words ptr buf opened)

  -- The loop with `remain` rounds left.
  unfoldable pub move_blocks :
      ℕ → Bool → ℕ → ℕ → ℕ → Buffer → io.State → Outcome (Buffer × io.State)
  unfolding move_block
  move_blocks fuel write zero blkno ptr buf s = ok (buf, s)
  move_blocks fuel write (suc remain) blkno ptr buf s = do
    (buf', s') ← move_block fuel write blkno ptr buf s
    move_blocks fuel write remain ((blkno + 1) % 2 ^ 32) (ptr + block_words) buf' s'

  -- disk_blkio(bio): `blkno` and `blkcnt` are cut to 32 bits.
  unfoldable pub disk_blkio : ℕ → Blkio → Buffer → io.State → Outcome (Buffer × io.State)
  unfolding move_blocks
  disk_blkio fuel bio buf s =
      move_blocks fuel bio.write (bio.blkcnt % 2 ^ 32) (bio.blkno % 2 ^ 32) 0 buf s
