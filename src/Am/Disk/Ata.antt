-- ===== src/Am/Disk/Ata.antt =====
-- What the driver relies on of the controller, from the standard for ATA disks: its registers, the
-- command's phase, and the blocks that it stores.
use cpu_linux.Prelude.{
  ℕ, ◌+◌, ◌*◌, ◌/◌, ◌%◌, ◌^◌, ◌≤◌, ◌<◌, ◌≡◌, Bool, true, false, not, ◌&&◌, ◌==◌, if◌then◌else◌,
}
use cpu_linux.Am.Ports.{Ports}
use cpu_linux.Am.Disk.{block_words}

-- A command in progress, with the block and the index of the next word.
pub data Phase : Type 0 where
  idle : Phase
  reading writing : ℕ → ℕ → Phase

-- A block is under way.
abbrev pub under_way : Phase → Bool
under_way idle = false
under_way (reading b k) = true
under_way (writing b k) = true

pub record Ata : Type 0 where
  pub blocks : ℕ → ℕ → ℕ
  pub count : ℕ
  pub lba_low : ℕ
  pub lba_mid : ℕ
  pub lba_high : ℕ
  pub device : ℕ
  pub phase : Phase

-- The address of a block has 28 bits, four of them in the register for the device.
abbrev pub lba : Ata → ℕ
lba a = a.lba_low + 2 ^ 8 * a.lba_mid + 2 ^ 16 * a.lba_high + 2 ^ 24 * (a.device % 16)

-- The commands to read and to write one block, which is addressed by its number, if none is under way.
abbrev pub start : ℕ → Ata → Phase
start code a =
    if not (under_way a.phase) && a.count == 1 && a.device / 64 % 2 == 1
    then (if code == 0x20
        then reading (lba a) 0
        else if code == 0x30
        then writing (lba a) 0
        else a.phase)
    else a.phase

abbrev pub set_register : ℕ → ℕ → Ata → Ata
set_register port v a =
    if port == 0x1f2
    then record a { count = v }
    else if port == 0x1f3
    then record a { lba_low = v }
    else if port == 0x1f4
    then record a { lba_mid = v }
    else if port == 0x1f5
    then record a { lba_high = v }
    else if port == 0x1f6
    then record a { device = v }
    else if port == 0x1f7
    then record a { phase = start v a }
    else a

abbrev pub put_block : (ℕ → ℕ → ℕ) → ℕ → ℕ → ℕ → ℕ → ℕ → ℕ
put_block blocks b k v b' k' = if b' == b && k' == k then v else blocks b' k'

-- The data register: a word of the block, and the next index.
abbrev pub next_word : Ata → Phase → ℕ
next_word a (reading b k) = a.blocks b k
next_word a p = 0

abbrev pub after_in : Phase → Phase
after_in (reading b k) = if k + 1 == block_words then idle else reading b (k + 1)
after_in p = p

abbrev pub after_out : Phase → Phase
after_out (writing b k) = if k + 1 == block_words then idle else writing b (k + 1)
after_out p = p

abbrev pub stored : ℕ → Phase → (ℕ → ℕ → ℕ) → ℕ → ℕ → ℕ
stored v (writing b k) blocks = put_block blocks b k v
stored v p blocks = blocks

abbrev pub take_word : Ata → Ata
take_word a = record a { phase = after_in a.phase }

abbrev pub put_word : ℕ → Ata → Ata
put_word v a = record a { blocks = stored v a.phase a.blocks; phase = after_out a.phase }

-- The ports lead to such a controller, which may be busy after a command or a block, for at most `latency`
-- reads of its status. It is then ready, and stays so until the next command or the end of the block.
pub record IsAta (io : Ports) (view : io.State → Ata) (latency : ℕ) : Type 0 where
  pub busy : io.State → ℕ
  pub busy_le : (s : io.State) → busy s ≤ latency
  pub ready :
      (s : io.State)
      → busy s ≡ 0
      → ((io.inb 0x1f7 s).0 / 64 % 4 ≡ 1) × (busy (io.inb 0x1f7 s).1 ≡ 0)
  pub waiting :
      (s : io.State)
      → 0 < busy s
      → ((io.inb 0x1f7 s).0 / 128 % 2 ≡ 1) × (busy (io.inb 0x1f7 s).1 < busy s)
  pub view-status : (s : io.State) → view (io.inb 0x1f7 s).1 ≡ view s
  pub view-outb : (p v : ℕ) (s : io.State) → view (io.outb p v s) ≡ set_register p v (view s)
  pub view-inl :
      (s : io.State)
      → busy s ≡ 0
      → ((io.inl 0x1f0 s).0 ≡ next_word (view s) (view s).phase)
        × (view (io.inl 0x1f0 s).1 ≡ take_word (view s))
        × (under_way (after_in (view s).phase) ≡ true → busy (io.inl 0x1f0 s).1 ≡ 0)
  pub view-outl :
      (v : ℕ) (s : io.State)
      → busy s ≡ 0
      → (view (io.outl 0x1f0 v s) ≡ put_word v (view s))
        × (under_way (after_out (view s).phase) ≡ true → busy (io.outl 0x1f0 v s) ≡ 0)
