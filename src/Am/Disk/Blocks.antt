-- ===== src/Am/Disk/Blocks.antt =====
-- What disk_blkio() leaves on the disk and in the buffer.
use cpu_linux.Prelude.{
  ℕ, zero, suc, ◌+◌, ◌-◌, ◌*◌, ◌/◌, ◌%◌, ◌^◌, ◌≤◌, ◌<◌, ◌≡◌, refl, ap, ap₂, ◌∙◌, true, false, ◌&&◌,
  ltb, leb, ◌==◌, if◌then◌else◌, arith, ok,
}
use cpu_linux.Am.Ports.{Ports}
use cpu_linux.Am.Disk.{
  Blkio, Buffer, block_words, out_words, in_words, move_block, move_blocks, disk_blkio,
}
use cpu_linux.Am.Disk.Ata.{idle, Ata, IsAta}
use cpu_linux.Am.Disk.Commands.{commanded, opened_lem}
use cpu_linux.Am.Disk.Words.{out_words_lem, in_words_lem}

-- The first block and the others, written.
join_written :
    (b c n ptr b' k' : ℕ) (buf : Buffer) (old mid : ℕ)
    → c ≡ b + 1
    → mid ≡ (if b' == b && ltb k' block_words then buf (ptr + k') else old)
    → (if leb c b' && ltb b' (c + n) && ltb k' block_words
        then buf (ptr + block_words + (b' - c) * block_words + k')
        else mid)
      ≡ (if leb b b' && ltb b' (b + suc n) && ltb k' block_words
          then buf (ptr + (b' - b) * block_words + k')
          else old)
join_written b c n ptr b' k' buf old mid e m = ground (
  arith,
  m,
  λ (l : b < b').
      ap buf {x = ptr + block_words + (b' - c) * block_words + k'}
        {y = ptr + (b' - b) * block_words + k'} (omega arith),
  λ (l : b' ≡ b). ap buf {x = ptr + k'} {y = ptr + (b' - b) * block_words + k'} (omega arith),
)

-- The first block and the others, read.
join_read :
    (b c n ptr i : ℕ) (blocks blocks' : ℕ → ℕ → ℕ) (old mid : ℕ)
    → c ≡ b + 1
    → blocks' ≡ blocks
    → mid ≡ (if leb ptr i && ltb i (ptr + block_words) then blocks b (i - ptr) else old)
    → (if leb (ptr + block_words) i && ltb i (ptr + block_words + n * block_words)
        then blocks'
            (c + (i - (ptr + block_words)) / block_words)
            ((i - (ptr + block_words)) % block_words)
        else mid)
      ≡ (if leb ptr i && ltb i (ptr + suc n * block_words)
          then blocks (b + (i - ptr) / block_words) ((i - ptr) % block_words)
          else old)
join_read b c n ptr i blocks blocks' old mid e same m = ground (
  arith,
  m,
  λ (l : ptr + block_words ≤ i).
      ap (λ f. f (c + j / block_words) (j % block_words)) {x = blocks'} {y = blocks} same
      ∙ at (c + j / block_words) (b + (i - ptr) / block_words) (j % block_words)
          ((i - ptr) % block_words) (omega arith) (omega arith),
  λ (l : ptr ≤ i) (u : i < ptr + block_words).
      at b (b + (i - ptr) / block_words) (i - ptr) ((i - ptr) % block_words) (omega arith)
        (omega arith),
)
  where
    j : ℕ
    j = i - (ptr + block_words)

    at : (x y u v : ℕ) → x ≡ y → u ≡ v → blocks x u ≡ blocks y v
    at x y u v p q = ap₂ blocks p q

module _ (io : Ports) (view : io.State → Ata) (latency : ℕ) (ata : IsAta io view latency) where
  write_block :
      (fuel b ptr : ℕ) (buf : Buffer) (s : io.State)
      → latency < fuel
      → b < 2 ^ 28
      → (view s).phase ≡ idle
      → (s' : io.State) × (move_block io fuel true b ptr buf s ≡ ok (buf, s'))
        × ((view s').phase ≡ idle)
        × ((b' k' : ℕ)
            → (view s').blocks b' k'
              ≡ (if b' == b && ltb k' block_words then buf (ptr + k') else (view s).blocks b' k'))
  unfolding move_block commanded
  write_block fuel b ptr buf s l h free =
      let (ready', opened, e₁, e₂, w, v) = opened_lem io view latency ata fuel true b s l h free in
      let (p, q) =
        out_words_lem io view latency ata 127 0 ptr buf b opened refl w (ap (λ a. a.phase) v) in
      (
        out_words io block_words ptr buf opened,
        rw e₁ (rw e₂ refl),
        p,
        λ b' k'. q b' k' ∙ ground (arith, ap (λ a. a.blocks b' k') v),
      )

  read_block :
      (fuel b ptr : ℕ) (buf : Buffer) (s : io.State)
      → latency < fuel
      → b < 2 ^ 28
      → (view s).phase ≡ idle
      → (buf' : Buffer) × (s' : io.State) × (move_block io fuel false b ptr buf s ≡ ok (buf', s'))
        × ((view s').phase ≡ idle)
        × ((view s').blocks ≡ (view s).blocks)
        × ((i : ℕ)
            → buf' i ≡ (
                if leb ptr i && ltb i (ptr + block_words)
                then (view s).blocks b (i - ptr)
                else buf i))
  unfolding move_block commanded
  read_block fuel b ptr buf s l h free =
      let (ready', opened, e₁, e₂, w, v) = opened_lem io view latency ata fuel false b s l h free in
      let (p, q, r) =
        in_words_lem io view latency ata 127 0 ptr buf b opened refl w (ap (λ a. a.phase) v) in
      (
        (in_words io block_words ptr buf opened).0,
        (in_words io block_words ptr buf opened).1,
        rw e₁ (rw e₂ refl),
        p,
        q ∙ ap (λ a. a.blocks) v,
        λ i. r i ∙ ground (arith, ap (λ a. a.blocks b (i - ptr)) v),
      )

  -- The blocks from `b` on, one after the other.
  write_blocks :
      (fuel n b ptr : ℕ) (buf : Buffer) (s : io.State)
      → latency < fuel
      → b + n ≤ 2 ^ 28
      → (view s).phase ≡ idle
      → (s' : io.State) × (move_blocks io fuel true n b ptr buf s ≡ ok (buf, s'))
        × ((view s').phase ≡ idle)
        × ((b' k' : ℕ)
            → (view s').blocks b' k' ≡ (
                if leb b b' && ltb b' (b + n) && ltb k' block_words
                then buf (ptr + (b' - b) * block_words + k')
                else (view s).blocks b' k'))
  unfolding move_blocks
  write_blocks fuel zero b ptr buf s l h free = (s, refl, free, λ b' k'. ground arith)
  write_blocks fuel (suc n) b ptr buf s l h free =
      let (s₁, e₁, p₁, q₁) = write_block fuel b ptr buf s l (omega arith) free in
      let (s₂, e₂, p₂, q₂) =
        write_blocks fuel n ((b + 1) % 2 ^ 32) (ptr + block_words) buf s₁ l (omega arith) p₁ in
      (
        s₂,
        rw e₁ e₂,
        p₂,
        λ b' k'. q₂ b' k' ∙ join_written b _ n ptr b' k' buf _ _ (omega arith) (q₁ b' k'),
      )

  read_blocks :
      (fuel n b ptr : ℕ) (buf : Buffer) (s : io.State)
      → latency < fuel
      → b + n ≤ 2 ^ 28
      → (view s).phase ≡ idle
      → (buf' : Buffer) × (s' : io.State) × (move_blocks io fuel false n b ptr buf s
          ≡ ok (buf', s'))
        × ((view s').phase ≡ idle)
        × ((view s').blocks ≡ (view s).blocks)
        × ((i : ℕ)
            → buf' i ≡ (
                if leb ptr i && ltb i (ptr + n * block_words)
                then (view s).blocks (b + (i - ptr) / block_words) ((i - ptr) % block_words)
                else buf i))
  unfolding move_blocks
  read_blocks fuel zero b ptr buf s l h free = (buf, s, refl, free, refl, λ i. ground arith)
  read_blocks fuel (suc n) b ptr buf s l h free =
      let (buf₁, s₁, e₁, p₁, q₁, r₁) = read_block fuel b ptr buf s l (omega arith) free in
      let (buf₂, s₂, e₂, p₂, q₂, r₂) =
        read_blocks fuel n ((b + 1) % 2 ^ 32) (ptr + block_words) buf₁ s₁ l (omega arith) p₁ in
      (
        buf₂,
        s₂,
        rw e₁ e₂,
        p₂,
        q₂ ∙ q₁,
        λ i. r₂ i ∙ join_read b _ n ptr i _ _ _ _ (omega arith) q₁ (r₁ i),
      )

not_cut :
    (io : Ports) (fuel : ℕ) (bio : Blkio) (buf : Buffer) (s : io.State)
    → bio.blkno + bio.blkcnt ≤ 2 ^ 28
    → disk_blkio io fuel bio buf s ≡ move_blocks io fuel bio.write bio.blkcnt bio.blkno 0 buf s
unfolding disk_blkio
not_cut io fuel bio buf s h =
    ap₂ (λ n b. move_blocks io fuel bio.write n b 0 buf s) {x = bio.blkcnt % 2 ^ 32}
      {y = bio.blkcnt} (omega arith) (omega arith)

-- Writing blocks, all with numbers below 2^28, to a controller that is busy for less reads of its status than
-- there is fuel, and where no block is under way: disk_blkio() ends, leaves the buffer as it was, and the
-- blocks hold its words one after the other; no other block is changed.
pub disk_blkio_write :
    (io : Ports) (view : io.State → Ata) (latency : ℕ)
    → IsAta io view latency
    → (fuel : ℕ) (bio : Blkio) (buf : Buffer) (s : io.State) → latency < fuel
    → bio.write ≡ true
    → bio.blkno + bio.blkcnt ≤ 2 ^ 28
    → (view s).phase ≡ idle
    → (s' : io.State) × (disk_blkio io fuel bio buf s ≡ ok (buf, s'))
      × ((view s').phase ≡ idle)
      × ((b k : ℕ)
          → (view s').blocks b k ≡ (
              if leb bio.blkno b && ltb b (bio.blkno + bio.blkcnt) && ltb k block_words
              then buf ((b - bio.blkno) * block_words + k)
              else (view s).blocks b k))
disk_blkio_write io view latency ata fuel bio buf s l w h free =
    let (s', e, p, q) =
      write_blocks io view latency ata fuel bio.blkcnt bio.blkno 0 buf s l h free in
    (
      s',
      not_cut io fuel bio buf s h
          ∙ ap (λ b. move_blocks io fuel b bio.blkcnt bio.blkno 0 buf s) w
          ∙ e,
      p,
      λ b k.
          q b k
          ∙ ap
              (λ i.
                if leb bio.blkno b && ltb b (bio.blkno + bio.blkcnt) && ltb k block_words
                then buf i
                else (view s).blocks b k)
              {x = 0 + (b - bio.blkno) * block_words + k} {y = (b - bio.blkno) * block_words + k}
              (omega arith),
    )

-- Reading blocks, all with numbers below 2^28, from a controller that is busy for less reads of its status than
-- there is fuel, and where no block is under way: disk_blkio() ends and leaves the disk as it was. The buffer
-- holds the words of the blocks one after the other, and behind them what it held.
pub disk_blkio_read :
    (io : Ports) (view : io.State → Ata) (latency : ℕ)
    → IsAta io view latency
    → (fuel : ℕ) (bio : Blkio) (buf : Buffer) (s : io.State) → latency < fuel
    → bio.write ≡ false
    → bio.blkno + bio.blkcnt ≤ 2 ^ 28
    → (view s).phase ≡ idle
    → (buf' : Buffer) × (s' : io.State) × (disk_blkio io fuel bio buf s ≡ ok (buf', s'))
      × ((view s').phase ≡ idle)
      × ((view s').blocks ≡ (view s).blocks)
      × ((i : ℕ)
          → buf' i ≡ (
              if ltb i (bio.blkcnt * block_words)
              then (view s).blocks (bio.blkno + i / block_words) (i % block_words)
              else buf i))
disk_blkio_read io view latency ata fuel bio buf s l w h free =
    let (buf', s', e, p, q, r) =
      read_blocks io view latency ata fuel bio.blkcnt bio.blkno 0 buf s l h free in
    (
      buf',
      s',
      not_cut io fuel bio buf s h
          ∙ ap (λ b. move_blocks io fuel b bio.blkcnt bio.blkno 0 buf s) w
          ∙ e,
      p,
      q,
      λ i. r i ∙ ground arith,
    )

-- Blocks that were written are read back: with all numbers below 2^28, a controller that is busy for less reads
-- of its status than there is fuel, and no block under way, writing blocks and then reading them into
-- another buffer ends, and this buffer begins with the words that were written.
pub disk_blkio_read-disk_blkio_write :
    (io : Ports) (view : io.State → Ata) (latency : ℕ)
    → IsAta io view latency
    → (fuel blkno blkcnt : ℕ) (buf other : Buffer) (s : io.State) → latency < fuel
    → blkno + blkcnt ≤ 2 ^ 28
    → (view s).phase ≡ idle
    → (s' : io.State) × (s'' : io.State) × (back : Buffer) × (disk_blkio io fuel
          (record { write = true; blkno = blkno; blkcnt = blkcnt })
          buf
          s
        ≡ ok (buf, s'))
      × (disk_blkio io fuel (record { write = false; blkno = blkno; blkcnt = blkcnt }) other s'
          ≡ ok (back, s''))
      × ((i : ℕ) → i < blkcnt * block_words → back i ≡ buf i)
disk_blkio_read-disk_blkio_write io view latency ata fuel blkno blkcnt buf other s l h free =
    let (s', e, p, q) =
      disk_blkio_write io view latency ata fuel
        (record { write = true; blkno = blkno; blkcnt = blkcnt }) buf s l refl h free in
    let (back, s'', e', p', same, r) =
      disk_blkio_read io view latency ata fuel
        (record { write = false; blkno = blkno; blkcnt = blkcnt }) other s' l refl h p in
    (
      s',
      s'',
      back,
      e,
      e',
      λ i lt.
          r i
          ∙ ground (
            arith,
            q (blkno + i / block_words) (i % block_words),
            ap buf {x = (blkno + i / block_words - blkno) * block_words + i % block_words} {y = i}
                (omega arith),
          ),
    )
