-- ===== src/Am/Disk/Words.antt =====
-- The words of a block, one after the other through the data register.
use cpu_linux.Prelude.{
  ℕ, zero, suc, ◌+◌, ◌-◌, ◌<◌, ◌≡◌, ap, ◌∙◌, ◌&&◌, ltb, leb, ◌==◌, if◌then◌else◌, arith,
}
use cpu_linux.Am.Ports.{Ports}
use cpu_linux.Am.Disk.{Buffer, block_words, out_words, in_words}
use cpu_linux.Am.Disk.Ata.{
  idle, reading, writing, Ata, next_word, after_in, after_out, stored, IsAta, put_block, under_way,
}

module _ (io : Ports) (view : io.State → Ata) (latency : ℕ) (ata : IsAta io view latency) where
  open ata use {busy, view-inl, view-outl}

  out_word :
      (v b k : ℕ) (s : io.State)
      → busy s ≡ 0
      → (view s).phase ≡ writing b k
      → ((view (io.outl 0x1f0 v s)).phase ≡ after_out (writing b k))
        × ((view (io.outl 0x1f0 v s)).blocks ≡ put_block (view s).blocks b k v)
        × (k + 1 < block_words → busy (io.outl 0x1f0 v s) ≡ 0)
  out_word v b k s w h =
      let (e, later) = view-outl v s w in
      (
        ap (λ a. a.phase) e ∙ ap after_out h,
        ap (λ a. a.blocks) e ∙ ap (λ p. stored v p (view s).blocks) h,
        λ lt. later (ap (λ p. under_way (after_out p)) h ∙ ground arith),
      )

  in_word :
      (b k : ℕ) (s : io.State)
      → busy s ≡ 0
      → (view s).phase ≡ reading b k
      → ((io.inl 0x1f0 s).0 ≡ (view s).blocks b k)
        × ((view (io.inl 0x1f0 s).1).phase ≡ after_in (reading b k))
        × ((view (io.inl 0x1f0 s).1).blocks ≡ (view s).blocks)
        × (k + 1 < block_words → busy (io.inl 0x1f0 s).1 ≡ 0)
  in_word b k s w h =
      let (r, e, later) = view-inl s w in
      (
        r ∙ ap (next_word (view s)) h,
        ap (λ a. a.phase) e ∙ ap after_in h,
        ap (λ a. a.blocks) e,
        λ lt. later (ap (λ p. under_way (after_in p)) h ∙ ground arith),
      )

  -- The rest of a block is written, from word `k` on.
  pub out_words_lem :
      (n k ptr : ℕ) (buf : Buffer) (b : ℕ) (s : io.State)
      → k + suc n ≡ block_words
      → busy s ≡ 0
      → (view s).phase ≡ writing b k
      → ((view (out_words io (suc n) ptr buf s)).phase ≡ idle)
        × ((b' k' : ℕ)
            → (view (out_words io (suc n) ptr buf s)).blocks b' k' ≡ (
                if b' == b && leb k k' && ltb k' block_words
                then buf (ptr + (k' - k))
                else (view s).blocks b' k'))
  unfolding out_words
  out_words_lem zero k ptr buf b s e w h =
      let (p, q, later) = out_word (buf ptr) b k s w h in
      (
        p ∙ ground arith,
        λ b' k'.
            ap (λ f. f b' k') q
            ∙ ground (arith, λ (l : k' ≡ k). ap buf {x = ptr} {y = ptr + (k' - k)} (omega arith)),
      )
  out_words_lem (suc n) k ptr buf b s e w h =
      let (p, q, later) = out_word (buf ptr) b k s w h in
      let (p', q') =
        out_words_lem n (k + 1) (ptr + 1) buf b (io.outl 0x1f0 (buf ptr) s) (omega arith)
          (later (omega arith)) (p ∙ ground arith) in
      (
        p',
        λ b' k'.
            q' b' k'
            ∙ ground (
              arith,
              ap (λ f. f b' k') q,
              λ (l : k < k').
                  ap buf {x = ptr + 1 + (k' - (k + 1))} {y = ptr + (k' - k)} (omega arith),
              λ (l : k' ≡ k). ap buf {x = ptr} {y = ptr + (k' - k)} (omega arith),
            ),
      )

  pub in_words_lem :
      (n k ptr : ℕ) (buf : Buffer) (b : ℕ) (s : io.State)
      → k + suc n ≡ block_words
      → busy s ≡ 0
      → (view s).phase ≡ reading b k
      → ((view (in_words io (suc n) ptr buf s).1).phase ≡ idle)
        × ((view (in_words io (suc n) ptr buf s).1).blocks ≡ (view s).blocks)
        × ((i : ℕ)
            → (in_words io (suc n) ptr buf s).0 i ≡ (
                if leb ptr i && ltb i (ptr + suc n)
                then (view s).blocks b (k + (i - ptr))
                else buf i))
  unfolding in_words
  in_words_lem zero k ptr buf b s e w h =
      let (r, p, q, later) = in_word b k s w h in
      (
        p ∙ ground arith,
        q,
        λ i. ground (
          arith,
          r,
          λ (l : i ≡ ptr). ap ((view s).blocks b) {x = k} {y = k + (i - ptr)} (omega arith),
        ),
      )
  in_words_lem (suc n) k ptr buf b s e w h =
      let (r, p, q, later) = in_word b k s w h in
      let (p', q', r') =
        in_words_lem n (k + 1) (ptr + 1) (λ i. if i == ptr then (io.inl 0x1f0 s).0 else buf i) b
          (io.inl 0x1f0 s).1 (omega arith) (later (omega arith)) (p ∙ ground arith) in
      (
        p',
        q' ∙ q,
        λ i.
            r' i
            ∙ ground (
              arith,
              r,
              ap (λ f. f b (k + 1 + (i - (ptr + 1)))) q,
              λ (l : ptr < i).
                  ap ((view s).blocks b) {x = k + 1 + (i - (ptr + 1))} {y = k + (i - ptr)}
                    (omega arith),
              λ (l : i ≡ ptr). ap ((view s).blocks b) {x = k} {y = k + (i - ptr)} (omega arith),
            ),
      )
