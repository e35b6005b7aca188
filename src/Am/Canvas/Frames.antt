-- ===== src/Am/Canvas/Frames.antt =====
-- Which pixels of the buffers stay as they are.
use cpu_linux.Prelude.{
  ℕ, zero, suc, ◌+◌, ◌*◌, ◌≤◌, ◌<◌, ◌≡◌, refl, ap, ◌∙◌, ◌&&◌, ltb, leb, if◌then◌else◌, arith, ok,
}
use cpu_linux.Am.Gpu.{Frame, vmem_size}
use cpu_linux.Am.Canvas.{
  Buffers, Target, in_fb, in_vbuf, from_vbuf, black, clear, vbuf_alloc, read_pixel,
}
use cpu_linux.Am.Canvas.Blit.{shown, Room, Kept}

clear-eq :
    (n p : ℕ) (vbuf : Frame) (q : ℕ)
    → clear n p vbuf q ≡ (if leb p q && ltb q (p + n) then black else vbuf q)
unfolding clear
clear-eq zero p vbuf q = ground arith
clear-eq (suc n) p vbuf q = ground (arith, clear-eq n p vbuf q)

pub vbuf_alloc_lem :
    (n : ℕ) (g : Buffers)
    → 3 * (g.vbuf_head + n) ≤ vmem_size
    → vbuf_alloc n g
      ≡ ok
          (g.vbuf_head, record g { vbuf = clear n g.vbuf_head g.vbuf; vbuf_head = g.vbuf_head + n })
unfolding vbuf_alloc
vbuf_alloc_lem n g h = ground arith

-- The buffers that are in use before, other than the target, are as they were.
pub After : Target → Buffers → Buffers → Type 0
After in_fb g g' = (q : ℕ) → q < g.vbuf_head → g'.vbuf q ≡ g.vbuf q
After (in_vbuf p) g g' = (g'.fb ≡ g.fb) × ((q : ℕ) → q < p → g'.vbuf q ≡ g.vbuf q)

-- The target is in use.
abbrev pub Under : Target → ℕ → Buffers → Type 0
Under in_fb n g = Unit {0}
Under (in_vbuf p) n g = p + n ≤ g.vbuf_head

pub Under-Room :
    (px : Target) (n : ℕ) (g : Buffers) → Under px n g → 3 * g.vbuf_head ≤ vmem_size → Room px n
Under-Room in_fb n g u h = tt
Under-Room (in_vbuf p) n g u h = omega arith

pub Kept-After : (px : Target) (n : ℕ) (g g' : Buffers) → Kept px n g g' → After px g g'
unfolding After
Kept-After in_fb n g g' (same, head) = λ q h. ap (λ f. f q) same
Kept-After (in_vbuf p) n g g' (same, head, far) = (same, λ q h. far q (ground arith))

pub Kept-head : (px : Target) (n : ℕ) (g g' : Buffers) → Kept px n g g' → g'.vbuf_head ≡ g.vbuf_head
Kept-head in_fb n g g' (same, head) = head
Kept-head (in_vbuf p) n g g' (same, head, far) = head

pub After-refl : (px : Target) (g : Buffers) → After px g g
unfolding After
After-refl in_fb g = λ q h. refl
After-refl (in_vbuf p) g = (refl, λ q h. refl)

pub Under-mono :
    (px : Target) (n : ℕ) (g g' : Buffers)
    → g.vbuf_head ≤ g'.vbuf_head
    → Under px n g
    → Under px n g'
Under-mono in_fb n g g' h u = tt
Under-mono (in_vbuf p) n g g' h u = omega arith

pub After-trans :
    (px : Target) (g g' g'' : Buffers)
    → g.vbuf_head ≤ g'.vbuf_head
    → After px g g'
    → After px g' g''
    → After px g g''
unfolding After
After-trans in_fb g g' g'' le a b = λ q h. b q (omega arith) ∙ a q h
After-trans (in_vbuf p) g g' g'' le (e, a) (e', b) = (e' ∙ e, λ q h. b q h ∙ a q h)

-- A pixel of `vbuf` behind the target.
Kept-above :
    (px : Target) (n a k : ℕ) (g₀ g g' : Buffers)
    → g₀.vbuf_head ≡ a
    → Under px n g₀
    → Kept px n g g'
    → g'.vbuf (a + k) ≡ g.vbuf (a + k)
Kept-above in_fb n a k g₀ g g' e u (same, head) = ap (λ f. f (a + k)) same
Kept-above (in_vbuf p) n a k g₀ g g' e u (same, head, far) = far (a + k) (ground arith)

-- A new buffer, cleared and drawn to.
module _ (n : ℕ) (g g₂ : Buffers)
    (drawn : After
      (in_vbuf g.vbuf_head)
      (record g { vbuf = clear n g.vbuf_head g.vbuf; vbuf_head = g.vbuf_head + n })
      g₂) where
  older : (q : ℕ) → q < g.vbuf_head → g₂.vbuf q ≡ g.vbuf q
  unfolding After
  older q h = drawn.1 q h ∙ ground (arith, clear-eq n g.vbuf_head g.vbuf q)

  pub shown_older : (px : Target) (m k : ℕ) → k < m → Under px m g → shown px g₂ k ≡ shown px g k
  unfolding After
  shown_older in_fb m k h u = ap (λ f. f k) (drawn.0)
  shown_older (in_vbuf p) m k h u = older (p + k) (omega arith)

  pub After-drawn :
      (px : Target) (m : ℕ) (g₃ : Buffers) → Under px m g → Kept px m g₂ g₃ → After px g g₃
  unfolding After
  After-drawn in_fb m g₃ u (same, head) = λ q h. ap (λ f. f q) same ∙ older q h
  After-drawn (in_vbuf p) m g₃ u (same, head, far) =
      (same ∙ drawn.0, λ q h. far q (ground arith) ∙ older q (omega arith))

  -- It can be read while the target is drawn to.
  pub pixel_stays :
      (vmem : ℕ → ℕ) (px : Target) (m k : ℕ) (g' : Buffers)
      → Under px m g
      → Kept px m g₂ g'
      → k < n
      → 3 * (g.vbuf_head + n) ≤ vmem_size
      → read_pixel vmem (from_vbuf g.vbuf_head) k g' ≡ ok (g₂.vbuf (g.vbuf_head + k))
  unfolding read_pixel
  pixel_stays vmem px m k g' u kept lt room =
      ground (arith, Kept-above px m g.vbuf_head k g g₂ g' refl u kept)

  pub cleared : (k : ℕ) → k < n → clear n g.vbuf_head g.vbuf (g.vbuf_head + k) ≡ black
  cleared k lt = ground (arith, clear-eq n g.vbuf_head g.vbuf (g.vbuf_head + k))
