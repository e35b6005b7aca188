-- ===== src/Am/Canvas.antt =====
-- The tree of canvases that gpu_render() of abstract-machine/am/src/x86/qemu/ioe.c draws, and gpu_memcpy(), which
-- writes it. `vmem` is a function from offsets to bytes. `vbuf` is one to pixels of three bytes, and its head
-- counts pixels, as every size that is taken from it is that of an array of them.
pub mod Trees
mod Blit
mod Frames
pub mod Paint
pub mod Memcpy
mod Tests
use cpu_linux.Prelude.{
  ℕ, zero, suc, ◌+◌, ◌*◌, ◌/◌, ◌^◌, Bool, true, false, ltb, leb, ◌&&◌, ◌==◌, if◌then◌else◌,
  assertion, undefined, out_of_fuel, Outcome, ok, stop, ◌>>=◌, ◌>>◌, guard,
}
use cpu_linux.Am.Bytes.{u16, u32}
use cpu_linux.Am.Gpu.{Pixel, Frame, set_pixel, vmem_size}

-- AM_GPU_NULL and the types of canvases.
abbrev pub gpu_null : ℕ
gpu_null = 0xffff_ffff

abbrev pub gpu_texture : ℕ
gpu_texture = 1

abbrev pub gpu_subtree : ℕ
gpu_subtree = 2

-- struct gpu_canvas, with both readings of its union.
pub record Node : Type 0 where
  pub type_ : ℕ
  pub w : ℕ
  pub h : ℕ
  pub x1 : ℕ
  pub y1 : ℕ
  pub w1 : ℕ
  pub h1 : ℕ
  pub sibling : ℕ
  pub child : ℕ
  pub texture_w : ℕ
  pub texture_h : ℕ
  pub pixels : ℕ

abbrev pub node_size : ℕ
node_size = 26

-- A canvas at a pointer of the GPU; it has to lie in `vmem`, where NULL does not.
unfoldable pub node_at : (ℕ → ℕ) → ℕ → Outcome Node
node_at vmem p =
    if leb (p + node_size) vmem_size
    then ok (record {
      type_ = u16 vmem p;
      w = u16 vmem (p + 2);
      h = u16 vmem (p + 4);
      x1 = u16 vmem (p + 6);
      y1 = u16 vmem (p + 8);
      w1 = u16 vmem (p + 10);
      h1 = u16 vmem (p + 12);
      sibling = u32 vmem (p + 14);
      child = u32 vmem (p + 18);
      texture_w = u16 vmem (p + 18);
      texture_h = u16 vmem (p + 20);
      pixels = u32 vmem (p + 22);
    })
    else stop undefined

-- `fb`, `vbuf` and `vbuf_head`.
pub record Buffers : Type 0 where
  pub fb : Frame
  pub vbuf : Frame
  pub vbuf_head : ℕ

-- Where `px` points: to the frame buffer, or into `vbuf`.
pub data Target : Type 0 where
  in_fb : Target
  in_vbuf : ℕ → Target

-- Where `px_local` points.
pub data Source : Type 0 where
  from_vmem from_vbuf : ℕ → Source

-- A pixel of `vmem` or `vbuf`, which end at VMEM_SIZE bytes.
unfoldable pub read_pixel : (ℕ → ℕ) → Source → ℕ → Buffers → Outcome Pixel
read_pixel vmem (from_vmem p) k g =
    if leb (p + 3 * k + 3) vmem_size
    then ok (record { b = vmem (p + 3 * k); g = vmem (p + 3 * k + 1); r = vmem (p + 3 * k + 2) })
    else stop undefined
read_pixel vmem (from_vbuf p) k g =
    if leb (3 * (p + k) + 3) vmem_size then ok (g.vbuf (p + k)) else stop undefined

unfoldable pub write_pixel : Target → ℕ → Pixel → Buffers → Outcome Buffers
write_pixel in_fb k v g = ok (record g { fb = set_pixel g.fb k v })
write_pixel (in_vbuf p) k v g =
    if leb (3 * (p + k) + 3) vmem_size
    then ok (record g { vbuf = set_pixel g.vbuf (p + k) v })
    else stop undefined

abbrev pub black : Pixel
black = record { b = 0; g = 0; r = 0 }

-- The loop of vbuf_alloc() over the first `n` pixels.
unfoldable pub clear : ℕ → ℕ → Frame → Frame
clear zero p vbuf = vbuf
clear (suc n) p vbuf = set_pixel (clear n p vbuf) (p + n) black

-- vbuf_alloc() of `n` pixels.
unfoldable pub vbuf_alloc : ℕ → Buffers → Outcome (ℕ × Buffers)
unfolding clear
vbuf_alloc n g = do
  guard (leb (3 * (g.vbuf_head + n)) vmem_size) assertion
  ok (g.vbuf_head, record g { vbuf = clear n g.vbuf_head g.vbuf; vbuf_head = g.vbuf_head + n })

-- The products and sums of render()'s inner loop are of type int, in which an overflow is undefined: of row `j` and
-- column `i` of a canvas.
unfoldable pub cell_in_range : Node → (i j w h W : ℕ) → Bool
cell_in_range cv i j w h W =
    ltb (W * (cv.y1 + j) + (cv.x1 + i)) (2 ^ 31)
    && ltb (j * h) (2 ^ 31)
    && ltb (i * w) (2 ^ 31)
    && ltb (w * (j * h / cv.h1) + i * w / cv.w1) (2 ^ 31)

module _ (vmem : ℕ → ℕ) where
  -- The inner and the outer loop at the end of render(), from row `j` and column `i` on, with `n` rounds left.
  -- `W` is the width of the parent, `w` and `h` are the sizes of the local picture.
  unfoldable pub blit_column :
      ℕ → ℕ → ℕ → Node → Source → (w h W : ℕ) → Target → Buffers → Outcome Buffers
  blit_column zero j i cv src w h W px g = ok g
  blit_column (suc n) j i cv src w h W px g = do
    guard (cell_in_range cv i j w h W) undefined
    v ← read_pixel vmem src (w * (j * h / cv.h1) + i * w / cv.w1) g
    g' ← write_pixel px (W * (cv.y1 + j) + (cv.x1 + i)) v g
    blit_column n (j + 1) i cv src w h W px g'

  unfoldable pub blit : ℕ → ℕ → Node → Source → (w h W : ℕ) → Target → Buffers → Outcome Buffers
  blit zero i cv src w h W px g = ok g
  blit (suc n) i cv src w h W px g = do
    g' ← blit_column cv.h1 0 i cv src w h W px g
    blit n (i + 1) cv src w h W px g'

  unfoldable mutual
    unfolding node_at vbuf_alloc blit

    -- render(cv, parent, px), with fuel: the pointer `p` to `cv`, and the parent's width. A size of `vbuf` that does
    -- not fit an int counts as undefined.
    pub render : ℕ → ℕ → (W : ℕ) → Target → Buffers → Outcome Buffers
    render zero p W px g = stop out_of_fuel
    render (suc fuel) p W px g = do
      cv ← node_at vmem p
      elim (cv.type_ == gpu_texture) [
        | true ↦ blit cv.w1 0 cv (from_vmem cv.pixels) cv.texture_w cv.texture_h W px g
        | false ↦
            (guard (cv.type_ == gpu_subtree) assertion
              >> (guard (ltb (3 * (cv.w * cv.h)) (2 ^ 31)) undefined
                  >> vbuf_alloc (cv.w * cv.h) g
                  >>= λ a.
                      (render_children fuel cv.child cv.w (in_vbuf a.0) a.1 >>= λ g'.
                      blit cv.w1 0 cv (from_vbuf a.0) cv.w cv.h W px g')))
      ]

    -- The loop over the children.
    pub render_children : ℕ → ℕ → (W : ℕ) → Target → Buffers → Outcome Buffers
    render_children zero p W px g = stop out_of_fuel
    render_children (suc fuel) p W px g = elim (p == gpu_null) [
      | true ↦ ok g
      | false ↦
          (render fuel p W px g >>= λ g'.
          (node_at vmem p >>= λ ch. render_children fuel ch.sibling W px g'))
    ]

  -- gpu_render(ren) on a display of W columns.
  unfoldable pub gpu_render : ℕ → ℕ → (W : ℕ) → Buffers → Outcome Buffers
  unfolding render
  gpu_render fuel root W g = render fuel root W in_fb (record g { vbuf_head = 0 })

-- The loop of gpu_memcpy() from byte `i` on, with `n` rounds left, and gpu_memcpy(params), where `src` is an array.
unfoldable pub memcpy_bytes : ℕ → ℕ → ℕ → (ℕ → ℕ) → (ℕ → ℕ) → Outcome (ℕ → ℕ)
memcpy_bytes zero i dst src vmem = ok vmem
memcpy_bytes (suc n) i dst src vmem =
    (guard (leb (dst + i + 1) vmem_size) undefined
      >> memcpy_bytes n (i + 1) dst src (λ p. if p == dst + i then src i else vmem p))

unfoldable pub gpu_memcpy : ℕ → ℕ → (ℕ → ℕ) → (ℕ → ℕ) → Outcome (ℕ → ℕ)
unfolding memcpy_bytes
gpu_memcpy dest size src vmem = memcpy_bytes size 0 dest src vmem
