-- ===== src/Am/Canvas/Tests.antt =====
-- A subtree of two columns and two rows, with one texture of a pixel that is stretched over the right column.
use cpu_linux.Prelude.{
  ℕ, ◌+◌, ◌*◌, ◌<◌, ◌≡◌, refl, List, [], ◌∷◌, get_or, arith, ok, if◌then◌else◌, ◌==◌, ◌||◌, leb,
  undefined, stop,
}
use cpu_linux.Am.Gpu.{Pixel, vmem_size}
use cpu_linux.Am.Canvas.{Buffers, Node, node_at, read_pixel, black, gpu_render, gpu_memcpy}
use cpu_linux.Am.Canvas.Trees.{Tree, texture, subtree, more, leaf, picture, Stands, Fits}
use cpu_linux.Am.Canvas.Paint.{gpu_render_lem}
use cpu_linux.Am.Canvas.Memcpy.{copied, gpu_memcpy_lem}

-- The canvases at 0 and at 26, and the pixel at 52.
abbrev bytes : List ℕ
bytes =
    2 ∷ 0 ∷ 2 ∷ 0 ∷ 2 ∷ 0 ∷ 1 ∷ 0 ∷ 0 ∷ 0 ∷ 2 ∷ 0 ∷ 2 ∷ 0 ∷ 255 ∷ 255 ∷ 255 ∷ 255 ∷ 26 ∷ 0 ∷ 0 ∷ 0
    ∷ 0 ∷ 0 ∷ 0 ∷ 0 ∷ 1 ∷ 0 ∷ 0 ∷ 0 ∷ 0 ∷ 0 ∷ 1 ∷ 0 ∷ 0 ∷ 0 ∷ 1 ∷ 0 ∷ 2 ∷ 0 ∷ 255 ∷ 255 ∷ 255 ∷ 255
    ∷ 1 ∷ 0 ∷ 1 ∷ 0 ∷ 52 ∷ 0 ∷ 0 ∷ 0 ∷ 7 ∷ 8 ∷ 9 ∷ []

abbrev vmem : ℕ → ℕ
vmem p = get_or bytes p 0

abbrev pixel : ℕ → Pixel
pixel k = record { b = vmem (52 + 3 * k); g = vmem (52 + 3 * k + 1); r = vmem (52 + 3 * k + 2) }

abbrev tree : Tree
tree =
    subtree (record { x1 = 1; y1 = 0; w1 = 2; h1 = 2 }) 2 2
      (more (texture (record { x1 = 1; y1 = 0; w1 = 1; h1 = 2 }) 1 1 pixel) leaf)

abbrev dark : Buffers
dark = record { fb = λ q. black; vbuf = λ q. black; vbuf_head = 5 }

-- What the bytes of a canvas at 0 and at 26 are.
abbrev outer : Node
outer = record {
  type_ = 2;
  w = 2;
  h = 2;
  x1 = 1;
  y1 = 0;
  w1 = 2;
  h1 = 2;
  sibling = 0xffff_ffff;
  child = 26;
  texture_w = 26;
  texture_h = 0;
  pixels = 0;
}

abbrev inner : Node
inner = record {
  type_ = 1;
  w = 0;
  h = 0;
  x1 = 1;
  y1 = 0;
  w1 = 1;
  h1 = 2;
  sibling = 0xffff_ffff;
  child = 0x1_0001;
  texture_w = 1;
  texture_h = 1;
  pixels = 52;
}

node_at-outer : node_at vmem 0 ≡ ok outer
unfolding node_at
node_at-outer = refl

node_at-inner : node_at vmem 26 ≡ ok inner
unfolding node_at
node_at-inner = refl

tree-Stands : Stands vmem 0 tree
unfolding Stands read_pixel
tree-Stands = (
  outer,
  node_at-outer,
  (
    (λ e. absurd (omega arith)),
    (inner, node_at-inner, λ k g h. ground arith),
    (inner, node_at-inner, refl),
  ),
)

tree-Fits : Fits tree 4 2
unfolding Fits
tree-Fits = (
  (
    omega arith,
    omega arith,
    omega arith,
    omega arith,
    (omega arith, omega arith, omega arith, omega arith),
  ),
  (
    (
      omega arith,
      omega arith,
      omega arith,
      omega arith,
      (omega arith, omega arith, omega arith, omega arith),
    ),
    tt,
  ),
)

gpu_render_lem_example :
    (g' : Buffers) × (gpu_render vmem 4 0 4 dark ≡ ok g')
    × ((X Y : ℕ)
        → X < 4
        → Y < 2
        → g'.fb (4 * Y + X) ≡ picture tree (λ x y. dark.fb (4 * y + x)) X Y)
gpu_render_lem_example =
    gpu_render_lem vmem 0 tree 4 2 4 dark tree-Stands tree-Fits (omega arith) (omega arith)

-- The second row of the picture: the pixel is in the third column.
picture_row : picture tree (λ x y. black) 2 1 ≡ pixel 0
picture_row = refl

picture_left : picture tree (λ x y. black) 1 1 ≡ black
picture_left = refl

gpu_memcpy_lem_example : gpu_memcpy 52 3 (λ i. i + 7) vmem ≡ (
    if 3 == 0 || leb (52 + 3) vmem_size then ok (copied 52 3 (λ i. i + 7) vmem) else stop undefined)
gpu_memcpy_lem_example = gpu_memcpy_lem 52 3 (λ i. i + 7) vmem

-- The first byte that is copied, and one behind them.
copied_run : (copied 52 3 (λ i. i + 7) vmem 52 ≡ 7) × (copied 52 3 (λ i. i + 7) vmem 55 ≡ 0)
unfolding copied
copied_run = (refl, refl)
