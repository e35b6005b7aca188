-- ===== src/Am/Canvas/Trees.antt =====
-- The pictures that canvases stand for, without memory: a tree, the picture of a tree by column and row, and
-- the canvases of `vmem` that are a tree.
use cpu_linux.Prelude.{
  ℕ, ◌+◌, ◌-◌, ◌*◌, ◌/◌, ◌^◌, ◌≤◌, ◌<◌, ◌≡◌, ◌≢◌, Bool, ◌&&◌, ltb, leb, if◌then◌else◌, ok,
}
use cpu_linux.Am.Gpu.{Pixel}
use cpu_linux.Am.Canvas.{
  black, Node, node_at, gpu_null, gpu_texture, gpu_subtree, read_pixel, from_vmem, Buffers,
}

-- The rectangle of the parent that a canvas covers.
pub record Shape : Type 0 where
  pub x1 : ℕ
  pub y1 : ℕ
  pub w1 : ℕ
  pub h1 : ℕ

-- A picture of its own, or one that children are drawn on, in order.
mutual
  pub data Tree : Type 0 where
    texture : Shape → (w h : ℕ) → (ℕ → Pixel) → Tree
    subtree : Shape → (w h : ℕ) → Forest → Tree

  pub data Forest : Type 0 where
    leaf : Forest
    more : Tree → Forest → Forest

abbrev pub Picture : Type 0
Picture = ℕ → ℕ → Pixel

abbrev pub inside : Shape → ℕ → ℕ → Bool
inside s X Y = leb s.x1 X && ltb X (s.x1 + s.w1) && leb s.y1 Y && ltb Y (s.y1 + s.h1)

-- A local picture of w columns and h rows is stretched over the rectangle.
abbrev pub stretched : Shape → (w h : ℕ) → Picture → Picture → Picture
stretched s w h local base X Y =
    if inside s X Y then local ((X - s.x1) * w / s.w1) ((Y - s.y1) * h / s.h1) else base X Y

abbrev mutual
  pub picture : Tree → Picture → Picture
  picture (texture s w h pix) base = stretched s w h (λ X Y. pix (w * Y + X)) base
  picture (subtree s w h ts) base = stretched s w h (pictures ts (λ X Y. black)) base

  pub pictures : Forest → Picture → Picture
  pictures leaf base = base
  pictures (more t ts) base = pictures ts (picture t base)

-- A canvas of this rectangle: the fields that its type does not use are those of `rest`.
abbrev pub texture_node : Shape → (w h : ℕ) → Node → Node
texture_node s w h rest = record rest {
  type_ = gpu_texture;
  x1 = s.x1;
  y1 = s.y1;
  w1 = s.w1;
  h1 = s.h1;
  texture_w = w;
  texture_h = h;
}

abbrev pub subtree_node : Shape → (w h : ℕ) → Node → Node
subtree_node s w h rest = record rest {
  type_ = gpu_subtree;
  w = w;
  h = h;
  x1 = s.x1;
  y1 = s.y1;
  w1 = s.w1;
  h1 = s.h1;
}

-- The canvas at `p` of `vmem` is the tree, and the list of siblings from `p` on is the forest.
unfoldable mutual
  pub Stands : (ℕ → ℕ) → ℕ → Tree → Type 0
  Stands vmem p (texture s w h pix) =
      (rest : Node) × (node_at vmem p ≡ ok (texture_node s w h rest))
      × ((k : ℕ) (g : Buffers)
          → k < w * h
          → read_pixel vmem (from_vmem rest.pixels) k g ≡ ok (pix k))
  Stands vmem p (subtree s w h ts) =
      (rest : Node) × (node_at vmem p ≡ ok (subtree_node s w h rest)) × Children vmem rest.child ts

  pub Children : (ℕ → ℕ) → ℕ → Forest → Type 0
  Children vmem p leaf = p ≡ gpu_null
  Children vmem p (more t ts) =
      (p ≢ gpu_null)
      × Stands vmem p t
      × ((cv : Node) × (node_at vmem p ≡ ok cv) × Children vmem cv.sibling ts)

-- The int products of the loops over a rectangle of w1 columns and h1 rows, that a picture of w columns and h rows
-- is drawn to, in one of W columns and H rows.
abbrev pub IntsFit : (w1 h1 w h W H : ℕ) → Type 0
IntsFit w1 h1 w h W H = (w1 * w < 2 ^ 31) × (h1 * h < 2 ^ 31) × (w * h < 2 ^ 31) × (W * H < 2 ^ 31)

abbrev pub ShapeFits : Shape → (w h W H : ℕ) → Type 0
ShapeFits s w h W H =
    (s.x1 + s.w1 ≤ W) × (s.y1 + s.h1 ≤ H) × (0 < w) × (0 < h) × IntsFit s.w1 s.h1 w h W H

-- Every rectangle lies in its parent's picture, no local picture is empty, and the products fit an int.
unfoldable mutual
  pub Fits : Tree → (W H : ℕ) → Type 0
  Fits (texture s w h pix) W H = ShapeFits s w h W H
  Fits (subtree s w h ts) W H = ShapeFits s w h W H × AllFit ts w h

  pub AllFit : Forest → (W H : ℕ) → Type 0
  AllFit leaf W H = Unit {0}
  AllFit (more t ts) W H = Fits t W H × AllFit ts W H

-- The pixels that are taken from `vbuf`.
abbrev mutual
  pub pixels_needed : Tree → ℕ
  pixels_needed (texture s w h pix) = 0
  pixels_needed (subtree s w h ts) = w * h + forest_pixels ts

  pub forest_pixels : Forest → ℕ
  forest_pixels leaf = 0
  forest_pixels (more t ts) = pixels_needed t + forest_pixels ts

-- A bound for the depth of the recursion.
abbrev mutual
  pub fuel_needed : Tree → ℕ
  fuel_needed (texture s w h pix) = 1
  fuel_needed (subtree s w h ts) = 1 + forest_fuel ts

  pub forest_fuel : Forest → ℕ
  forest_fuel leaf = 1
  forest_fuel (more t ts) = 1 + fuel_needed t + forest_fuel ts
