-- ===== src/Am/Canvas/Paint.antt =====
-- gpu_render() draws the picture of the tree.
use cpu_linux.Prelude.{
  ℕ, zero, suc, ◌+◌, ◌-◌, ◌*◌, ◌/◌, ◌^◌, ltb, true, ◌≤◌, ◌<◌, ◌≡◌, refl, ◌∙◌, false, ◌==◌,
  if◌then◌else◌, arith, Bool-cases, inl, inr, ok, ◌≢◌,
}
use cpu_linux.Am.Gpu.{Pixel, vmem_size}
use cpu_linux.Am.Canvas.{
  node_at, Node, Source, Buffers, Target, in_fb, in_vbuf, from_vmem, from_vbuf, black, clear,
  read_pixel, blit, render, gpu_null, render_children, gpu_render,
}
use cpu_linux.Am.Canvas.Trees.{
  Tree, Forest, texture, subtree, leaf, more, Picture, inside, picture, pictures, Stands, Children,
  Fits, AllFit, pixels_needed, forest_pixels, fuel_needed, forest_fuel, texture_node, subtree_node,
  Shape, IntsFit,
}
use cpu_linux.Am.Canvas.Blit.{shown, Room, Kept, Kept-refl, columns_lem, stretch_lt, cell_lt}
use cpu_linux.Am.Canvas.Frames.{
  vbuf_alloc_lem, After, Under, Under-Room, Kept-After, Kept-head, After-refl, Under-mono,
  After-trans, shown_older, After-drawn, pixel_stays, cleared,
}

-- A picture shows its base at a point or not, whatever the base is elsewhere.
picture_local :
    (t : Tree) (base base' : Picture) (X Y : ℕ)
    → base X Y ≡ base' X Y
    → picture t base X Y ≡ picture t base' X Y
picture_local (texture s w h pix) base base' X Y e = ground (arith, e)
picture_local (subtree s w h ts) base base' X Y e = ground (arith, e)

pictures_local :
    (ts : Forest) (base base' : Picture) (X Y : ℕ)
    → base X Y ≡ base' X Y
    → pictures ts base X Y ≡ pictures ts base' X Y
pictures_local leaf base base' X Y e = e
pictures_local (more t ts) base base' X Y e =
    pictures_local ts (picture t base) (picture t base') X Y (picture_local t base base' X Y e)

not_null : (p : ℕ) → p ≢ gpu_null → (p == gpu_null) ≡ false
not_null p h = ground (arith, h)

-- A local picture is read at its pixels only.
stretched_eq :
    (s : Shape) (w h X Y : ℕ) (L : ℕ → Pixel) (local : Picture) (old base : Pixel)
    → 0 < w
    → 0 < h
    → ((x y : ℕ) → x < w → y < h → L (w * y + x) ≡ local x y)
    → old ≡ base
    → (if inside s X Y then L (w * ((Y - s.y1) * h / s.h1) + (X - s.x1) * w / s.w1) else old)
      ≡ (if inside s X Y then local ((X - s.x1) * w / s.w1) ((Y - s.y1) * h / s.h1) else base)
stretched_eq s w h X Y L local old base wide high same e = elim (Bool-cases (inside s X Y)) [
  | inl here ↦ rw here (
      same ((X - s.x1) * w / s.w1) ((Y - s.y1) * h / s.h1)
        (stretch_lt (X - s.x1) s.w1 w (ground arith) wide)
        (stretch_lt (Y - s.y1) s.h1 h (ground arith) high))
  | inr there ↦ rw there e
]

size_fits : (n : ℕ) → 3 * n ≤ vmem_size → ltb (3 * n) (2 ^ 31) ≡ true
size_fits n h = ground arith

module _ (vmem : ℕ → ℕ) where
  children_step :
      (fuel p W : ℕ) (px : Target) (g g' : Buffers) (cv : Node)
      → p ≢ gpu_null
      → render vmem fuel p W px g ≡ ok g'
      → node_at vmem p ≡ ok cv
      → render_children vmem (suc fuel) p W px g ≡ render_children vmem fuel cv.sibling W px g'
  unfolding render_children
  children_step fuel p W px g g' cv null e₁ e =
      rw (not_null p null, render_children) (rw e₁ (rw e refl))

  -- A canvas is drawn from pixels that stay as they are.
  draw_lem :
      (cv : Node) (w h W H : ℕ) (px : Target) (g : Buffers)
      → cv.x1 + cv.w1 ≤ W
      → cv.y1 + cv.h1 ≤ H
      → 0 < w
      → 0 < h
      → IntsFit cv.w1 cv.h1 w h W H
      → Room px (W * H)
      → (src : Source) (L : ℕ → Pixel)
      → ((g' : Buffers)
          → Kept px (W * H) g g'
          → (k : ℕ) → k < w * h
          → read_pixel vmem src k g' ≡ ok (L k))
      → (g' : Buffers) × (blit vmem cv.w1 0 cv src w h W px g ≡ ok g')
        × Kept px (W * H) g g'
        × ((X Y : ℕ)
            → X < W
            → Y < H
            → shown px g' (W * Y + X) ≡ (
                if inside (record { x1 = cv.x1; y1 = cv.y1; w1 = cv.w1; h1 = cv.h1 }) X Y
                then L (w * ((Y - cv.y1) * h / cv.h1) + (X - cv.x1) * w / cv.w1)
                else shown px g (W * Y + X)))
  draw_lem cv w h W H px g right low wide high ints room src L reads =
      let (g', e, kept, s) =
        columns_lem vmem cv src w h W H px L g reads room right low wide high ints cv.w1 0 g
          (omega arith) (Kept-refl px (W * H) g) in
      (g', e, kept, λ X Y hX hY. s X Y hX hY ∙ ground arith)

  mutual
    unfolding render render_children Stands Fits

    render_lem :
        (t : Tree) (fuel p W H : ℕ) (px : Target) (g : Buffers)
        → Stands vmem p t
        → Fits t W H
        → fuel_needed t ≤ fuel
        → 3 * (g.vbuf_head + pixels_needed t) ≤ vmem_size
        → Under px (W * H) g
        → (g' : Buffers) × (render vmem fuel p W px g ≡ ok g')
          × (g'.vbuf_head ≡ g.vbuf_head + pixels_needed t)
          × After px g g'
          × ((X Y : ℕ)
              → X < W
              → Y < H
              → shown px g' (W * Y + X) ≡ picture t (λ X' Y'. shown px g (W * Y' + X')) X Y)
    render_lem (texture s w h pix) zero p W H px g st fit fl room u = elim fl [ ]
    render_lem (subtree s w h ts) zero p W H px g st fit fl room u = absurd (omega arith)
    render_lem (texture s w h pix) (suc fuel) p W H px g (rest, e, reads)
          (right, low, wide, high, ints) fl room u =
        let (g', e', kept, s') =
          draw_lem (texture_node s w h rest) w h W H px g right low wide high ints
            (Under-Room px (W * H) g u (omega arith)) (from_vmem rest.pixels) pix
            (λ g' k i lt. reads i g' lt) in
        (
          g',
          rw e e',
          Kept-head px (W * H) g g' kept ∙ omega arith,
          Kept-After px (W * H) g g' kept,
          s',
        )
    render_lem (subtree s w h ts) (suc fuel) p W H px g (rest, e, ch)
          ((right, low, wide, high, ints), af) fl room u =
        let a = g.vbuf_head in
        let g₁ : Buffers = record g { vbuf = clear (w * h) a g.vbuf; vbuf_head = a + w * h } in
        let (g₂, e₂, head₂, after₂, s₂) =
          children_lem ts fuel rest.child w h (in_vbuf a) g₁ ch af (omega arith) (omega arith)
            (omega arith) in
        let (g₃, e₃, kept₃, s₃) =
          draw_lem (subtree_node s w h rest) w h W H px g₂ right low wide high ints
            (Under-Room px (W * H) g u (omega arith)) (from_vbuf a) (λ k. g₂.vbuf (a + k))
            (λ g' kept k lt.
              pixel_stays (w * h) g g₂ after₂ vmem px (W * H) k g' u kept lt (omega arith)) in
        (
          g₃,
          rw e (
              rw (size_fits (w * h) (omega arith), vbuf_alloc_lem (w * h) g (omega arith))
                (rw e₂ e₃)),
          Kept-head px (W * H) g₂ g₃ kept₃ ∙ head₂ ∙ omega arith,
          After-drawn (w * h) g g₂ after₂ px (W * H) g₃ u kept₃,
          λ X Y hX hY.
              s₃ X Y hX hY
              ∙ stretched_eq s w h X Y (λ k. g₂.vbuf (a + k)) (pictures ts (λ x y. black)) _ _ wide
                  high
                  (λ x y hx hy.
                    s₂ x y hx hy
                    ∙ pictures_local ts (λ x' y'. g₁.vbuf (a + (w * y' + x'))) (λ x' y'. black) x y
                        (cleared (w * h) g g₂ after₂ (w * y + x) (cell_lt w h y x hy hx)))
                  (shown_older (w * h) g g₂ after₂ px (W * H) (W * Y + X) (cell_lt W H Y X hY hX)
                    u),
        )

    children_lem :
        (ts : Forest) (fuel p W H : ℕ) (px : Target) (g : Buffers)
        → Children vmem p ts
        → AllFit ts W H
        → forest_fuel ts ≤ fuel
        → 3 * (g.vbuf_head + forest_pixels ts) ≤ vmem_size
        → Under px (W * H) g
        → (g' : Buffers) × (render_children vmem fuel p W px g ≡ ok g')
          × (g'.vbuf_head ≡ g.vbuf_head + forest_pixels ts)
          × After px g g'
          × ((X Y : ℕ)
              → X < W
              → Y < H
              → shown px g' (W * Y + X) ≡ pictures ts (λ X' Y'. shown px g (W * Y' + X')) X Y)
    children_lem leaf zero p W H px g st fit fl room u = elim fl [ ]
    children_lem (more t ts) zero p W H px g st fit fl room u = absurd (omega arith)
    children_lem leaf (suc fuel) p W H px g st fit fl room u =
        (g, ground (arith, st), omega arith, After-refl px g, λ X Y hX hY. refl)
    children_lem (more t ts) (suc fuel) p W H px g (null, st, (cv, e, rest)) (ft, fts) fl room u =
        let (g₁, e₁, head₁, after₁, s₁) =
          render_lem t fuel p W H px g st ft (omega arith) (omega arith) u in
        let (g₂, e₂, head₂, after₂, s₂) =
          children_lem ts fuel cv.sibling W H px g₁ rest fts (omega arith) (omega arith)
            (Under-mono px (W * H) g g₁ (omega arith) u) in
        (
          g₂,
          children_step fuel p W px g g₁ cv null e₁ e ∙ e₂,
          omega arith,
          After-trans px g g₁ g₂ (omega arith) after₁ after₂,
          λ X Y hX hY.
              s₂ X Y hX hY
              ∙ pictures_local ts (λ X' Y'. shown px g₁ (W * Y' + X'))
                  (picture t (λ X' Y'. shown px g (W * Y' + X'))) X Y (s₁ X Y hX hY),
        )

-- Where the canvas at `root` is a tree of canvases in which every rectangle lies in its parent's picture, with the
-- display as the root's parent, no local picture is empty, the pictures of the subtrees fit `vbuf` together, and for
-- each canvas the columns of its rectangle times those of its picture, the rows likewise, and the pixels of
-- its picture and of its parent's are less than 2^31, so that no int overflows: given fuel for the tree, gpu_render() ends, and each position of the display shows the picture of the tree.
pub gpu_render_lem :
    (vmem : ℕ → ℕ) (root : ℕ) (t : Tree) (W H fuel : ℕ) (g : Buffers)
    → Stands vmem root t
    → Fits t W H
    → fuel_needed t ≤ fuel
    → 3 * pixels_needed t ≤ vmem_size
    → (g' : Buffers) × (gpu_render vmem fuel root W g ≡ ok g')
      × ((X Y : ℕ) → X < W → Y < H → g'.fb (W * Y + X) ≡ picture t (λ x y. g.fb (W * y + x)) X Y)
unfolding gpu_render
gpu_render_lem vmem root t W H fuel g st fit fl room =
    let (g', e, head, after, s) =
      render_lem vmem t fuel root W H in_fb (record g { vbuf_head = 0 }) st fit fl (omega arith)
        tt in
    (g', e, s)
