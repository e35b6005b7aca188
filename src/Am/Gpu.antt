-- ===== src/Am/Gpu.antt =====
-- The GPU of abstract-machine/am/src/x86/qemu/ioe.c: drawing and copying. Coordinates and sizes are not
-- negative; the frame buffer and the memories are functions of an index.
pub mod Draw
mod Tests
use cpu_linux.Prelude.{ℕ, zero, suc, ◌+◌, ◌-◌, ◌*◌, ◌/◌, ◌%◌, ◌^◌, ltb, leb, ◌==◌, if◌then◌else◌}

-- VMEM_SIZE.
abbrev pub vmem_size : ℕ
vmem_size = 512 * 2 ^ 10

-- struct pixel, and the bytes of a colour: R(), G() and B().
pub record Pixel : Type 0 where
  pub b : ℕ
  pub g : ℕ
  pub r : ℕ

unfoldable pub red : ℕ → ℕ
red p = p / 2 ^ 16 % 256

unfoldable pub green : ℕ → ℕ
green p = p / 2 ^ 8 % 256

unfoldable pub blue : ℕ → ℕ
blue p = p % 256

unfoldable pub pixel_of : ℕ → Pixel
pixel_of p = record { b = blue p; g = green p; r = red p }

abbrev pub Frame : Type 0
Frame = ℕ → Pixel

abbrev pub set_pixel : Frame → ℕ → Pixel → Frame
set_pixel fb p v q = if p == q then v else fb q

-- The part of AM_GPU_FBDRAW_T that is used; `pixels` is an array by its index.
pub record Fbdraw : Type 0 where
  pub x : ℕ
  pub y : ℕ
  pub pixels : ℕ → ℕ
  pub w : ℕ
  pub h : ℕ

-- The inner loop of gpu_fbdraw() from column `i` on, with `n` rounds left, to the pixels from `px` on.
unfoldable pub draw_row : ℕ → ℕ → ℕ → (ℕ → ℕ) → Frame → Frame
draw_row zero i px pixels fb = fb
draw_row (suc n) i px pixels fb =
    draw_row n (i + 1) px pixels (set_pixel fb (px + i) (pixel_of (pixels i)))

-- `len`; where the source gets a length below 0, the loop has no round.
unfoldable pub row_len : ℕ → Fbdraw → ℕ
row_len W d = if leb W (d.x + d.w) then W - d.x else d.w

-- The outer loop from row `j` on, with `n` rounds left; `pixels` stands at that row.
unfoldable pub draw_rows : ℕ → ℕ → ℕ → ℕ → Fbdraw → Frame → Frame
draw_rows zero j W H d fb = fb
draw_rows (suc n) j W H d fb = draw_rows n (j + 1) W H d (
    if ltb (d.y + j) H
    then draw_row (row_len W d) 0 (d.x + (j + d.y) * W) (λ i. d.pixels (j * d.w + i)) fb
    else fb)

-- gpu_fbdraw() on a display of W columns and H rows.
unfoldable pub gpu_fbdraw : ℕ → ℕ → Fbdraw → Frame → Frame
gpu_fbdraw W H d fb = draw_rows d.h 0 W H d fb
