-- ===== src/Am/Canvas/Blit.antt =====
-- What the loops at the end of render() draw, and what they leave.
use cpu_linux.Prelude.{
  ℕ, zero, suc, ◌+◌, ◌-◌, ◌*◌, ◌/◌, ◌≤◌, ◌<◌, ◌≡◌, refl, ap, ◌∙◌, true, ◌&&◌, ◌||◌, ltb, leb, ◌==◌,
  if◌then◌else◌, ◌^◌, arith, ok,
}
use native.Mathlib.Nat.{div-lt_iff_lt-mul}
use cpu_linux.Am.Gpu.{Pixel, set_pixel, vmem_size}
use cpu_linux.Am.Canvas.{
  Node, Buffers, Target, in_fb, in_vbuf, Source, read_pixel, write_pixel, blit_column, blit,
  cell_in_range,
}
use cpu_linux.Am.Canvas.Trees.{IntsFit}

-- The pixel at an index from `px` on.
abbrev pub shown : Target → Buffers → ℕ → Pixel
shown in_fb g q = g.fb q
shown (in_vbuf p) g q = g.vbuf (p + q)

-- `px` has room for `n` pixels.
abbrev pub Room : Target → ℕ → Type 0
Room in_fb n = Unit {0}
Room (in_vbuf p) n = 3 * (p + n) ≤ vmem_size

-- Only the `n` pixels from `px` on may differ.
abbrev pub Kept : Target → ℕ → Buffers → Buffers → Type 0
Kept in_fb n g g' = (g'.vbuf ≡ g.vbuf) × (g'.vbuf_head ≡ g.vbuf_head)
Kept (in_vbuf p) n g g' =
    (g'.fb ≡ g.fb)
    × (g'.vbuf_head ≡ g.vbuf_head)
    × ((q : ℕ) → (ltb q p || leb (p + n) q) ≡ true → g'.vbuf q ≡ g.vbuf q)

pub Kept-refl : (px : Target) (n : ℕ) (g : Buffers) → Kept px n g g
Kept-refl in_fb n g = (refl, refl)
Kept-refl (in_vbuf p) n g = (refl, refl, λ q h. refl)

write_lem :
    (px : Target) (n k : ℕ) (v : Pixel) (g₀ g : Buffers)
    → k < n
    → Room px n
    → Kept px n g₀ g
    → (g' : Buffers) × (write_pixel px k v g ≡ ok g')
      × Kept px n g₀ g'
      × ((q : ℕ) → shown px g' q ≡ (if k == q then v else shown px g q))
unfolding write_pixel
write_lem in_fb n k v g₀ g lt room kept = (_, refl, kept, λ q. refl)
write_lem (in_vbuf p) n k v g₀ g lt room (same, head, far) = (
  record g { vbuf = set_pixel g.vbuf (p + k) v },
  ground arith,
  (same, head, λ q h. ground (arith, far q h)),
  λ q. ground arith,
)

pub stretch_lt : (a b w : ℕ) → a < b → 0 < w → a * w / b < w
stretch_lt a b w lt pos =
    let h : a * w < w * b = grind arith in (div-lt_iff_lt-mul {k = b} (omega arith)).1 h

pub cell_lt : (w h r c : ℕ) → r < h → c < w → w * r + c < w * h
cell_lt w h r c lt lt' = grind arith

row_lt : (W Y y : ℕ) → Y < y → W * Y + W ≤ W * y
row_lt W Y y h = grind arith

cell_eq : (W X Y x y : ℕ) → X < W → x < W → (W * y + x == W * Y + X) ≡ (X == x && Y == y)
cell_eq W X Y x y h k = rows (W * Y) (W * y) (λ e. ap (λ t. W * t) e) (row_lt W Y y) (row_lt W y Y)
  where
    rows :
        (a b : ℕ)
        → (Y ≡ y → a ≡ b)
        → (Y < y → a + W ≤ b)
        → (y < Y → b + W ≤ a)
        → (b + x == a + X) ≡ (X == x && Y == y)
    rows a b same above below = ground arith

-- One more row, and one more column, where `f` gives the pixels.
more_rows :
    (x y X Y j n : ℕ) (f : ℕ → Pixel) (mid old : Pixel)
    → mid ≡ (if X == x && Y == y + j then f j else old)
    → (if X == x && leb (y + (j + 1)) Y && ltb Y (y + (j + 1) + n) then f (Y - y) else mid)
      ≡ (if X == x && leb (y + j) Y && ltb Y (y + j + suc n) then f (Y - y) else old)
more_rows x y X Y j n f mid old m =
    ground (arith, m, λ (l : Y ≡ y + j). ap f {x = j} {y = Y - y} (omega arith))

more_columns :
    (x y X Y i n h : ℕ) (f : ℕ → Pixel) (mid old : Pixel)
    → mid ≡ (if X == x + i && leb (y + 0) Y && ltb Y (y + 0 + h) then f i else old)
    → (if leb (x + (i + 1)) X && ltb X (x + (i + 1) + n) && leb y Y && ltb Y (y + h)
        then f (X - x)
        else mid)
      ≡ (if leb (x + i) X && ltb X (x + i + suc n) && leb y Y && ltb Y (y + h)
          then f (X - x)
          else old)
more_columns x y X Y i n h f mid old m =
    ground (arith, m, λ (l : X ≡ x + i). ap f {x = i} {y = X - x} (omega arith))

module _ (vmem : ℕ → ℕ) (cv : Node) (src : Source) (w h W H : ℕ) (px : Target) (L : ℕ → Pixel)
    (g₀ : Buffers)
    (reads : (g : Buffers)
      → Kept px (W * H) g₀ g
      → (k : ℕ) → k < w * h
      → read_pixel vmem src k g ≡ ok (L k))
    (room : Room px (W * H)) (right : cv.x1 + cv.w1 ≤ W) (low : cv.y1 + cv.h1 ≤ H) (wide : 0 < w)
    (high : 0 < h) (ints : IntsFit cv.w1 cv.h1 w h W H) where
  product_lt : (a b n m : ℕ) → a < b → b * n < m → a * n < m
  product_lt a b n m lt le = grind arith

  cell_in_range_lem : (i j : ℕ) → i < cv.w1 → j < cv.h1 → cell_in_range cv i j w h W ≡ true
  unfolding cell_in_range
  cell_in_range_lem i j hi hj =
      let (a, b, c, d) = ints in
      let e =
        cell_lt w h (j * h / cv.h1) (i * w / cv.w1) (stretch_lt j cv.h1 h hj high)
          (stretch_lt i cv.w1 w hi wide) in
      let f = cell_lt W H (cv.y1 + j) (cv.x1 + i) (omega arith) (omega arith) in
      let k = product_lt j cv.h1 h (2 ^ 31) hj b in
      let l = product_lt i cv.w1 w (2 ^ 31) hi a in
      all_true (W * (cv.y1 + j) + (cv.x1 + i)) (j * h) (i * w) (w * (j * h / cv.h1) + i * w / cv.w1)
        (2 ^ 31) (omega arith) k l (omega arith)
    where
      all_true :
          (p q r s m : ℕ)
          → p < m
          → q < m
          → r < m
          → s < m
          → (ltb p m && ltb q m && ltb r m && ltb s m) ≡ true
      all_true p q r s m x y z t = ground arith

  -- The pixel of the local picture for a row and a column of the rectangle.
  abbrev local : ℕ → ℕ → Pixel
  local i j = L (w * (j * h / cv.h1) + i * w / cv.w1)

  column_lem :
      (n j i : ℕ) (g : Buffers)
      → i < cv.w1
      → j + n ≤ cv.h1
      → Kept px (W * H) g₀ g
      → (g' : Buffers) × (blit_column vmem n j i cv src w h W px g ≡ ok g')
        × Kept px (W * H) g₀ g'
        × ((X Y : ℕ)
            → X < W
            → Y < H
            → shown px g' (W * Y + X) ≡ (
                if X == cv.x1 + i && leb (cv.y1 + j) Y && ltb Y (cv.y1 + j + n)
                then local i (Y - cv.y1)
                else shown px g (W * Y + X)))
  unfolding blit_column
  column_lem zero j i g hi hj kept = (g, refl, kept, λ X Y hX hY. ground arith)
  column_lem (suc n) j i g hi hj kept =
      let (g₁, e₁, kept₁, s₁) =
        write_lem px (W * H) (W * (cv.y1 + j) + (cv.x1 + i)) (local i j) g₀ g
          (cell_lt W H (cv.y1 + j) (cv.x1 + i) (omega arith) (omega arith)) room kept in
      let (g₂, e₂, kept₂, s₂) = column_lem n (j + 1) i g₁ hi (omega arith) kept₁ in
      (
        g₂,
        rw (cell_in_range_lem i j hi (omega arith)) (
            rw
              (reads g kept (w * (j * h / cv.h1) + i * w / cv.w1) (
                cell_lt w h (j * h / cv.h1) (i * w / cv.w1)
                  (stretch_lt j cv.h1 h (omega arith) high) (stretch_lt i cv.w1 w hi wide)))
              (rw e₁ e₂)),
        kept₂,
        λ X Y hX hY.
            s₂ X Y hX hY
            ∙ more_rows (cv.x1 + i) cv.y1 X Y j n (local i) _ (shown px g (W * Y + X)) (
                s₁ (W * Y + X)
                ∙ ap (λ b. if b then local i j else shown px g (W * Y + X))
                    (cell_eq W X Y (cv.x1 + i) (cv.y1 + j) hX (omega arith))),
      )

  -- All columns from `i` on.
  pub columns_lem :
      (n i : ℕ) (g : Buffers)
      → i + n ≤ cv.w1
      → Kept px (W * H) g₀ g
      → (g' : Buffers) × (blit vmem n i cv src w h W px g ≡ ok g')
        × Kept px (W * H) g₀ g'
        × ((X Y : ℕ)
            → X < W
            → Y < H
            → shown px g' (W * Y + X) ≡ (
                if leb (cv.x1 + i) X
                  && ltb X (cv.x1 + i + n)
                  && leb cv.y1 Y
                  && ltb Y (cv.y1 + cv.h1)
                then local (X - cv.x1) (Y - cv.y1)
                else shown px g (W * Y + X)))
  unfolding blit
  columns_lem zero i g hi kept = (g, refl, kept, λ X Y hX hY. ground arith)
  columns_lem (suc n) i g hi kept =
      let (g₁, e₁, kept₁, s₁) = column_lem cv.h1 0 i g (omega arith) (omega arith) kept in
      let (g₂, e₂, kept₂, s₂) = columns_lem n (i + 1) g₁ (omega arith) kept₁ in
      (
        g₂,
        rw e₁ e₂,
        kept₂,
        λ X Y hX hY.
            s₂ X Y hX hY
            ∙ more_columns cv.x1 cv.y1 X Y i n cv.h1 (λ c. local c (Y - cv.y1)) _
                (shown px g (W * Y + X)) (s₁ X Y hX hY),
      )
