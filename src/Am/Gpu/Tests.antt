-- ===== src/Am/Gpu/Tests.antt =====
-- A rectangle that reaches beyond a display of 4 columns and 3 rows.
use cpu_linux.Prelude.{◌+◌, ◌≡◌, refl}
use cpu_linux.Am.Gpu.{pixel_of, red, green, blue, Fbdraw, Frame}

abbrev black : Frame
black q = record { b = 0; g = 0; r = 0 }

abbrev drawing : Fbdraw
drawing = record { x = 2; y = 1; pixels = λ i. 0x01_0203 + i; w = 3; h = 5 }

pixel_of_run : pixel_of 0x01_0203 ≡ record { b = 3; g = 2; r = 1 }
unfolding pixel_of red green blue
pixel_of_run = refl
