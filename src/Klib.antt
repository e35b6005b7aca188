-- ===== src/Klib.antt =====
-- abstract-machine/klib: the C library for programs that run on the simulated machine. `Mem` has the
-- functions of string.c that copy and fill, `Text` those that compare and measure, `Number` the
-- conversions of stdio.c and stdlib.c, `Format` vsprintf().
pub mod Mem
pub mod Text
pub mod Number
pub mod Format
mod Tests
