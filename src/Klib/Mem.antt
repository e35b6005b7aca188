-- ===== src/Klib/Mem.antt =====
-- abstract-machine/klib/src/string.c: the functions that write memory. The memory is a function from
-- addresses to bytes, and address 0 is NULL. But for memmove(), lengths are below 2^31, so that the `int` counters
-- of the code do not wrap.
pub mod Copies
use cpu_linux.Prelude.{
  ◌>>=◌, ◌>>◌, ℕ, zero, suc, ◌+◌, ◌-◌, ◌%◌, ◌^◌, true, false, not, ◌&&◌, ◌||◌, ltb, ◌==◌,
  if◌then◌else◌, assertion, out_of_fuel, undefined, Outcome, ok, stop, guard,
}

abbrev pub Memory : Type 0
Memory = ℕ → ℕ

abbrev pub store : Memory → ℕ → ℕ → Memory
store m p v q = if p == q then v else m q

-- The rounds of a loop `d[i] = s[i]` upwards from index `i`, with `n` rounds left.
unfoldable pub copy_up : ℕ → ℕ → ℕ → ℕ → Memory → Memory
copy_up zero i d s m = m
copy_up (suc n) i d s m = copy_up n (i + 1) d s (store m (d + i) (m (s + i)))

-- The loop of memmove() downwards from index `n - 1`.
unfoldable pub copy_down : ℕ → ℕ → ℕ → Memory → Memory
copy_down zero d s m = m
copy_down (suc n) d s m = copy_down n d s (store m (d + n) (m (s + n)))

unfoldable pub fill : ℕ → ℕ → ℕ → ℕ → Memory → Memory
fill zero i p c m = m
fill (suc n) i p c m = fill n (i + 1) p c (store m (p + i) c)

-- memset(s, c, n): the pointer returned, and the memory.
unfoldable pub memset : ℕ → ℕ → ℕ → Memory → ℕ × Memory
memset s c n m = if s == 0 then (s, m) else (s, fill n 0 s (c % 256) m)

-- memmove(dst, src, n), for any `n` of the 32 bits of size_t: the counter of the first loop overflows if it has to reach
-- 2^31, and the second one starts at n - 1 as an int, which is negative from 2^31 on.
unfoldable pub memmove : ℕ → ℕ → ℕ → Memory → Outcome (ℕ × Memory)
memmove dst src n m =
    if dst == 0 || src == 0
    then ok (0, m)
    else if n == 0
    then ok (dst, m)
    else if ltb dst src
    then (if ltb n (2 ^ 31) then ok (dst, copy_up n 0 dst src m) else stop undefined)
    else if ltb (n - 1) (2 ^ 31)
    then ok (dst, copy_down n dst src m)
    else ok (dst, m)

-- memcpy(out, in, n), without the message for NULL.
unfoldable pub memcpy : ℕ → ℕ → ℕ → Memory → ℕ × Memory
memcpy out src n m = if out == 0 || src == 0 then (0, m) else (out, copy_up n 0 out src m)

-- strlen(s), on fuel: the loop from index `i` on.
unfoldable pub strlen_from : ℕ → ℕ → ℕ → Memory → Outcome ℕ
strlen_from zero i s m = stop out_of_fuel
strlen_from (suc fuel) i s m =
    let rest = strlen_from fuel (i + 1) s m in if m (s + i) == 0 then ok i else rest

unfoldable pub strlen : ℕ → ℕ → Memory → Outcome ℕ
strlen fuel s m = strlen_from fuel 0 s m

-- strcpy(dst, src).
unfoldable pub strcpy : ℕ → ℕ → ℕ → Memory → Outcome (ℕ × Memory)
strcpy fuel dst src m = do
  guard (not (dst == 0) && not (src == 0)) assertion
  len ← strlen fuel src m
  ok (dst, store (copy_up len 0 dst src m) (dst + len) 0)

-- The loop of strcat(): the characters of `src` from index `i` on, up to its end, are copied
-- behind `end`; `i` is the index of the end.
unfoldable pub append_from : ℕ → ℕ → ℕ → ℕ → Memory → Outcome Memory
append_from zero i e src m = stop out_of_fuel
append_from (suc fuel) i e src m =
    let rest = append_from fuel (i + 1) e src (store m (e + i) (m (src + i))) in
    if m (src + i) == 0 then ok (store m (e + i) 0) else rest

-- strcat(dst, src).
unfoldable pub strcat : ℕ → ℕ → ℕ → Memory → Outcome (ℕ × Memory)
strcat fuel dst src m = do
  dst_len ← strlen fuel dst m
  m' ← append_from fuel 0 (dst + dst_len) src m
  ok (dst, m')

-- The first loop of strncpy() from index `i` with `n` rounds left, and then the second.
unfoldable pub strncpy_from : ℕ → ℕ → ℕ → ℕ → Memory → Memory
strncpy_from zero i dst src m = m
strncpy_from (suc n) i dst src m = elim (m (src + i) == 0) [
  | true ↦ fill (suc n) i dst 0 m
  | false ↦ strncpy_from n (i + 1) dst src (store m (dst + i) (m (src + i)))
]

-- strncpy(dst, src, n).
unfoldable pub strncpy : ℕ → ℕ → ℕ → Memory → ℕ × Memory
strncpy dst src n m = (dst, strncpy_from n 0 dst src m)
