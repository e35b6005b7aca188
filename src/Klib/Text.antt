-- ===== src/Klib/Text.antt =====
-- abstract-machine/klib/src/string.c: the comparisons. `char` is unsigned on the machine, and the
-- results are integers.
pub mod Order
use cpu_linux.Prelude.{
  ◌>>=◌, ◌>>◌, ℕ, zero, suc, ◌+◌, not, ◌&&◌, ◌||◌, ◌==◌, if◌then◌else◌, assertion, out_of_fuel,
  Outcome, ok, stop, guard,
}
use cpu_linux.Prelude.Int.{ℤ, pos, sub_ℕ}
use cpu_linux.Klib.Mem.{Memory}

-- The loop of strcmp() from index `i` on, on fuel.
unfoldable pub strcmp_from : ℕ → ℕ → ℕ → ℕ → Memory → Outcome ℤ
strcmp_from zero i s t m = stop out_of_fuel
strcmp_from (suc fuel) i s t m =
    let rest = strcmp_from fuel (i + 1) s t m in
    if m (s + i) == m (t + i)
    then (if m (s + i) == 0 then ok (pos 0) else rest)
    else ok (sub_ℕ (m (s + i)) (m (t + i)))

-- strcmp(s1, s2).
unfoldable pub strcmp : ℕ → ℕ → ℕ → Memory → Outcome ℤ
strcmp fuel s t m = do guard (not (s == 0) && not (t == 0)) assertion; strcmp_from fuel 0 s t m

-- The loop of strncmp() from index `i` on, with `n` rounds left.
unfoldable pub strncmp_from : ℕ → ℕ → ℕ → ℕ → Memory → ℤ
strncmp_from zero i s t m = pos 0
strncmp_from (suc n) i s t m =
    let rest = strncmp_from n (i + 1) s t m in
    if m (s + i) == m (t + i)
    then (if m (s + i) == 0 then pos 0 else rest)
    else sub_ℕ (m (s + i)) (m (t + i))

-- strncmp(s1, s2, n).
unfoldable pub strncmp : ℕ → ℕ → ℕ → Memory → ℤ
strncmp s t n m = if s == 0 || t == 0 then pos 0 else strncmp_from n 0 s t m

unfoldable pub memcmp_from : ℕ → ℕ → ℕ → ℕ → Memory → ℤ
memcmp_from zero i s t m = pos 0
memcmp_from (suc n) i s t m =
    let rest = memcmp_from n (i + 1) s t m in
    if m (s + i) == m (t + i) then rest else sub_ℕ (m (s + i)) (m (t + i))

-- memcmp(s1, s2, n).
unfoldable pub memcmp : ℕ → ℕ → ℕ → Memory → ℤ
memcmp s t n m = memcmp_from n 0 s t m
