-- ===== src/Klib/Mem/Copies.antt =====
-- What is in the memory after a copy.
use cpu_linux.Prelude.{
  ℕ, zero, suc, ◌+◌, ◌-◌, ◌%◌, ◌≤◌, ◌<◌, ◌≡◌, ap, ◌≢◌, ◌⊎◌, ◌&&◌, List, [], ◌∷◌, arith, ltb, leb,
  if◌then◌else◌, length, ok, stop, undefined, ◌==◌, ◌^◌, dec_lt,
}
use mathlib.Core.Path.{fun_ext}
use cpu_linux.Klib.Mem.{
  Memory, store, copy_up, copy_down, fill, memset, memmove, memcpy, strlen_from, strlen,
}

-- Upwards, no byte is overwritten before it is read if the target starts below the source or does
-- not reach into it.
copy_up-eq :
    (n i d s q : ℕ) (m : Memory)
    → (d ≤ s) ⊎ (s + i + n ≤ d + i)
    → copy_up n i d s m q ≡ (if leb (d + i) q && ltb q (d + i + n) then m (s + (q - d)) else m q)
unfolding copy_up
copy_up-eq zero i d s q m h = ground arith
copy_up-eq (suc n) i d s q m h =
    ground (arith, copy_up-eq n (i + 1) d s q (store m (d + i) (m (s + i))))

copy_down-eq :
    (n d s q : ℕ) (m : Memory)
    → s ≤ d
    → copy_down n d s m q ≡ (if leb d q && ltb q (d + n) then m (s + (q - d)) else m q)
unfolding copy_down
copy_down-eq zero d s q m h = ground arith
copy_down-eq (suc n) d s q m h =
    ground (arith, copy_down-eq n d s q (store m (d + n) (m (s + n))) h)

fill-eq :
    (n i p c q : ℕ) (m : Memory)
    → fill n i p c m q ≡ (if leb (p + i) q && ltb q (p + i + n) then c else m q)
unfolding fill
fill-eq zero i p c q m = ground arith
fill-eq (suc n) i p c q m = ground (arith, fill-eq n (i + 1) p c q (store m (p + i) c))

-- The memory with the bytes that the source held in the target.
pub moved : (dst src n : ℕ) → Memory → Memory
moved dst src n m q = if leb dst q && ltb q (dst + n) then m (src + (q - dst)) else m q

-- memmove() of `n` bytes between pointers that are not NULL, for `n` below 2^31, returns the target. The target then
-- holds the bytes that the source held before, however the two overlap, and no other byte changes. For `n` from
-- there on it overflows if the target is below the source. Otherwise it still copies 2^31 bytes, and nothing if
-- they are more.
pub memmove_lem :
    (dst src n : ℕ) (m : Memory)
    → 0 < dst
    → 0 < src
    → memmove dst src n m ≡ (
        if ltb n (2 ^ 31)
        then ok (dst, moved dst src n m)
        else if ltb dst src
        then stop undefined
        else if n == 2 ^ 31
        then ok (dst, moved dst src n m)
        else ok (dst, m))
unfolding memmove moved
memmove_lem dst src n m a b = elim (dec_lt dst src) [
  | yes below ↦ ground (
    arith,
    copied {f = copy_up n 0 dst src m} (λ q. ground (arith, copy_up-eq n 0 dst src q m)),
    nothing,
  )
  | no above ↦ ground (
    arith,
    copied {f = copy_down n dst src m} (λ q. copy_down-eq n dst src q m (omega arith)),
    nothing,
  )
]
  where
    copied : {f : Memory} → ((q : ℕ) → f q ≡ moved dst src n m q) → f ≡ moved dst src n m
    copied {f} same = fun_ext {f = f} {g = moved dst src n m} same

    nothing : n ≡ 0 → m ≡ moved dst src n m
    nothing e = fun_ext {f = m} {g = moved dst src n m} (λ q. ground arith)

-- memcpy() of `n` bytes between pointers that are not NULL, where the target starts at or below the
-- source or behind its end, returns the target. The target then holds the bytes that the source
-- held before, and no other byte changes.
pub memcpy_lem :
    (dst src n q : ℕ) (m : Memory)
    → 0 < dst
    → 0 < src
    → (dst ≤ src) ⊎ (src + n ≤ dst)
    → ((memcpy dst src n m).0 ≡ dst)
      × ((memcpy dst src n m).1 q
          ≡ (if leb dst q && ltb q (dst + n) then m (src + (q - dst)) else m q))
unfolding memcpy
memcpy_lem dst src n q m a b h = ground (arith, copy_up-eq n 0 dst src q m)

-- memset() at a pointer that is not NULL sets `n` bytes to the low byte of `c` and changes no other.
pub memset_lem :
    (p c n q : ℕ) (m : Memory)
    → 0 < p
    → (memset p c n m).1 q ≡ (if leb p q && ltb q (p + n) then c % 256 else m q)
unfolding memset
memset_lem p c n q m h = ground (arith, fill-eq n 0 p (c % 256) q m)

-- At `p` stands the text `t`, closed by a 0.
abbrev pub IsText : Memory → ℕ → List ℕ → Type 0
IsText m p [] = m p ≡ 0
IsText m p (c ∷ t) = (m p ≡ c) × (c ≢ 0) × IsText m (p + 1) t

strlen_from-eq :
    (t : List ℕ) (fuel i s p : ℕ) (m : Memory)
    → p ≡ s + i
    → IsText m p t
    → length t < fuel
    → strlen_from fuel i s m ≡ ok (i + length t)
unfolding strlen_from
strlen_from-eq t zero i s p m e h k = absurd (omega arith)
strlen_from-eq [] (suc fuel) i s p m e h k = ground (arith, ap m e)
strlen_from-eq (c ∷ t) (suc fuel) i s p m e h k =
    ground (arith, ap m e, strlen_from-eq t fuel (i + 1) s (p + 1) m (omega arith) h.2)

-- With fuel above the length of the closed text at `s`, strlen() returns the length.
pub strlen_lem :
    (t : List ℕ) (fuel s : ℕ) (m : Memory)
    → IsText m s t
    → length t < fuel
    → strlen fuel s m ≡ ok (length t)
unfolding strlen
strlen_lem t fuel s m h k = ground (arith, strlen_from-eq t fuel 0 s s m (omega arith) h k)
