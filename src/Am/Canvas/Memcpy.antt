-- ===== src/Am/Canvas/Memcpy.antt =====
-- What gpu_memcpy() copies.
use cpu_linux.Prelude.{
  ℕ, zero, suc, ◌+◌, ◌-◌, ◌≤◌, ◌<◌, ◌≡◌, refl, ap, ◌∙◌, ◌&&◌, ◌||◌, ltb, leb, ◌==◌, if◌then◌else◌,
  arith, undefined, ok, stop, dec_lt,
}
use mathlib.Core.Path.{fun_ext}
use cpu_linux.Am.Gpu.{vmem_size}
use cpu_linux.Am.Canvas.{memcpy_bytes, gpu_memcpy}

memcpy_bytes_step :
    (n i dst : ℕ) (src vmem : ℕ → ℕ)
    → dst + i < vmem_size
    → memcpy_bytes (suc n) i dst src vmem
      ≡ memcpy_bytes n (i + 1) dst src (λ p. if p == dst + i then src i else vmem p)
unfolding memcpy_bytes
memcpy_bytes_step n i dst src vmem h = ground arith

memcpy_bytes_outside :
    (n i dst : ℕ) (src vmem : ℕ → ℕ)
    → vmem_size ≤ dst + i
    → memcpy_bytes (suc n) i dst src vmem ≡ stop undefined
unfolding memcpy_bytes
memcpy_bytes_outside n i dst src vmem h = ground arith

memcpy_bytes_copied :
    (n i dst : ℕ) (src vmem : ℕ → ℕ)
    → dst + i + n ≤ vmem_size
    → (vmem' : ℕ → ℕ) × (memcpy_bytes n i dst src vmem ≡ ok vmem')
      × ((p : ℕ)
          → vmem' p ≡ (if leb (dst + i) p && ltb p (dst + i + n) then src (p - dst) else vmem p))
unfolding memcpy_bytes
memcpy_bytes_copied zero i dst src vmem h = (vmem, refl, λ p. ground arith)
memcpy_bytes_copied (suc n) i dst src vmem h =
    let mid : ℕ → ℕ = λ p. if p == dst + i then src i else vmem p in
    let (vmem', e, same) = memcpy_bytes_copied n (i + 1) dst src mid (omega arith) in
    (vmem', memcpy_bytes_step n i dst src vmem (omega arith) ∙ e, λ p. same p ∙ one_more p)
  where
    one_more :
        (p : ℕ)
        → (if leb (dst + (i + 1)) p && ltb p (dst + (i + 1) + n)
            then src (p - dst)
            else if p == dst + i
            then src i
            else vmem p)
          ≡ (if leb (dst + i) p && ltb p (dst + i + suc n) then src (p - dst) else vmem p)
    one_more p = ground (arith, λ (l : p ≡ dst + i). ap src {x = i} {y = p - dst} (omega arith))

memcpy_bytes_overrun :
    (n i dst : ℕ) (src vmem : ℕ → ℕ)
    → 0 < n
    → vmem_size < dst + i + n
    → memcpy_bytes n i dst src vmem ≡ stop undefined
memcpy_bytes_overrun zero i dst src vmem h k = absurd (omega arith)
memcpy_bytes_overrun (suc n) i dst src vmem h k = elim (dec_lt (dst + i) vmem_size) [
  | no far ↦ memcpy_bytes_outside n i dst src vmem (omega arith)
  | yes near ↦
      memcpy_bytes_step n i dst src vmem near
      ∙ memcpy_bytes_overrun n (i + 1) dst src (λ p. if p == dst + i then src i else vmem p)
          (omega arith) (omega arith)
]

-- The memory of the GPU with `size` bytes of `src` from `dest` on.
unfoldable pub copied : (dest size : ℕ) → (ℕ → ℕ) → (ℕ → ℕ) → ℕ → ℕ
copied dest size src vmem p = if leb dest p && ltb p (dest + size) then src (p - dest) else vmem p

-- gpu_memcpy() of `size` bytes to `dest`: if they fit the memory of the GPU, or there are none, the bytes from `dest`
-- on are those of `src` afterwards, and the other ones are as they were. Otherwise the loop writes behind the
-- end, which is undefined.
pub gpu_memcpy_lem :
    (dest size : ℕ) (src vmem : ℕ → ℕ)
    → gpu_memcpy dest size src vmem ≡ (
        if size == 0 || leb (dest + size) vmem_size
        then ok (copied dest size src vmem)
        else stop undefined)
unfolding gpu_memcpy copied
gpu_memcpy_lem dest zero src vmem = ap ok (fun_ext (λ p. ground arith))
gpu_memcpy_lem dest (suc n) src vmem = elim (dec_lt vmem_size (dest + suc n)) [
  | yes over ↦
      memcpy_bytes_overrun (suc n) 0 dest src vmem (omega arith) (omega arith) ∙ ground arith
  | no fits ↦
      let (vmem', e, same) = memcpy_bytes_copied (suc n) 0 dest src vmem (omega arith) in
      e
      ∙ ap ok (fun_ext {f = vmem'} {g = copied dest (suc n) src vmem} (λ p. same p ∙ ground arith))
      ∙ ground arith
]
