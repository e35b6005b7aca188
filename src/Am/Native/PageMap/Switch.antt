-- ===== src/Am/Native/PageMap/Switch.antt =====
-- Switching between spaces.
use cpu_linux.Prelude.{
  ℕ, ◌<◌, ◌≡◌, ◌≢◌, ◌⊎◌, inl, inr, refl, sym, ap, subst, ◌∙◌, Bool, true, false, List, [], ◌==◌,
  if◌then◌else◌, length, arith, Outcome, ok, ◌>>=◌,
}
use cpu_linux.Am.Native.PageMap.{Hash, Platform, unless_null, mmap_all, munmap_all, am_switch}
use cpu_linux.Am.Native.PageMap.Listing.{
  IsListed, SameLinks, SameLinks-trans, IsListed-SameLinks, AllInRange, AllInRange-SameLinks, shown,
  shown-SameLinks, hidden, mmap_all_lem, munmap_all_lem,
}

module _ (h : Hash) where
  -- The pages of a space, or none for NULL.
  abbrev pub IsSpaceOf : Platform h → ℕ → List ℕ → Type 0
  IsSpaceOf m head l =
      ((head ≡ 0) × (l ≡ [])) ⊎ ((head ≢ 0) × IsListed m.pages (m.vm_heads head).head l)

  unmap_lem :
      (fuel : ℕ) (m : Platform h) (l : List ℕ)
      → IsSpaceOf m m.vm_head l
      → length l < fuel
      → (m' : Platform h) × (unless_null h m.vm_head (munmap_all h fuel) m ≡ ok m')
        × SameLinks m.pages m'.pages
        × (m'.vm_heads ≡ m.vm_heads)
        × ((q : ℕ) → m'.host q ≡ hidden m.pages l q (m.host q))
  unmap_lem fuel m l (inl (z, e)) k =
      (m, rw z refl, λ q. (refl, refl, refl, refl), refl, λ q. rw e refl)
  unmap_lem fuel m l (inr (n, i)) k =
      let (m', e, s, v, f) = munmap_all_lem h l fuel (m.vm_heads m.vm_head).head m i k in
      (m', ground (arith, e), s, v, f)

  map_lem :
      (fuel head : ℕ) (m : Platform h) (l : List ℕ)
      → IsSpaceOf m head l
      → AllInRange m.pages l
      → length l < fuel
      → (m' : Platform h) × (unless_null h head (mmap_all h fuel) m ≡ ok m')
        × SameLinks m.pages m'.pages
        × (m'.vm_heads ≡ m.vm_heads)
        × ((q : ℕ) → m'.host q ≡ shown m.pages l q (m.host q))
  map_lem fuel head m l (inl (z, e)) r k =
      (m, rw z refl, λ q. (refl, refl, refl, refl), refl, λ q. rw e refl)
  map_lem fuel head m l (inr (n, i)) r k =
      let (m', e, s, v, f) = mmap_all_lem h l fuel (m.vm_heads head).head m i r k in
      (m', ground (arith, e), s, v, f)

  moved :
      (m m' : Platform h) (head : ℕ) (l : List ℕ)
      → SameLinks m.pages m'.pages
      → m'.vm_heads ≡ m.vm_heads
      → IsSpaceOf m head l
      → IsSpaceOf m' head l
  moved m m' head l s v (inl z) = inl z
  moved m m' head l s v (inr (n, i)) = inr (
    n,
    IsListed-SameLinks m.pages m'.pages (m'.vm_heads head).head l s
        (subst (λ t. IsListed m.pages (t head).head l) (sym v) i),
  )

  switch_calls :
      (fuel head : ℕ) (m m₁ m₂ : Platform h)
      → head ≢ m.vm_head
      → unless_null h m.vm_head (munmap_all h fuel) m ≡ ok m₁
      → unless_null h head (mmap_all h fuel) m₁ ≡ ok m₂
      → am_switch h fuel true head m ≡ ok (record m₂ { vm_head = head })
  unfolding am_switch
  switch_calls fuel head m m₁ m₂ n e f =
      let other : (head == m.vm_head) ≡ false = ground arith in
      ap
        (λ (b : Bool).
          if b
          then ok m
          else (unless_null h m.vm_head (munmap_all h fuel) m >>= λ m₁.
              unless_null h head (mmap_all h fuel) m₁ >>= λ m₂. ok (record m₂ { vm_head = head })))
        other
      ∙ ap
          (λ (o : Outcome (Platform h)). o >>= λ m₁.
            unless_null h head (mmap_all h fuel) m₁ >>= λ m₂. ok (record m₂ { vm_head = head }))
          e
      ∙ ap (λ (o : Outcome (Platform h)). o >>= λ m₂. ok (record m₂ { vm_head = head })) f

  -- A switch between two spaces whose lists end, the new one with addresses of the user, itself ends, given
  -- fuel for the longer list. The host then has the old space's pages unmapped and the new space's pages
  -- mapped, and both lists are as they were.
  pub am_switch_lem :
      (fuel head : ℕ) (m : Platform h) (old new : List ℕ)
      → head ≢ m.vm_head
      → IsSpaceOf m m.vm_head old
      → IsSpaceOf m head new
      → AllInRange m.pages new
      → length old < fuel
      → length new < fuel
      → (m' : Platform h) × (am_switch h fuel true head m ≡ ok m')
        × (m'.vm_head ≡ head)
        × IsSpaceOf m' m.vm_head old
        × IsSpaceOf m' head new
        × ((q : ℕ) → m'.host q ≡ shown m.pages new q (hidden m.pages old q (m.host q)))
  am_switch_lem fuel head m old new n o w r k l =
      let (m₁, e₁, s₁, v₁, f₁) = unmap_lem fuel m old o k in
      let (m₂, e₂, s₂, v₂, f₂) =
        map_lem fuel head m₁ new (moved m m₁ head new s₁ v₁ w)
          (AllInRange-SameLinks m.pages m₁.pages new s₁ r) l in
      let s = SameLinks-trans m.pages m₁.pages m₂.pages s₁ s₂ in
      let m' = record m₂ { vm_head = head } in
      (
        m',
        switch_calls fuel head m m₁ m₂ n e₁ e₂,
        refl,
        moved m m' m.vm_head old s (v₂ ∙ v₁) o,
        moved m m' head new s (v₂ ∙ v₁) w,
        λ q.
            f₂ q
            ∙ shown-SameLinks m.pages m₁.pages new q (m₁.host q) s₁
            ∙ ap (shown m.pages new q) (f₁ q),
      )
