-- ===== src/Am/Native/PageMap/Listing.antt =====
-- The list of a space: what the loops of __am_switch() do with it, and how map() makes it longer.
use cpu_linux.Prelude.{
  ℕ, zero, suc, ◌<◌, ◌≡◌, ◌≢◌, refl, sym, ap, subst, ◌∙◌, true, ◌&&◌, Option, none, some, List, [],
  ◌∷◌, ◌==◌, if◌then◌else◌, length, arith, ok,
}
use cpu_linux.Am.Vme.{in_range}
use cpu_linux.Am.Native.PageMap.{
  user_space, PageMap, Hash, Platform, mmap_page, munmap_page, mmap_all, munmap_all,
}

-- The pages of the list from `p` on.
abbrev pub IsListed : (ℕ → PageMap) → ℕ → List ℕ → Type 0
IsListed pages p [] = p ≡ 0
IsListed pages p (q ∷ l) = (p ≡ q) × (p ≢ 0) × IsListed pages (pages p).next l

-- The pages differ at most in `is_mapped`.
abbrev pub SameLinks : (ℕ → PageMap) → (ℕ → PageMap) → Type 0
SameLinks pages pages' =
    (p : ℕ)
    → ((pages' p).va ≡ (pages p).va)
      × ((pages' p).pa ≡ (pages p).pa)
      × ((pages' p).next ≡ (pages p).next)
      × ((pages' p).prot ≡ (pages p).prot)

pub SameLinks-trans : (f g h : ℕ → PageMap) → SameLinks f g → SameLinks g h → SameLinks f h
SameLinks-trans f g h s t p =
    ((t p).0 ∙ (s p).0, (t p).1 ∙ (s p).1, (t p).2 ∙ (s p).2, (t p).3 ∙ (s p).3)

pub IsListed-SameLinks :
    (f g : ℕ → PageMap) (p : ℕ) (l : List ℕ) → SameLinks f g → IsListed f p l → IsListed g p l
IsListed-SameLinks f g p [] s h = h
IsListed-SameLinks f g p (q ∷ l) s h = (
  h.0,
  h.1,
  IsListed-SameLinks f g (g p).next l s (subst (λ t. IsListed f t l) (sym ((s p).2)) h.2),
)

-- What the host has at address `q` after the pages of the list were mapped: the last page for it.
abbrev pub shown : (ℕ → PageMap) → List ℕ → ℕ → Option (ℕ × ℕ) → Option (ℕ × ℕ)
shown pages [] q old = old
shown pages (p ∷ l) q old =
    shown pages l q (if (pages p).va == q then some ((pages p).pa, (pages p).prot) else old)

pub shown-SameLinks :
    (f g : ℕ → PageMap) (l : List ℕ) (q : ℕ) (old : Option (ℕ × ℕ))
    → SameLinks f g
    → shown g l q old ≡ shown f l q old
shown-SameLinks f g [] q old s = refl
shown-SameLinks f g (p ∷ l) q old s =
    rw ((s p).0, (s p).1, (s p).3)
      (shown-SameLinks f g l q (if (f p).va == q then some ((f p).pa, (f p).prot) else old) s)

-- ... and after those that are mapped were unmapped.
abbrev pub hidden : (ℕ → PageMap) → List ℕ → ℕ → Option (ℕ × ℕ) → Option (ℕ × ℕ)
hidden pages [] q old = old
hidden pages (p ∷ l) q old =
    hidden pages l q (if (pages p).is_mapped && (pages p).va == q then none else old)

abbrev pub AllInRange : (ℕ → PageMap) → List ℕ → Type 0
AllInRange pages [] = Unit
AllInRange pages (p ∷ l) = (in_range (pages p).va user_space ≡ true) × AllInRange pages l

pub AllInRange-SameLinks :
    (f g : ℕ → PageMap) (l : List ℕ) → SameLinks f g → AllInRange f l → AllInRange g l
AllInRange-SameLinks f g [] s h = tt
AllInRange-SameLinks f g (p ∷ l) s h =
    (ap (λ v. in_range v user_space) ((s p).0) ∙ h.0, AllInRange-SameLinks f g l s h.1)

module _ (h : Hash) where
  pub munmap_page-SameLinks : (p : ℕ) (m : Platform h) → SameLinks m.pages (munmap_page h p m).pages
  unfolding munmap_page
  munmap_page-SameLinks p m q = ground arith

  pub mmap_page-SameLinks : (p : ℕ) (m : Platform h) → SameLinks m.pages (mmap_page h p m).pages
  unfolding mmap_page
  mmap_page-SameLinks p m q = ground arith

  mmap_all_step :
      (fuel p : ℕ) (m : Platform h)
      → p ≢ 0
      → in_range (m.pages p).va user_space ≡ true
      → mmap_all h (suc fuel) p m ≡ mmap_all h fuel (m.pages p).next (mmap_page h p m)
  unfolding mmap_all
  mmap_all_step fuel p m n r = ground arith

  mmap_all_end : (fuel p : ℕ) (m : Platform h) → p ≡ 0 → mmap_all h (suc fuel) p m ≡ ok m
  unfolding mmap_all
  mmap_all_end fuel p m e = ground arith

  mmap_page-host :
      (p q : ℕ) (m : Platform h) (t : ℕ)
      → p ≡ q
      → (mmap_page h p m).host t
        ≡ (if (m.pages q).va == t then some ((m.pages q).pa, (m.pages q).prot) else m.host t)
  unfolding mmap_page
  mmap_page-host p q m t e = rw (sym e) refl

  -- Mapping the pages of a list ends, given fuel for its length, and shows them.
  pub mmap_all_lem :
      (l : List ℕ) (fuel p : ℕ) (m : Platform h)
      → IsListed m.pages p l
      → AllInRange m.pages l
      → length l < fuel
      → (m' : Platform h) × (mmap_all h fuel p m ≡ ok m')
        × SameLinks m.pages m'.pages
        × (m'.vm_heads ≡ m.vm_heads)
        × ((q : ℕ) → m'.host q ≡ shown m.pages l q (m.host q))
  mmap_all_lem l zero p m i r k = absurd (omega arith)
  mmap_all_lem [] (suc fuel) p m i r k =
      (m, mmap_all_end fuel p m i, λ q. (refl, refl, refl, refl), refl, λ q. refl)
  mmap_all_lem (q ∷ l) (suc fuel) p m i r k =
      let m₁ = mmap_page h p m in
      let same = mmap_page-SameLinks p m in
      let (m', e, s, v, f) =
        mmap_all_lem l fuel (m.pages p).next m₁
          (IsListed-SameLinks m.pages m₁.pages (m.pages p).next l same i.2)
          (AllInRange-SameLinks m.pages m₁.pages l same r.1) (omega arith) in
      (
        m',
        mmap_all_step fuel p m i.1 (ap (λ t. in_range (m.pages t).va user_space) i.0 ∙ r.0) ∙ e,
        SameLinks-trans m.pages m₁.pages m'.pages same s,
        v ∙ unfold mmap_page in refl,
        λ t.
            f t
            ∙ shown-SameLinks m.pages m₁.pages l t (m₁.host t) same
            ∙ ap (shown m.pages l t) (mmap_page-host p q m t i.0),
      )

  pub munmap_all_step :
      (fuel p : ℕ) (m : Platform h)
      → p ≢ 0
      → munmap_all h (suc fuel) p m ≡ munmap_all h fuel (m.pages p).next (munmap_page h p m)
  unfolding munmap_all
  munmap_all_step fuel p m n = ground arith

  munmap_all_end : (fuel p : ℕ) (m : Platform h) → p ≡ 0 → munmap_all h (suc fuel) p m ≡ ok m
  unfolding munmap_all
  munmap_all_end fuel p m e = ground arith

  munmap_page-host :
      (p q : ℕ) (m : Platform h) (t : ℕ)
      → p ≡ q
      → (munmap_page h p m).host t
        ≡ (if (m.pages q).is_mapped && (m.pages q).va == t then none else m.host t)
  unfolding munmap_page
  munmap_page-host p q m t e = rw (sym e) (ground arith)

  same_none :
      (p q : ℕ) (m : Platform h) (t : ℕ) (old : Option (ℕ × ℕ))
      → ((m.pages p).is_mapped && (m.pages p).va == t ≡ true → old ≡ none)
      → (if ((munmap_page h p m).pages q).is_mapped && ((munmap_page h p m).pages q).va == t
          then none
          else old)
        ≡ (if (m.pages q).is_mapped && (m.pages q).va == t then none else old)
  unfolding munmap_page
  same_none p q m t old g = ground arith

  munmap_page-vm_heads : (p : ℕ) (m : Platform h) → (munmap_page h p m).vm_heads ≡ m.vm_heads
  unfolding munmap_page
  munmap_page-vm_heads p m = ground arith

  -- A page that was unmapped is hidden, so that it need not be unmapped again.
  hidden-munmap_page :
      (p : ℕ) (m : Platform h) (l : List ℕ) (t : ℕ) (old : Option (ℕ × ℕ))
      → ((m.pages p).is_mapped && (m.pages p).va == t ≡ true → old ≡ none)
      → hidden (munmap_page h p m).pages l t old ≡ hidden m.pages l t old
  hidden-munmap_page p m [] t old g = refl
  hidden-munmap_page p m (q ∷ l) t old g =
      ap (hidden (munmap_page h p m).pages l t) (same_none p q m t old g)
      ∙ hidden-munmap_page p m l t
          (if (m.pages q).is_mapped && (m.pages q).va == t then none else old)
          (λ e. ground (arith, g))

  -- Unmapping the pages of a list ends, given fuel for its length, and hides them.
  pub munmap_all_lem :
      (l : List ℕ) (fuel p : ℕ) (m : Platform h)
      → IsListed m.pages p l
      → length l < fuel
      → (m' : Platform h) × (munmap_all h fuel p m ≡ ok m')
        × SameLinks m.pages m'.pages
        × (m'.vm_heads ≡ m.vm_heads)
        × ((q : ℕ) → m'.host q ≡ hidden m.pages l q (m.host q))
  munmap_all_lem l zero p m i k = absurd (omega arith)
  munmap_all_lem [] (suc fuel) p m i k =
      (m, munmap_all_end fuel p m i, λ q. (refl, refl, refl, refl), refl, λ q. refl)
  munmap_all_lem (q ∷ l) (suc fuel) p m i k =
      let m₁ = munmap_page h p m in
      let same = munmap_page-SameLinks p m in
      let (m', e, s, v, f) =
        munmap_all_lem l fuel (m.pages p).next m₁
          (IsListed-SameLinks m.pages m₁.pages (m.pages p).next l same i.2) (omega arith) in
      (
        m',
        munmap_all_step fuel p m i.1 ∙ e,
        SameLinks-trans m.pages m₁.pages m'.pages same s,
        v ∙ munmap_page-vm_heads p m,
        λ t.
            f t
            ∙ hidden-munmap_page p m l t (m₁.host t)
                (λ g. munmap_page-host p p m t refl ∙ ground arith)
            ∙ ap (hidden m.pages l t) (munmap_page-host p q m t i.0),
      )
