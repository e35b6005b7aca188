-- ===== src/Am/Native/PageMap/Again.antt =====
-- A page that is mapped a second time: map() puts it in front of the list that it is already in.
use cpu_linux.Prelude.{
  ℕ, zero, suc, ◌%◌, ◌≡◌, ◌≢◌, refl, sym, ap, subst, ◌∙◌, Bool, true, some, List, [], ◌∷◌, ◌==◌,
  if◌then◌else◌, arith, out_of_fuel, ok, stop,
}
use cpu_linux.Am.Vme.{in_range, pgsize}
use cpu_linux.Am.Native.PageMap.{
  user_space, key_of, PageMap, Hash, Platform, munmap_all, munmap_page, mmap_page, link_page,
  page_for, map, am_switch,
}
use cpu_linux.Am.Native.PageMap.Listing.{
  SameLinks, munmap_all_step, munmap_page-SameLinks, mmap_page-SameLinks,
}

-- The pages before `p` in a list.
abbrev pub IsBefore : (ℕ → PageMap) → ℕ → List ℕ → ℕ → Type 0
IsBefore pages q [] p = q ≡ p
IsBefore pages q (r ∷ l) p = (q ≡ r) × (q ≢ 0) × (q ≢ p) × IsBefore pages (pages q).next l p

IsBefore-SameLinks :
    (f g : ℕ → PageMap) (q p : ℕ) (l : List ℕ) → SameLinks f g → IsBefore f q l p → IsBefore g q l p
IsBefore-SameLinks f g q p [] s h = h
IsBefore-SameLinks f g q p (r ∷ l) s h = (
  h.0,
  h.1,
  h.2,
  IsBefore-SameLinks f g (g q).next p l s (subst (λ t. IsBefore f t l p) (sym ((s q).2)) h.3),
)

module _ (h : Hash) where
  -- A list that comes back to `p` has no end.
  munmap_all_cycle :
      (fuel q p head : ℕ) (m : Platform h) (l before : List ℕ)
      → p ≢ 0
      → (m.pages p).next ≡ head
      → IsBefore m.pages head before p
      → IsBefore m.pages q l p
      → munmap_all h fuel q m ≡ stop out_of_fuel
  unfolding munmap_all
  munmap_all_cycle zero q p head m l before n e b i = refl
  munmap_all_cycle (suc fuel) q p head m [] before n e b i =
      let m₁ = munmap_page h q m in
      let s = munmap_page-SameLinks h q m in
      let start = IsBefore-SameLinks m.pages m₁.pages head p before s b in
      munmap_all_step h fuel q m (λ z. n (sym i ∙ z))
      ∙ munmap_all_cycle fuel (m.pages q).next p head m₁ before before n ((s p).2 ∙ e) start
          (subst (λ t. IsBefore m₁.pages t before p) (sym (ap (λ t. (m.pages t).next) i ∙ e)) start)
  munmap_all_cycle (suc fuel) q p head m (r ∷ l) before n e b i =
      let m₁ = munmap_page h q m in
      let s = munmap_page-SameLinks h q m in
      munmap_all_step h fuel q m i.1
      ∙ munmap_all_cycle fuel (m.pages q).next p head m₁ l before n ((s p).2 ∙ e)
          (IsBefore-SameLinks m.pages m₁.pages head p before s b)
          (IsBefore-SameLinks m.pages m₁.pages (m.pages q).next p l s i.3)

  switch_cycle :
      (fuel head p first : ℕ) (m : Platform h) (before : List ℕ)
      → head ≢ m.vm_head
      → m.vm_head ≢ 0
      → (m.vm_heads m.vm_head).head ≡ p
      → p ≢ 0
      → (m.pages p).next ≡ first
      → IsBefore m.pages first before p
      → am_switch h fuel true head m ≡ stop out_of_fuel
  unfolding am_switch
  switch_cycle fuel head p first m before o z c n e b =
      ground (arith, munmap_all_cycle fuel (m.vm_heads m.vm_head).head p first m [] before n e b c)

module _ (h : Hash) (vm_head va pa prot p : ℕ) (m : Platform h) (before : List ℕ) (nonnull : p ≢ 0)
    (listed : IsBefore m.pages (m.vm_heads vm_head).head before p) where
  abbrev linked : Platform h
  linked = link_page h vm_head p va pa prot m

  linked-next : (linked.pages p).next ≡ (m.vm_heads vm_head).head
  unfolding link_page
  linked-next = ground arith

  linked-IsBefore : (q : ℕ) (l : List ℕ) → IsBefore m.pages q l p → IsBefore linked.pages q l p
  unfolding link_page
  linked-IsBefore q [] i = i
  linked-IsBefore q (r ∷ l) i =
      let same : m.pages q ≡ linked.pages q = ground (arith, i.2) in
      (
        i.0,
        i.1,
        i.2,
        subst (λ (t : PageMap). IsBefore linked.pages t.next l p) same
            (linked-IsBefore (m.pages q).next l i.3),
      )

  map_calls :
      in_range va user_space ≡ true
      → va % pgsize ≡ 0
      → pa % pgsize ≡ 0
      → vm_head ≢ 0
      → vm_head ≡ m.vm_head
      → h.find (m.vm_heads vm_head).hash (key_of va) ≡ some p
      → map h vm_head va pa prot m ≡ ok (mmap_page h p linked)
  unfolding map page_for
  map_calls r v a z c f =
      let current : (vm_head == m.vm_head) ≡ true = ground arith in
      let calls : map h vm_head va pa prot m
          ≡ ok (if vm_head == m.vm_head then mmap_page h p linked else linked) =
        ground arith in
      calls ∙ ap (λ (b : Bool). ok (if b then mmap_page h p linked else linked)) current

  mapped-vm_head : (mmap_page h p linked).vm_head ≡ m.vm_head
  unfolding mmap_page link_page
  mapped-vm_head = refl

  mapped-head : (t : ℕ) → vm_head ≡ t → ((mmap_page h p linked).vm_heads t).head ≡ p
  unfolding mmap_page link_page
  mapped-head t e = ground arith

-- If the current space has a page for an address in its list, which map() does not unlink, map() succeeds
-- for this address and then no switch to another space ends, whatever the fuel.
pub map_again :
    (h : Hash) (vm_head va pa prot p : ℕ) (m : Platform h) (before : List ℕ)
    → in_range va user_space ≡ true
    → va % pgsize ≡ 0
    → pa % pgsize ≡ 0
    → vm_head ≢ 0
    → vm_head ≡ m.vm_head
    → h.find (m.vm_heads vm_head).hash (key_of va) ≡ some p
    → p ≢ 0
    → IsBefore m.pages (m.vm_heads vm_head).head before p
    → (m' : Platform h) × (map h vm_head va pa prot m ≡ ok m')
      × ((fuel head : ℕ) → head ≢ vm_head → am_switch h fuel true head m' ≡ stop out_of_fuel)
map_again h vm_head va pa prot p m before r v a z c f n b =
    let m₁ = linked h vm_head va pa prot p m before n b in
    let m' = mmap_page h p m₁ in
    let s = mmap_page-SameLinks h p m₁ in
    let current : m'.vm_head ≡ m.vm_head = mapped-vm_head h vm_head va pa prot p m before n b in
    (
      m',
      map_calls h vm_head va pa prot p m before n b r v a z c f,
      λ fuel head o.
          switch_cycle h fuel head p (m.vm_heads vm_head).head m' before
            (λ e. o (e ∙ current ∙ sym c)) (λ e. z (c ∙ sym current ∙ e))
            (mapped-head h vm_head va pa prot p m before n b m'.vm_head (c ∙ sym current)) n
            ((s p).2 ∙ linked-next h vm_head va pa prot p m before n b)
            (IsBefore-SameLinks m₁.pages m'.pages (m.vm_heads vm_head).head p before s (
              linked-IsBefore h vm_head va pa prot p m before n b (m.vm_heads vm_head).head before
                b)),
    )
