-- ===== src/Am/Native/PageMap/New.antt =====
-- A page that is mapped for the first time.
use cpu_linux.Prelude.{
  ℕ, ◌+◌, ◌%◌, ◌≡◌, ◌≢◌, refl, sym, ap, subst, ◌∙◌, Bool, true, false, Option, none, some, List, [],
  ◌∷◌, ◌==◌, if◌then◌else◌, arith, ok,
}
use cpu_linux.Am.Vme.{in_range, pgsize}
use cpu_linux.Am.Native.PageMap.{
  user_space, key_of, PageMap, Hash, Platform, set_at, mmap_page, link_page, page_for, map,
}
use cpu_linux.Am.Native.PageMap.Listing.{
  IsListed, SameLinks, IsListed-SameLinks, mmap_page-SameLinks,
}

-- `f` is none of the pages.
abbrev pub IsNew : ℕ → List ℕ → Type 0
IsNew f [] = Unit
IsNew f (p ∷ l) = (f ≢ p) × IsNew f l

IsListed-set_at :
    (pages : ℕ → PageMap) (p f : ℕ) (page : PageMap) (l : List ℕ)
    → IsNew f l
    → IsListed pages p l
    → IsListed (set_at pages f page) p l
IsListed-set_at pages p f page [] w i = i
IsListed-set_at pages p f page (q ∷ l) w i =
    let same : pages p ≡ set_at pages f page p = ground arith in
    (
      i.0,
      i.1,
      subst (λ (t : PageMap). IsListed (set_at pages f page) t.next l) same
          (IsListed-set_at pages (pages p).next f page l w.1 i.2),
    )

module _ (h : Hash) (vm_head va pa prot f : ℕ) (fs : List ℕ) (m : Platform h) (table : h.Table)
    (l : List ℕ) (frames : m.frames ≡ f ∷ fs) (nonnull : f ≢ 0) where
  abbrev entered : Platform h
  entered = record m {
    vm_heads =
        set_at m.vm_heads vm_head (record (m.vm_heads vm_head) {
          hash = table;
          nr_page = (m.vm_heads vm_head).nr_page + 1;
        });
    frames = fs;
  }

  abbrev linked : Platform h
  linked = link_page h vm_head f va pa prot entered

  page_for_new :
      h.enter (m.vm_heads vm_head).hash (key_of va) f ≡ some table
      → page_for h vm_head none va m ≡ ok (f, entered)
  unfolding page_for
  page_for_new e = rw frames (ground (arith, e))

  linked-page :
      ((linked.pages f).va ≡ va) × ((linked.pages f).pa ≡ pa) × ((linked.pages f).prot ≡ prot)
  unfolding link_page
  linked-page = (ground arith, ground arith, ground arith)

  linked-head : (linked.vm_heads vm_head).head ≡ f
  unfolding link_page
  linked-head = ground arith

  linked-next : (linked.pages f).next ≡ (m.vm_heads vm_head).head
  unfolding link_page
  linked-next = ground arith

  linked-IsListed :
      IsNew f l → IsListed m.pages (m.vm_heads vm_head).head l → IsListed linked.pages f (f ∷ l)
  unfolding link_page
  linked-IsListed w i = (
    refl,
    nonnull,
    subst (λ t. IsListed linked.pages t l) (sym linked-next)
        (IsListed-set_at m.pages (m.vm_heads vm_head).head f _ l w i),
  )

  -- The machine that map() leaves.
  abbrev result : Platform h
  result = if vm_head == m.vm_head then mmap_page h f linked else linked

  map_calls :
      in_range va user_space ≡ true
      → va % pgsize ≡ 0
      → pa % pgsize ≡ 0
      → vm_head ≢ 0
      → h.find (m.vm_heads vm_head).hash (key_of va) ≡ none
      → h.enter (m.vm_heads vm_head).hash (key_of va) f ≡ some table
      → map h vm_head va pa prot m ≡ ok result
  unfolding map
  map_calls r v a z c e =
      let page : page_for h vm_head (h.find (m.vm_heads vm_head).hash (key_of va)) va m
          ≡ ok (f, entered) =
        ap (λ (o : Option ℕ). page_for h vm_head o va m) c ∙ page_for_new e in
      ground (arith, page)

  maybe_mapped-SameLinks :
      (b : Bool) → SameLinks linked.pages (if b then mmap_page h f linked else linked).pages
  maybe_mapped-SameLinks true = mmap_page-SameLinks h f linked
  maybe_mapped-SameLinks false = λ q. (refl, refl, refl, refl)

  maybe_mapped-head :
      (b : Bool) → ((if b then mmap_page h f linked else linked).vm_heads vm_head).head ≡ f
  unfolding mmap_page
  maybe_mapped-head true = linked-head
  maybe_mapped-head false = linked-head

  maybe_mapped-host :
      (b : Bool)
      → (if b then mmap_page h f linked else linked).host va
        ≡ (if b then some (pa, prot) else m.host va)
  unfolding mmap_page link_page
  maybe_mapped-host true = ground arith
  maybe_mapped-host false = refl

-- map() of an address for which the space has no page, with a page left that is not in the space's list and
-- a table that takes it, puts the new page in front of the list, with the address, the physical page and
-- the protection. The host maps it at once exactly if the space is the current one.
pub map_new :
    (h : Hash) (vm_head va pa prot f : ℕ) (fs : List ℕ) (m : Platform h) (table : h.Table)
    (l : List ℕ)
    → in_range va user_space ≡ true
    → va % pgsize ≡ 0
    → pa % pgsize ≡ 0
    → vm_head ≢ 0
    → h.find (m.vm_heads vm_head).hash (key_of va) ≡ none
    → h.enter (m.vm_heads vm_head).hash (key_of va) f ≡ some table
    → m.frames ≡ f ∷ fs
    → f ≢ 0
    → IsNew f l
    → IsListed m.pages (m.vm_heads vm_head).head l
    → (m' : Platform h) × (map h vm_head va pa prot m ≡ ok m')
      × IsListed m'.pages (m'.vm_heads vm_head).head (f ∷ l)
      × ((m'.pages f).va ≡ va)
      × ((m'.pages f).pa ≡ pa)
      × ((m'.pages f).prot ≡ prot)
      × (m'.host va ≡ (if vm_head == m.vm_head then some (pa, prot) else m.host va))
map_new h vm_head va pa prot f fs m table l r v a z c e k n w i =
    let m₁ = linked h vm_head va pa prot f fs m table l k n in
    let m' = result h vm_head va pa prot f fs m table l k n in
    let b = vm_head == m.vm_head in
    let s = maybe_mapped-SameLinks h vm_head va pa prot f fs m table l k n b in
    let page = linked-page h vm_head va pa prot f fs m table l k n in
    (
      m',
      map_calls h vm_head va pa prot f fs m table l k n r v a z c e,
      subst (λ t. IsListed m'.pages t (f ∷ l))
          (sym (maybe_mapped-head h vm_head va pa prot f fs m table l k n b))
          (IsListed-SameLinks m₁.pages m'.pages f (f ∷ l) s
            (linked-IsListed h vm_head va pa prot f fs m table l k n w i)),
      (s f).0 ∙ page.0,
      (s f).1 ∙ page.1,
      (s f).3 ∙ page.2,
      maybe_mapped-host h vm_head va pa prot f fs m table l k n b,
    )
