-- ===== src/Am/Vme/Space.antt =====
-- An address space maps pages as a function from pages to entries, which map() changes at one page.
use cpu_linux.Prelude.{
  ℕ, ◌%◌, ◌<◌, ◌≡◌, ◌⊎◌, refl, ap, subst, ◌∙◌, true, false, List, ◌∷◌, arith, Bool-cases, inl, inr,
  ok,
}
use cpu_linux.Am.Vme.{
  Pages, AddrSpace, clear_words, pd_info, pt_info, is_present, indexof, baseof, pgallocz, next_page,
  take_frame, walk, root_page, ptwalk,
}
use cpu_linux.Am.Vme.Walk.{
  entry_of, IsTables, indexof_pd-lt, new_entry, grown, grown-IsTables, entry_of-grown,
}

-- The page directory exists, and its tables do not overlap.
pub record IsSpace (space : AddrSpace) (k : Pages) : Type 0 where
  pub root : is_present space.ptr ≡ true
  pub tables : IsTables k.words (baseof space.ptr) k.frames

-- What the processor finds for an address in a space.
abbrev pub mmu_entry : AddrSpace → Pages → ℕ → ℕ
mmu_entry space k addr = entry_of k.words (baseof space.ptr) addr

-- The table for the address exists, or there is a page for it.
abbrev pub HasRoom : AddrSpace → Pages → ℕ → Type 0
HasRoom space k addr =
    (is_present (k.words (baseof space.ptr) (indexof addr pd_info)) ≡ true)
    ⊎ ((f : ℕ) × (fs : List ℕ) × (k.frames ≡ f ∷ fs) × (0 < f))

-- The entry of the page table for the address, once the table exists.
abbrev pub place : AddrSpace → Pages → ℕ → ℕ × ℕ
place space k addr =
    (baseof (k.words (baseof space.ptr) (indexof addr pd_info)), indexof addr pt_info)

pub pgallocz_some :
    (k : Pages) (f : ℕ) (fs : List ℕ)
    → k.frames ≡ f ∷ fs
    → 0 < f
    → pgallocz k ≡ ok (f, record k { words = clear_words 1024 f k.words; frames = fs })
unfolding pgallocz
pgallocz_some k f fs e h = ap (λ l. take_frame l k) e ∙ ground arith

next_page_missing :
    (k : Pages) (pd i flags f : ℕ) (fs : List ℕ)
    → is_present (k.words pd i) ≡ false
    → k.frames ≡ f ∷ fs
    → 0 < f
    → next_page pd i flags k ≡ ok (f, record k { words = grown k.words pd i f flags; frames = fs })
unfolding next_page
next_page_missing k pd i flags f fs p e h = ground (arith, pgallocz_some k f fs e h)

module _ (space : AddrSpace) (addr flags : ℕ) where
  pub ptwalk_there :
      (k : Pages)
      → is_present space.ptr ≡ true
      → is_present (k.words (baseof space.ptr) (indexof addr pd_info)) ≡ true
      → ptwalk space addr flags k ≡ ok (place space k addr, space, k)
  unfolding ptwalk root_page walk next_page
  ptwalk_there k r p = ground arith

  ptwalk_missing :
      (k : Pages) (f : ℕ) (fs : List ℕ)
      → is_present space.ptr ≡ true
      → is_present (k.words (baseof space.ptr) (indexof addr pd_info)) ≡ false
      → k.frames ≡ f ∷ fs
      → 0 < f
      → ptwalk space addr flags k
        ≡ ok (
          (f, indexof addr pt_info),
          space,
          record k {
            words = grown k.words (baseof space.ptr) (indexof addr pd_info) f flags;
            frames = fs;
          },
        )
  unfolding ptwalk root_page walk
  ptwalk_missing k f fs r p e h =
      ground (arith, next_page_missing k (baseof space.ptr) (indexof addr pd_info) flags f fs p e h)

-- What ptwalk() leaves: the table of the address exists, and no entry has changed.
pub record IsWalked (space : AddrSpace) (addr : ℕ) (k k' : Pages) : Type 0 where
  pub is_space : IsSpace space k'
  pub there : is_present (k'.words (baseof space.ptr) (indexof addr pd_info)) ≡ true
  pub same : (a : ℕ) → mmu_entry space k' a ≡ mmu_entry space k a

module _ (space : AddrSpace) (addr flags : ℕ) (even : flags % 2 ≡ 0) (small : flags < 4095)
    (k : Pages) (ready : IsSpace space k) where
  -- With room, ptwalk() gives the entry for the address and changes no entry.
  pub ptwalk_lem :
      HasRoom space k addr
      → (k' : Pages) × (ptwalk space addr flags k ≡ ok (place space k' addr, space, k'))
        × IsWalked space addr k k'
  ptwalk_lem room =
      elim (Bool-cases (is_present (k.words (baseof space.ptr) (indexof addr pd_info)))) [
        | inl there ↦ (
          k,
          ptwalk_there space addr flags k ready.root there,
          record { is_space = ready; there = there; same = λ a. refl },
        )
        | inr missing ↦ elim room [
          | inl there ↦ absurd (ground arith)
          | inr (f, fs, e, h) ↦ made missing f fs e h
        ]
      ]
    where
      made :
          is_present (k.words (baseof space.ptr) (indexof addr pd_info)) ≡ false
          → (f : ℕ) (fs : List ℕ) → k.frames ≡ f ∷ fs
          → 0 < f
          → (k' : Pages) × (ptwalk space addr flags k ≡ ok (place space k' addr, space, k'))
            × IsWalked space addr k k'
      made missing f fs e h =
          let pd = baseof space.ptr in
          let i = indexof addr pd_info in
          let tables = subst (IsTables k.words pd) e ready.tables in
          let entry = new_entry f flags tables.fresh.0 even small in
          (
            record k { words = grown k.words pd i f flags; frames = fs },
            ptwalk_missing space addr flags k f fs ready.root missing e h ∙ ground (arith, entry.1),
            record {
              is_space = record {
                root = ready.root;
                tables =
                    grown-IsTables k.words pd i f flags fs tables (indexof_pd-lt addr) even small
                      missing;
              };
              there = ground (arith, entry.0);
              same = λ a.
                  entry_of-grown k.words pd i f flags fs tables (indexof_pd-lt addr) even small
                    missing a;
            },
          )
