-- ===== src/Am/Vme/Protect.antt =====
-- protect() and unprotect(): the space that a process starts with, and the pages given back for it.
use cpu_linux.Prelude.{
  ℕ, zero, suc, ◌+◌, ◌*◌, ◌%◌, ◌^◌, ◌≤◌, ◌<◌, ◌≡◌, ◌≢◌, refl, sym, ap, ap₂, subst, ◌∙◌, Bool, true,
  false, ◌&&◌, ◌||◌, List, [], ◌∷◌, arith, ltb, leb, ◌==◌, if◌then◌else◌, Outcome, ok, ◌>>=◌,
}
use cpu_linux.Am.Vme.{
  Words, Pages, AddrSpace, set_word, clear_words, pgsize, pd_info, pt_info, pte_p, pte_u, is_user,
  indexof, baseof, uvm_area, kernel_areas, share_area, share_areas, protect,
}
use cpu_linux.Am.Vme.Walk.{
  entry_of, IsTables, IsFresh, IsOther, new_entry, indexof_pd-lt, indexof_pt-lt, clear_words-eq,
}
use cpu_linux.Am.Vme.Space.{IsSpace, mmu_entry, pgallocz_some}

index_start : (c : ℕ) → c < 1024 → indexof (c * 2 ^ 22 % 2 ^ 32) pd_info ≡ c
unfolding indexof
index_start c h = omega arith

next_start :
    (c : ℕ) → c < 1024 → (c * 2 ^ 22 % 2 ^ 32 + 2 ^ 22) % 2 ^ 32 ≡ (c + 1) * 2 ^ 22 % 2 ^ 32
next_start c h = omega arith

not_end :
    (c m : ℕ)
    → c + suc m ≤ 1024
    → suc m < 1024
    → (c * 2 ^ 22 % 2 ^ 32 == (c + suc m) * 2 ^ 22 % 2 ^ 32) ≡ false
not_end c m h l = ground arith

share_area_step :
    (n cur end kpt upt : ℕ) (w : Words)
    → (cur == end) ≡ false
    → share_area (suc n) cur end kpt upt w
      ≡ share_area n
          ((cur + 2 ^ 22) % 2 ^ 32)
          end
          kpt
          upt
          (set_word w upt (indexof cur pd_info) (w kpt (indexof cur pd_info)))
unfolding share_area
share_area_step n cur end kpt upt w e =
    ap
      (λ (b : Bool). elim b [
        | true ↦ w
        | false ↦
            share_area n ((cur + 2 ^ 22) % 2 ^ 32) end kpt upt
              (set_word w upt (indexof cur pd_info) (w kpt (indexof cur pd_info)))
      ])
      e

module _ (kpt upt p j : ℕ) (other : kpt ≢ upt) where
  share_area-eq :
      (n m c : ℕ) (w : Words)
      → m ≤ n
      → c + m ≤ 1024
      → m < 1024
      → share_area n (c * 2 ^ 22 % 2 ^ 32) ((c + m) * 2 ^ 22 % 2 ^ 32) kpt upt w p j
        ≡ (if p == upt && leb c j && ltb j (c + m) then w kpt j else w p j)
  unfolding share_area
  share_area-eq zero m c w h l s = ground arith
  share_area-eq (suc n) zero c w h l s = ground arith
  share_area-eq (suc n) (suc m) c w h l s =
      let w' = set_word w upt c (w kpt c) in
      ap (λ w'. w' p j)
        (share_area_step n (c * 2 ^ 22 % 2 ^ 32) ((c + suc m) * 2 ^ 22 % 2 ^ 32) kpt upt w
          (not_end c m l s))
      ∙ ap₂
          (λ cur i.
            share_area n cur ((c + suc m) * 2 ^ 22 % 2 ^ 32) kpt upt (set_word w upt i (w kpt i)) p
              j)
          (next_start c (omega arith)) (index_start c (omega arith))
      ∙ ap (λ q. share_area n ((c + 1) * 2 ^ 22 % 2 ^ 32) (q * 2 ^ 22 % 2 ^ 32) kpt upt w' p j)
          (omega arith)
      ∙ share_area-eq n m (c + 1) w' (omega arith) (omega arith) (omega arith)
      ∙ ground arith

-- The words that protect() leaves in its page directory `f`, and elsewhere.
abbrev is_kernel : ℕ → Bool
is_kernel i = ltb i 256 || leb 1012 i

-- The areas of the kernel, as addresses and as entries of a page directory.
kernel_index :
    (a : ℕ) → a < 2 ^ 32 → is_kernel (indexof a pd_info) ≡ (ltb a 0x4000_0000 || leb 0xfd00_0000 a)
unfolding indexof
kernel_index a h = ground arith

module _ (kpt f : ℕ) (other : kpt ≢ f) (w : Words) where
  abbrev shared : Words
  shared = share_areas kernel_areas kpt f (clear_words 1024 f w)

  share_areas-eq :
      (w : Words) (p j : ℕ)
      → j < 1024
      → share_areas kernel_areas kpt f w p j ≡ (if p == f && is_kernel j then w kpt j else w p j)
  unfolding share_areas
  share_areas-eq w p j h =
      let w' = share_area 1024 0 0x4000_0000 kpt f w in
      share_area-eq kpt f p j other 1024 12 1012 w' (omega arith) (omega arith) (omega arith)
      ∙ ground (
        arith,
        share_area-eq kpt f p j other 1024 256 0 w (omega arith) (omega arith) (omega arith),
        share_area-eq kpt f kpt j other 1024 256 0 w (omega arith) (omega arith) (omega arith),
      )

  shared-eq :
      (p j : ℕ)
      → j < 1024
      → shared p j ≡ (if p == f then (if is_kernel j then w kpt j else 0) else w p j)
  shared-eq p j h =
      share_areas-eq (clear_words 1024 f w) p j h
      ∙ ground (arith, clear_words-eq 1024 f w p j, clear_words-eq 1024 f w kpt j)

  module _ (fs : List ℕ) (tables : IsTables w kpt (f ∷ fs)) where
    shared-IsFresh : (gs : List ℕ) → IsOther f gs → IsFresh w kpt gs → IsFresh shared f gs
    shared-IsFresh [] h k = tt
    shared-IsFresh (g ∷ gs) h k = (
      k.0,
      (ground arith, λ j r p. ground (arith, shared-eq f j r, k.1.1 j r)),
      k.2,
      shared-IsFresh gs h.1 k.3,
    )

    shared-IsTables : IsTables shared f fs
    shared-IsTables = record {
      apart = λ j r p. ground (arith, shared-eq f j r, tables.fresh.1.1 j r);
      distinct = λ j l r s p q e.
          ground (arith, shared-eq f j r, shared-eq f l s, tables.distinct j l r s);
      fresh = shared-IsFresh fs tables.fresh.2 tables.fresh.3;
    }

    entry_of-shared :
        (a : ℕ)
        → a < 2 ^ 32
        → entry_of shared f a
          ≡ (if ltb a 0x4000_0000 || leb 0xfd00_0000 a then entry_of w kpt a else 0)
    unfolding entry_of
    entry_of-shared a h = ground (
      arith,
      kernel_index a h,
      shared-eq f (indexof a pd_info) (indexof_pd-lt a),
      shared-eq (baseof (w kpt (indexof a pd_info))) (indexof a pt_info) (indexof_pt-lt a),
      tables.fresh.1.1 (indexof a pd_info) (indexof_pd-lt a),
    )

-- If the kernel's tables do not overlap and a page is left, protect() makes a space without
-- overlapping tables, in which each address of the kernel's areas has the kernel's entry and no other
-- address is mapped. The page directory is a page of its own, marked as the user's.
pub protect_lem :
    (kpt : ℕ) (k : Pages) (f : ℕ) (fs : List ℕ)
    → IsTables k.words kpt k.frames
    → k.frames ≡ f ∷ fs
    → 0 < f
    → (space : AddrSpace) × (k' : Pages) × (protect kpt k ≡ ok (space, k'))
      × IsSpace space k'
      × (baseof space.ptr ≡ f)
      × (is_user space.ptr ≡ true)
      × ((a : ℕ)
          → a < 2 ^ 32
          → mmu_entry space k' a
            ≡ (if ltb a 0x4000_0000 || leb 0xfd00_0000 a then entry_of k.words kpt a else 0))
unfolding protect
protect_lem kpt k f fs tables e h =
    let t = subst (IsTables k.words kpt) e tables in
    let other : kpt ≢ f = λ q. t.fresh.1.0 (sym q) in
    let (present, base) = new_entry f 4 t.fresh.0 refl (omega arith) in
    (
      record { pgsize_of = pgsize; area = uvm_area; ptr = f + pte_p + pte_u },
      record k { words = shared kpt f other k.words; frames = fs },
      ap
          (λ (o : Outcome (ℕ × Pages)). o >>= λ (upt, k'). ok (
            record { pgsize_of = pgsize; area = uvm_area; ptr = upt + pte_p + pte_u },
            record k' { words = share_areas kernel_areas kpt upt k'.words },
          ))
          (pgallocz_some k f fs e h),
      record {
        root = present;
        tables =
            subst (λ d. IsTables (shared kpt f other k.words) d fs) (sym base)
              (shared-IsTables kpt f other k.words fs t);
      },
      base,
      ground (arith, t.fresh.0),
      λ a l.
          ap (λ d. entry_of (shared kpt f other k.words) d a) base
          ∙ entry_of-shared kpt f other k.words fs t a l,
    )
