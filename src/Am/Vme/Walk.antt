-- ===== src/Am/Vme/Walk.antt =====
-- What the processor finds in the page tables, and the two changes that ptwalk() and its callers make.
use cpu_linux.Prelude.{
  ℕ, zero, suc, ◌+◌, ◌/◌, ◌%◌, ◌^◌, ◌<◌, ◌≡◌, ◌≢◌, true, false, ◌&&◌, List, [], ◌∷◌, arith, ltb,
  ◌==◌, if◌then◌else◌,
}
use cpu_linux.Am.Vme.{
  Words, set_word, clear_words, pgsize, pd_info, pt_info, is_present, indexof, baseof,
}

-- The entry for an address below the page directory `pd`, or 0 if its table is missing.
unfoldable pub entry_of : Words → ℕ → ℕ → ℕ
entry_of w pd addr =
    let pde = w pd (indexof addr pd_info) in
    if is_present pde then w (baseof pde) (indexof addr pt_info) else 0

-- The pages that pgalloc() will give: aligned, different, and none of the tables in use.
abbrev pub IsOther : ℕ → List ℕ → Type 0
IsOther f [] = Unit
IsOther f (g ∷ gs) = (f ≢ g) × IsOther f gs

abbrev pub IsUnused : Words → ℕ → ℕ → Type 0
IsUnused w pd f = (f ≢ pd) × ((i : ℕ) → i < 1024 → is_present (w pd i) ≡ true → baseof (w pd i) ≢ f)

abbrev pub IsFresh : Words → ℕ → List ℕ → Type 0
IsFresh w pd [] = Unit
IsFresh w pd (f ∷ fs) = (f % pgsize ≡ 0) × IsUnused w pd f × IsOther f fs × IsFresh w pd fs

-- The tables below a page directory do not overlap, with it nor with one another.
pub record IsTables (w : Words) (pd : ℕ) (frames : List ℕ) : Type 0 where
  pub apart : (i : ℕ) → i < 1024 → is_present (w pd i) ≡ true → baseof (w pd i) ≢ pd
  pub distinct :
      (i j : ℕ)
      → i < 1024
      → j < 1024
      → is_present (w pd i) ≡ true
      → is_present (w pd j) ≡ true
      → baseof (w pd i) ≡ baseof (w pd j)
      → i ≡ j
  pub fresh : IsFresh w pd frames

pub indexof_pd-lt : (addr : ℕ) → indexof addr pd_info < 1024
unfolding indexof
indexof_pd-lt addr = omega arith

pub indexof_pt-lt : (addr : ℕ) → indexof addr pt_info < 1024
unfolding indexof
indexof_pt-lt addr = omega arith

-- Two addresses of 32 bits have the same indices exactly when they lie in the same page.
pub same_page :
    (a b : ℕ)
    → a < 2 ^ 32
    → b < 2 ^ 32
    → (indexof a pd_info == indexof b pd_info && indexof a pt_info == indexof b pt_info)
      ≡ (a / pgsize == b / pgsize)
unfolding indexof
same_page a b h k = ground arith

pub clear_words-eq :
    (n b : ℕ) (w : Words) (p i : ℕ)
    → clear_words n b w p i ≡ (if p == b && ltb i n then 0 else w p i)
unfolding clear_words
clear_words-eq zero b w p i = ground arith
clear_words-eq (suc n) b w p i = ground (arith, clear_words-eq n b w p i)

-- The entry for a new table is present, and its base is the table.
pub new_entry :
    (f flags : ℕ)
    → f % pgsize ≡ 0
    → flags % 2 ≡ 0
    → flags < 4095
    → (is_present (f + 1 + flags) ≡ true) × (baseof (f + 1 + flags) ≡ f)
unfolding baseof
new_entry f flags h k l = ground arith

-- The words after a table `f` was made for entry `i` of `pd`.
abbrev pub grown : Words → ℕ → ℕ → ℕ → ℕ → Words
grown w pd i f flags = set_word (clear_words 1024 f w) pd i (f + 1 + flags)

module _ (w : Words) (pd i f flags : ℕ) (fs : List ℕ) (tables : IsTables w pd (f ∷ fs))
    (range : i < 1024) (even : flags % 2 ≡ 0) (small : flags < 4095)
    (missing : is_present (w pd i) ≡ false) where
  grown_pd : (j : ℕ) → grown w pd i f flags pd j ≡ (if j == i then f + 1 + flags else w pd j)
  grown_pd j = ground (arith, tables.fresh.1.0, clear_words-eq 1024 f w pd j)

  grown_other :
      (p j : ℕ) → p ≢ pd → grown w pd i f flags p j ≡ (if p == f && ltb j 1024 then 0 else w p j)
  grown_other p j h = ground (arith, clear_words-eq 1024 f w p j)

  grown-IsFresh :
      (gs : List ℕ) → IsOther f gs → IsFresh w pd gs → IsFresh (grown w pd i f flags) pd gs
  grown-IsFresh [] h k = tt
  grown-IsFresh (g ∷ gs) h k = (
    k.0,
    (k.1.0, λ j r p. ground (arith, grown_pd j, k.1.1 j r, new_entry f flags tables.fresh.0)),
    k.2,
    grown-IsFresh gs h.1 k.3,
  )

  -- The entries that the old words have, and the new one.
  pub grown-IsTables : IsTables (grown w pd i f flags) pd fs
  grown-IsTables = record {
    apart = λ j r p.
        ground
          (arith, grown_pd j, tables.apart j r, tables.fresh.1.0, new_entry f flags tables.fresh.0);
    distinct = λ j l r s p q e. ground (
      arith,
      grown_pd j,
      grown_pd l,
      tables.distinct j l r s,
      tables.fresh.1.1 j r,
      tables.fresh.1.1 l s,
      new_entry f flags tables.fresh.0,
    );
    fresh = grown-IsFresh fs tables.fresh.2 tables.fresh.3;
  }

  pub entry_of-grown : (addr : ℕ) → entry_of (grown w pd i f flags) pd addr ≡ entry_of w pd addr
  unfolding entry_of
  entry_of-grown addr = ground (
    arith,
    grown_pd (indexof addr pd_info),
    grown_other f (indexof addr pt_info) tables.fresh.1.0,
    grown_other (baseof (w pd (indexof addr pd_info))) (indexof addr pt_info),
    tables.apart (indexof addr pd_info) (indexof_pd-lt addr),
    tables.fresh.1.1 (indexof addr pd_info) (indexof_pd-lt addr),
    indexof_pt-lt addr,
    new_entry f flags tables.fresh.0,
  )

module _ (w : Words) (pd i : ℕ) (fs : List ℕ) (tables : IsTables w pd fs) (range : i < 1024)
    (there : is_present (w pd i) ≡ true) (j v : ℕ) where
  abbrev pub written : Words
  written = set_word w (baseof (w pd i)) j v

  written_pd : (l : ℕ) → written pd l ≡ w pd l
  written_pd l = ground (arith, tables.apart i range there)

  written-IsFresh : (gs : List ℕ) → IsFresh w pd gs → IsFresh written pd gs
  written-IsFresh [] k = tt
  written-IsFresh (g ∷ gs) k =
      (k.0, (k.1.0, λ l r p. ground (arith, written_pd l, k.1.1 l r)), k.2, written-IsFresh gs k.3)

  pub written-IsTables : IsTables written pd fs
  written-IsTables = record {
    apart = λ l r p. ground (arith, written_pd l, tables.apart l r);
    distinct = λ l o r s p q e. ground (arith, written_pd l, written_pd o, tables.distinct l o r s);
    fresh = written-IsFresh fs tables.fresh;
  }

  pub entry_of-written :
      (addr : ℕ)
      → entry_of written pd addr
        ≡ (if indexof addr pd_info == i && indexof addr pt_info == j then v else entry_of w pd addr)
  unfolding entry_of
  entry_of-written addr = ground (
    arith,
    written_pd (indexof addr pd_info),
    tables.distinct (indexof addr pd_info) i (indexof_pd-lt addr) range,
  )
