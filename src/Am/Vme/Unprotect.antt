-- ===== src/Am/Vme/Unprotect.antt =====
-- unprotect(): the pages that are given back for a space.
use cpu_linux.Prelude.{
  ℕ, zero, suc, ◌+◌, ◌≤◌, ◌<◌, ◌≡◌, ◌≢◌, refl, ap, ◌∙◌, Bool, true, false, ◌&&◌, ◌||◌, List, [],
  ◌∷◌, ◌++◌, arith, ◌==◌, if◌then◌else◌,
}
use cpu_linux.Am.Vme.{
  Words, Pages, AddrSpace, pt_info, is_present, is_user, baseof, teardown, teardown_entries,
  unprotect, pgfree, ptlevels,
}
use cpu_linux.Am.Vme.Walk.{IsTables}
use cpu_linux.Am.Vme.Space.{IsSpace}

-- The tables of the user below the first `n` entries of `pd`, the last one first.
owned : Words → ℕ → ℕ → List ℕ
owned w pd zero = []
owned w pd (suc n) =
    if is_present (w pd n) && is_user (w pd n) then baseof (w pd n) ∷ owned w pd n else owned w pd n

-- `p` is the table of the user below one of the first `n` entries.
pub owns : Words → ℕ → ℕ → ℕ → Bool
owns w pd zero p = false
owns w pd (suc n) p =
    (is_present (w pd n) && is_user (w pd n) && baseof (w pd n) == p) || owns w pd n p

abbrev pub count : ℕ → List ℕ → ℕ
count p [] = 0
count p (q ∷ qs) = (if q == p then 1 else 0) + count p qs

if_same : {A : Type 0} (b : Bool) (x : A) → (if b then x else x) ≡ x
if_same true x = refl
if_same false x = refl

-- A table of pages has no tables below it.
teardown_entries-last : (n i pt : ℕ) (k : Pages) → teardown_entries (teardown []) n i pt k ≡ k
unfolding teardown_entries teardown
teardown_entries-last zero i pt k = refl
teardown_entries-last (suc n) i pt k =
    ap (teardown_entries (teardown []) n (i + 1) pt)
      (if_same (is_present (k.words pt i) && is_user (k.words pt i)) k)
    ∙ teardown_entries-last n (i + 1) pt k

teardown-pt : (pt : ℕ) (k : Pages) → teardown (pt_info ∷ []) pt k ≡ pgfree pt k
unfolding teardown
teardown-pt pt k = ap (pgfree pt) (teardown_entries-last 1024 0 pt k)

-- The pages after the first `n` entries were looked at.
abbrev given : Words → List ℕ → List ℕ → ℕ → ℕ → Pages
given w frames freed pd n = record { words = w; frames = frames; freed = owned w pd n ++ freed }

module _ (w : Words) (frames freed : List ℕ) (pd : ℕ) where
  given_step :
      (i : ℕ)
      → (if is_present (w pd i) && is_user (w pd i)
          then teardown (pt_info ∷ []) (baseof (w pd i)) (given w frames freed pd i)
          else given w frames freed pd i)
        ≡ given w frames freed pd (suc i)
  unfolding owned
  given_step i = freed_if (is_present (w pd i) && is_user (w pd i))
    where
      freed_if :
          (b : Bool)
          → (if b
              then teardown (pt_info ∷ []) (baseof (w pd i)) (given w frames freed pd i)
              else given w frames freed pd i)
            ≡ record {
              words = w;
              frames = frames;
              freed = (if b then baseof (w pd i) ∷ owned w pd i else owned w pd i) ++ freed;
            }
      freed_if true = teardown-pt (baseof (w pd i)) (given w frames freed pd i)
      freed_if false = refl

  teardown_entries-pd :
      (n i m : ℕ)
      → m ≡ n + i
      → teardown_entries (teardown (pt_info ∷ [])) n i pd (given w frames freed pd i)
        ≡ given w frames freed pd m
  unfolding teardown_entries
  teardown_entries-pd zero i m h = ap (given w frames freed pd) (omega arith)
  teardown_entries-pd (suc n) i m h =
      ap (teardown_entries (teardown (pt_info ∷ [])) n (i + 1) pd)
        (given_step i ∙ ap (given w frames freed pd) {x = suc i} (omega arith))
      ∙ teardown_entries-pd n (i + 1) m (omega arith)

  teardown-pd :
      teardown ptlevels pd (record { words = w; frames = frames; freed = freed })
      ≡ record { words = w; frames = frames; freed = (pd ∷ owned w pd 1024) ++ freed }
  unfolding teardown owned
  teardown-pd = ap (pgfree pd) (teardown_entries-pd 1024 0 1024 refl)

module _ (w : Words) (pd : ℕ) (frames : List ℕ) (tables : IsTables w pd frames) where
  owns-ne :
      (n m p : ℕ)
      → n ≤ m
      → m < 1024
      → is_present (w pd m) ≡ true
      → owns w pd n p ≡ true
      → baseof (w pd m) ≢ p
  unfolding owns
  owns-ne zero m p h l q e = absurd (ground arith)
  owns-ne (suc n) m p h l q e = ground (arith, owns-ne n m p, tables.distinct n m (omega arith) l)

  owns_root : (n : ℕ) → n ≤ 1024 → owns w pd n pd ≡ false
  unfolding owns
  owns_root zero h = refl
  owns_root (suc n) h = ground (arith, owns_root n, tables.apart n)

  count-owned : (n p : ℕ) → n ≤ 1024 → count p (owned w pd n) ≡ (if owns w pd n p then 1 else 0)
  unfolding owned owns
  count-owned zero p h = refl
  count-owned (suc n) p h = ground (arith, count-owned n p, owns-ne n n p)

unprotect-user :
    (space : AddrSpace) (k : Pages)
    → is_present space.ptr ≡ true
    → is_user space.ptr ≡ true
    → unprotect space k ≡ teardown ptlevels (baseof space.ptr) k
unfolding unprotect
unprotect-user space k p u = ground arith

-- unprotect() of a space without overlapping tables gives back pages and changes nothing else: the page
-- directory and each of the user's page tables once, and no other page, so none of the kernel's.
pub unprotect_lem :
    (space : AddrSpace) (k : Pages)
    → IsSpace space k
    → is_user space.ptr ≡ true
    → (pages : List ℕ) × (unprotect space k ≡ record k { freed = pages ++ k.freed })
      × ((p : ℕ)
          → count p pages
            ≡ (if p == baseof space.ptr || owns k.words (baseof space.ptr) 1024 p then 1 else 0))
unprotect_lem space k ready user =
    let pd = baseof space.ptr in
    (
      pd ∷ owned k.words pd 1024,
      unprotect-user space k ready.root user ∙ teardown-pd k.words k.frames k.freed pd,
      λ p. ground (
        arith,
        count-owned k.words pd k.frames ready.tables 1024 p (omega arith),
        owns_root k.words pd k.frames ready.tables 1024 (omega arith),
      ),
    )
