-- ===== src/Klib/Text/Order.antt =====
-- The comparisons order texts by their first difference.
use cpu_linux.Prelude.{
  ℕ, zero, suc, ◌+◌, ◌<◌, ◌≡◌, refl, sym, ap, ◌∙◌, ◌≢◌, ◌↔◌, List, [], ◌∷◌, arith, ◌==◌,
  if◌then◌else◌, length, ok,
}
use cpu_linux.Prelude.Int.{ℤ, pos, sub_ℕ}
use cpu_linux.Klib.Mem.{Memory}
use cpu_linux.Klib.Mem.Copies.{IsText}
use cpu_linux.Klib.Text.{strcmp_from, strcmp}

-- The difference of two texts at the first place where they differ, a text that is at its
-- end counting as a 0.
unfoldable pub text_diff : List ℕ → List ℕ → ℤ
text_diff [] [] = pos 0
text_diff [] (b ∷ t) = sub_ℕ 0 b
text_diff (a ∷ s) [] = sub_ℕ a 0
text_diff (a ∷ s) (b ∷ t) = if a == b then text_diff s t else sub_ℕ a b

strcmp_from-eq :
    (u v : List ℕ) (fuel i s t p q : ℕ) (m : Memory)
    → p ≡ s + i
    → q ≡ t + i
    → IsText m p u
    → IsText m q v
    → length u < fuel
    → strcmp_from fuel i s t m ≡ ok (text_diff u v)
unfolding strcmp_from text_diff
strcmp_from-eq u v zero i s t p q m a b x y k = absurd (omega arith)
strcmp_from-eq [] [] (suc fuel) i s t p q m a b x y k = ground (arith, ap m a, ap m b)
strcmp_from-eq [] (d ∷ v) (suc fuel) i s t p q m a b x y k = ground (arith, ap m a, ap m b)
strcmp_from-eq (c ∷ u) [] (suc fuel) i s t p q m a b x y k = ground (arith, ap m a, ap m b)
strcmp_from-eq (c ∷ u) (d ∷ v) (suc fuel) i s t p q m a b x y k = ground (
  arith,
  ap m a,
  ap m b,
  strcmp_from-eq u v fuel (i + 1) s t (p + 1) (q + 1) m (omega arith) (omega arith) x.2 y.2,
)

-- A text has no 0 inside.
abbrev pub NonZero : List ℕ → Type 0
NonZero [] = Unit
NonZero (c ∷ t) = (c ≢ 0) × NonZero t

IsText-NonZero : (t : List ℕ) (p : ℕ) (m : Memory) → IsText m p t → NonZero t
IsText-NonZero [] p m h = tt
IsText-NonZero (c ∷ t) p m h = (h.1, IsText-NonZero t (p + 1) m h.2)

text_diff_refl : (u : List ℕ) → text_diff u u ≡ pos 0
unfolding text_diff
text_diff_refl [] = refl
text_diff_refl (a ∷ u) = ground (arith, text_diff_refl u)

text_diff-eq-zero : (u v : List ℕ) → NonZero u → NonZero v → text_diff u v ≡ pos 0 → u ≡ v
unfolding text_diff
text_diff-eq-zero [] [] x y h = refl
text_diff-eq-zero [] (b ∷ v) x y h = absurd (ground arith)
text_diff-eq-zero (a ∷ u) [] x y h = absurd (ground arith)
text_diff-eq-zero (a ∷ u) (b ∷ v) x y h = ground (arith, text_diff-eq-zero u v x.1 y.1)

module _ (u v : List ℕ) (fuel s t : ℕ) (m : Memory) (x : IsText m s u) (y : IsText m t v) where
  strcmp-eq : 0 < s → 0 < t → length u < fuel → strcmp fuel s t m ≡ ok (text_diff u v)
  unfolding strcmp
  strcmp-eq a b k =
      ground (arith, strcmp_from-eq u v fuel 0 s t s t m (omega arith) (omega arith) x y k)

  -- strcmp() of two texts that are not at NULL, with fuel above the length of the first, returns their
  -- difference, and 0 exactly when the texts are equal.
  pub strcmp_lem :
      0 < s
      → 0 < t
      → length u < fuel
      → (strcmp fuel s t m ≡ ok (text_diff u v)) × ((strcmp fuel s t m ≡ ok (pos 0)) ↔ (u ≡ v))
  strcmp_lem a b k =
      let result = strcmp-eq a b k in
      (
        result,
        (
          λ e.
              text_diff-eq-zero u v (IsText-NonZero u s m x) (IsText-NonZero v t m y)
                (ground (arith, result)),
          λ e. result ∙ ap ok (ap (text_diff u) (sym e) ∙ text_diff_refl u),
        ),
      )
