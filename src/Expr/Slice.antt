-- ===== src/Expr/Slice.antt =====
-- Ranges of the token array as lists of tokens.
use cpu_linux.Prelude.{ℕ, ◌+◌, ◌≡◌, refl, subst, List, [], ◌∷◌, ◌++◌, arith, length}
use native.Mathlib.Nat.{add-zero}
use native.Mathlib.Numerals.{add-one}
use cpu_linux.Expr.Token.{Token, token_at}

-- The tokens of `ts` from index `p` on begin with `xs`.
abbrev pub Slice : List Token → ℕ → List Token → Type 0
Slice ts p [] = Unit
Slice ts p (x ∷ xs) = (token_at ts p ≡ x) × Slice ts (p + 1) xs

pub Slice-left : (ts xs ys : List Token) (p : ℕ) → Slice ts p (xs ++ ys) → Slice ts p xs
Slice-left ts [] ys p h = tt
Slice-left ts (x ∷ xs) ys p h = (h.0, Slice-left ts xs ys (p + 1) h.1)

pub Slice-right :
    (ts xs ys : List Token) (p : ℕ) → Slice ts p (xs ++ ys) → Slice ts (p + length xs) ys
Slice-right ts [] ys p h = rw add-zero h
Slice-right ts (x ∷ xs) ys p h =
    subst (λ q. Slice ts q ys) (omega arith) (Slice-right ts xs ys (p + 1) h.1)

Slice-cons : (x : Token) (ts xs : List Token) (p : ℕ) → Slice ts p xs → Slice (x ∷ ts) (p + 1) xs
Slice-cons x ts [] p h = tt
Slice-cons x ts (y ∷ xs) p h = (rw add-one h.0, Slice-cons x ts xs (p + 1) h.1)

-- A list is all of its own tokens.
pub Slice-whole : (ts : List Token) → Slice ts 0 ts
Slice-whole [] = tt
Slice-whole (x ∷ ts) = (refl, Slice-cons x ts ts 0 (Slice-whole ts))
