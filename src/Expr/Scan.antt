-- ===== src/Expr/Scan.antt =====
-- check_parentheses() on the tokens of a tree.
use cpu_linux.Prelude.{
  ℕ, suc, ◌+◌, ◌≤◌, ◌<◌, ◌≡◌, refl, sym, ap, ◌∙◌, Bool, true, false, List, [], ◌∷◌, ◌++◌,
  append_assoc, append-nil, arith, ◌==◌, if◌then◌else◌, length, length-append,
}
use cpu_linux.Expr.Token.{left, right, ref, Token, token_at, type_at, is_right, is_ref}
use cpu_linux.Expr.Eval.{
  Scan, scanning, too_many_right, overrun, check_round, check_loop, max_depth,
}
use cpu_linux.Expr.Grammar.{
  Op, op_type, Tree, dec, hex, register, paren, deref, bin, render, sign, depth, starts_ref, and_op,
}
use cpu_linux.Expr.Slice.{Slice, Slice-left, Slice-right}

-- The loop as a recursion on the tokens themselves.
check_list : List Token → ℕ → Scan → Scan
check_list [] i s = s
check_list (x ∷ xs) i (scanning arr most_left) =
    check_list xs (i + 1) (check_round x.type (length xs) i arr most_left)
check_list (x ∷ xs) i s = s

check_loop-eq :
    (ts xs : List Token) (i : ℕ) (s : Scan)
    → Slice ts i xs
    → check_loop ts (length xs) i s ≡ check_list xs i s
unfolding check_loop check_list
check_loop-eq ts [] i s h = refl
check_loop-eq ts (x ∷ xs) i (scanning arr m) h =
    rw (ap (λ (t : Token). t.type) h.0, check_loop) (check_loop-eq ts xs (i + 1) _ h.1)
check_loop-eq ts (x ∷ xs) i too_many_right h = refl
check_loop-eq ts (x ∷ xs) i overrun h = refl

-- Where the parenthesis opens that the last token closes, if that is one.
unfoldable pub closing : Tree → ℕ → ℕ → ℕ
closing (paren x) i m = i
closing (deref x) i m = closing x (i + 1) m
closing (bin o l r) i m = closing r (i + length (render l) + 1) m
closing _ i m = m

step_ref :
    (xs : List Token) (i m : ℕ) (arr : List ℕ)
    → check_list (sign ref ∷ xs) i (scanning arr m) ≡ check_list xs (i + 1) (scanning arr m)
unfolding check_list check_round
step_ref xs i m arr = refl

step_op :
    (o : Op) (xs : List Token) (i m : ℕ) (arr : List ℕ)
    → check_list (sign (op_type o) ∷ xs) i (scanning arr m) ≡ check_list xs (i + 1) (scanning arr m)
unfolding check_list check_round
step_op and_op xs i m arr = refl
step_op _ xs i m arr = refl

check_round-left :
    (n i m : ℕ) (arr : List ℕ)
    → length arr < max_depth
    → check_round left n i arr m ≡ scanning (i ∷ arr) m
unfolding check_round
check_round-left n i m arr h = ground arith

check_round-right :
    (n i m top : ℕ) (arr : List ℕ)
    → check_round right n i (top ∷ arr) m ≡ scanning arr (if n == 0 then top else m)
unfolding check_round
check_round-right n i m top arr = refl

suc-eq-zero : (n : ℕ) → (suc n == 0) ≡ false
suc-eq-zero n = ground arith

-- The tokens of a tree leave the stack as it was.
check_list-render :
    (t : Tree) (rest : List Token) (i m : ℕ) (arr : List ℕ)
    → length arr + depth t ≤ max_depth
    → check_list (render t ++ rest) i (scanning arr m)
      ≡ check_list rest
          (i + length (render t))
          (scanning arr (if length rest == 0 then closing t i m else m))
unfolding check_list render closing
check_list-render (dec s) rest i m arr h = unfold check_round in ground arith
check_list-render (hex s) rest i m arr h = unfold check_round in ground arith
check_list-render (register s) rest i m arr h = unfold check_round in ground arith
check_list-render (paren x) rest i m arr h =
    ap (check_list ((render x ++ sign right ∷ []) ++ rest) (i + 1))
      (check_round-left (length ((render x ++ sign right ∷ []) ++ rest)) i m arr (omega arith))
    ∙ ap (λ ts. check_list ts (i + 1) (scanning (i ∷ arr) m))
        (append_assoc (render x) (sign right ∷ []) rest)
    ∙ check_list-render x (sign right ∷ rest) (i + 1) m (i ∷ arr) (omega arith)
    ∙ ap
        (λ b.
          check_list (sign right ∷ rest) (i + 1 + length (render x))
            (scanning (i ∷ arr) (if b then closing x (i + 1) m else m)))
        (suc-eq-zero (length rest))
    ∙ ap (check_list rest (i + 1 + length (render x) + 1))
        (check_round-right (length rest) (i + 1 + length (render x)) m i arr)
    ∙ ap (λ k. check_list rest k (scanning arr (if length rest == 0 then i else m)))
        (omega (arith, length-append (render x) (sign right ∷ [])))
check_list-render (deref x) rest i m arr h =
    step_ref (render x ++ rest) i m arr
    ∙ check_list-render x rest (i + 1) m arr h
    ∙ ap
        (λ k.
          check_list rest k (scanning arr (if length rest == 0 then closing x (i + 1) m else m)))
        (omega arith)
check_list-render (bin o l r) rest i m arr h =
    ap (λ ts. check_list ts i (scanning arr m))
      (append_assoc (render l) (sign (op_type o) ∷ render r) rest)
    ∙ check_list-render l (sign (op_type o) ∷ (render r ++ rest)) i m arr (omega arith)
    ∙ ap
        (λ b.
          check_list (sign (op_type o) ∷ (render r ++ rest)) (i + length (render l))
            (scanning arr (if b then closing l i m else m)))
        (suc-eq-zero (length (render r ++ rest)))
    ∙ step_op o (render r ++ rest) (i + length (render l)) m arr
    ∙ check_list-render r rest (i + length (render l) + 1) m arr (omega arith)
    ∙ ap
        (λ k.
          check_list rest k (
            scanning arr (if length rest == 0 then closing r (i + length (render l) + 1) m else m)))
        (omega (arith, length-append (render l) (sign (op_type o) ∷ render r)))

-- Whether the last token is a right parenthesis.
unfoldable pub ends_right : Tree → Bool
ends_right (paren x) = true
ends_right (deref x) = ends_right x
ends_right (bin o l r) = ends_right r
ends_right _ = false

pub closing-ge : (t : Tree) (i m : ℕ) → ends_right t ≡ true → i ≤ closing t i m
unfolding closing ends_right
closing-ge (dec s) i m h = cc
closing-ge (hex s) i m h = cc
closing-ge (register s) i m h = cc
closing-ge (paren x) i m h = omega arith
closing-ge (deref x) i m h = omega (arith, closing-ge x (i + 1) m h)
closing-ge (bin o l r) i m h = omega (arith, closing-ge r (i + length (render l) + 1) m h)

pub length-render_pos : (t : Tree) → 0 < length (render t)
unfolding render
length-render_pos (bin o l r) =
    omega (arith, length-append (render l) (sign (op_type o) ∷ render r))
length-render_pos (dec s) = omega arith
length-render_pos _ = omega arith

-- The types of the first and of the last token of a tree.
pub first_is_ref :
    (ts : List Token) (t : Tree) (i : ℕ)
    → Slice ts i (render t)
    → is_ref (type_at ts i) ≡ starts_ref t
unfolding render
first_is_ref ts (dec s) i h = ap (λ (t : Token). is_ref t.type) h.0
first_is_ref ts (hex s) i h = ap (λ (t : Token). is_ref t.type) h.0
first_is_ref ts (register s) i h = ap (λ (t : Token). is_ref t.type) h.0
first_is_ref ts (paren x) i h = ap (λ (t : Token). is_ref t.type) h.0
first_is_ref ts (deref x) i h = ap (λ (t : Token). is_ref t.type) h.0
first_is_ref ts (bin o l r) i h =
    first_is_ref ts l i (Slice-left ts (render l) (sign (op_type o) ∷ render r) i h)

at_index :
    (ts : List Token) (k i : ℕ) (x : Token)
    → k ≡ i
    → token_at ts i ≡ x
    → is_right (type_at ts k) ≡ is_right x.type
at_index ts k i x e h = ap (λ j. is_right (type_at ts j)) e ∙ ap (λ (t : Token). is_right t.type) h

pub last_is_right :
    (ts : List Token) (t : Tree) (i k : ℕ)
    → Slice ts i (render t)
    → k + 1 ≡ i + length (render t)
    → is_right (type_at ts k) ≡ ends_right t
unfolding render ends_right
last_is_right ts (dec s) i k h e = at_index ts k i _ (omega arith) h.0
last_is_right ts (hex s) i k h e = at_index ts k i _ (omega arith) h.0
last_is_right ts (register s) i k h e = at_index ts k i _ (omega arith) h.0
last_is_right ts (paren x) i k h e =
    at_index ts k (i + 1 + length (render x)) _
      (omega (arith, length-append (render x) (sign right ∷ [])))
      (Slice-right ts (render x) (sign right ∷ []) (i + 1) h.1).0
last_is_right ts (deref x) i k h e = last_is_right ts x (i + 1) k h.1 (omega arith)
last_is_right ts (bin o l r) i k h e =
    last_is_right ts r (i + length (render l) + 1) k
      (Slice-right ts (render l) (sign (op_type o) ∷ render r) i h).1
      (omega (arith, length-append (render l) (sign (op_type o) ∷ render r)))

pub check_loop-render :
    (ts : List Token) (t : Tree) (i n : ℕ)
    → Slice ts i (render t)
    → depth t ≤ max_depth
    → n ≡ length (render t)
    → check_loop ts n i (scanning [] i) ≡ scanning [] (closing t i i)
unfolding check_list
check_loop-render ts t i n h d e =
    ap (λ k. check_loop ts k i (scanning [] i)) e
    ∙ check_loop-eq ts (render t) i (scanning [] i) h
    ∙ ap (λ xs. check_list xs i (scanning [] i)) (sym (append-nil (render t)))
    ∙ check_list-render t [] i i [] (omega arith)
