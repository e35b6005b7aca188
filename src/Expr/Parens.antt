-- ===== src/Expr/Parens.antt =====
-- What check_parentheses() answers on the tokens of a tree.
use cpu_linux.Prelude.{
  ℕ, ◌+◌, ◌-◌, ◌≤◌, ◌<◌, ◌≡◌, ap, ◌∙◌, ◌⊎◌, ◌&&◌, List, [], ◌∷◌, arith, length, length-append, ok,
}
use cpu_linux.Expr.Token.{right, Token, type_at, is_left}
use cpu_linux.Expr.Eval.{scanning, max_depth, unwrapped, apart, wrapped, judge, check_parentheses}
use cpu_linux.Expr.Grammar.{Op, op_type, Tree, paren, deref, bin, render, sign, depth}
use cpu_linux.Expr.Slice.{Slice}
use cpu_linux.Expr.Scan.{
  closing, closing-ge, ends_right, last_is_right, check_loop-render, length-render_pos,
}

module _ (ts : List Token) (i e : ℕ) where
  -- Two or more tokens are judged by the first, the last and where the last parenthesis opens.
  check_parentheses-render :
      (t : Tree)
      → Slice ts i (render t)
      → depth t ≤ max_depth
      → e ≡ i + length (render t)
      → 1 < length (render t)
      → check_parentheses ts i e
        ≡ judge (is_left (type_at ts i) && ends_right t) i (scanning [] (closing t i i))
  unfolding check_parentheses
  check_parentheses-render t h d b n =
      ground (arith, last_is_right ts t i (e - 1) h, check_loop-render ts t i (e - i) h d)

  pub check_parentheses-paren :
      (x : Tree)
      → Slice ts i (render (paren x))
      → depth (paren x) ≤ max_depth
      → e ≡ i + length (render (paren x))
      → check_parentheses ts i e ≡ ok wrapped
  unfolding render closing ends_right judge
  check_parentheses-paren x h d b =
      check_parentheses-render (paren x) h d b
        (omega (arith, length-append (render x) (sign right ∷ [])))
      ∙ ground (arith, ap (λ (t : Token). is_left t.type) h.0)

  pub check_parentheses-deref :
      (x : Tree)
      → Slice ts i (render (deref x))
      → depth x ≤ max_depth
      → e ≡ i + length (render (deref x))
      → check_parentheses ts i e ≡ ok unwrapped
  unfolding render closing ends_right judge
  check_parentheses-deref x h d b =
      check_parentheses-render (deref x) h d b (omega (arith, length-render_pos x))
      ∙ ground (arith, ap (λ (t : Token). is_left t.type) h.0)

  -- On the tokens of a tree with a binary operator at the root and at most 320 nested
  -- parentheses, check_parentheses() answers that they are balanced and not one pair around the whole.
  pub check_parentheses-bin :
      (o : Op) (l r : Tree)
      → Slice ts i (render (bin o l r))
      → depth (bin o l r) ≤ max_depth
      → e ≡ i + length (render (bin o l r))
      → (check_parentheses ts i e ≡ ok apart) ⊎ (check_parentheses ts i e ≡ ok unwrapped)
  unfolding closing ends_right judge render
  check_parentheses-bin o l r h d b = ground (
    arith,
    check_parentheses-render (bin o l r) h d b (
        omega (
          arith,
          length-append (render l) (sign (op_type o) ∷ render r),
          length-render_pos l,
          length-render_pos r,
        )),
    closing-ge r (i + length (render l) + 1) i,
  )
