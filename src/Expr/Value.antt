-- ===== src/Expr/Value.antt =====
-- eval() on the tokens of a tree computes what the tree is worth.
use cpu_linux.Prelude.{
  ℕ, zero, suc, ◌+◌, ◌-◌, ◌*◌, ◌%◌, ◌≤◌, ◌<◌, ◌≡◌, refl, ap, ◌∙◌, ◌⊎◌, inl, inr, true, false, some,
  List, [], ◌∷◌, arith, ◌==◌, if◌then◌else◌, length, drop, length-append, ok,
}
use mathlib.Core.Option
use cpu_linux.Memory.{pmem_read, guest_to_host}
use cpu_linux.Expr.Token.{right, ref, Token, token_at, type_at, is_ref}
use cpu_linux.Expr.Eval.{
  Env, word_mod, hex_char_to_num, num_value, expr2val, max_depth, unwrapped, apart, wrapped,
  check_parentheses, get_position, apply, eval_operator, eval_range, eval_true, eval,
}
use cpu_linux.Expr.Grammar.{
  Op, op_type, Tree, dec, hex, register, paren, deref, bin, render, sign, depth, starts_ref,
  IsParsed, IsStarSafe, number, calc, load, value, and_op, eq_op, neq_op, plus_op, sub_op, mul_op,
  div_op,
}
use cpu_linux.Expr.Slice.{Slice, Slice-left, Slice-right}
use cpu_linux.Expr.Scan.{first_is_ref, length-render_pos}
use cpu_linux.Expr.Parens.{check_parentheses-paren, check_parentheses-deref, check_parentheses-bin}
use cpu_linux.Expr.Position.{get_position-deref, get_position-bin}

-- The loop of expr2val() computes the number modulo the word size.
num_value-dec : (s : List ℕ) (v : ℕ) → num_value 10 (v % word_mod) s ≡ number 10 v s % word_mod
unfolding num_value number
num_value-dec [] v = refl
num_value-dec (ch ∷ s) v =
    ap (λ k. num_value 10 k s) (ground arith)
    ∙ num_value-dec s (if ch == b'U' then v else v * 10 + hex_char_to_num ch)

num_value-hex : (s : List ℕ) (v : ℕ) → num_value 16 (v % word_mod) s ≡ number 16 v s % word_mod
unfolding num_value number
num_value-hex [] v = refl
num_value-hex (ch ∷ s) v =
    ap (λ k. num_value 16 k s) (ground arith)
    ∙ num_value-hex s (if ch == b'U' then v else v * 16 + hex_char_to_num ch)

apply-calc :
    (env : Env) (o : Op) (a b v : ℕ) → calc o a b ≡ some v → apply env (op_type o) a b ≡ ok v
unfolding apply
apply-calc env and_op a b v h = ground arith
apply-calc env eq_op a b v h = ground arith
apply-calc env neq_op a b v h = ground arith
apply-calc env plus_op a b v h = ground arith
apply-calc env sub_op a b v h = ground arith
apply-calc env mul_op a b v h = ground arith
apply-calc env div_op a b v h = ground arith

apply-load : (env : Env) (a v : ℕ) → load env a ≡ some v → apply env ref 0 a ≡ ok v
unfolding apply pmem_read guest_to_host
apply-load env a v h = ground arith

module _ (env : Env) (ts : List Token) where
  eval-atom :
      (f p e v : ℕ)
      → e ≡ p + 1
      → expr2val env (token_at ts p).str (type_at ts p) true ≡ (v, true)
      → eval (suc f) env ts p e true ≡ ok (v, true)
  unfolding eval eval_true
  eval-atom f p e v b h = ground arith

  eval-wrapped :
      (f p e : ℕ)
      → p + 1 < e
      → check_parentheses ts p e ≡ ok wrapped
      → eval (suc f) env ts p e true ≡ eval f env ts (p + 1) (e - 1) true
  unfolding eval eval_true eval_range
  eval-wrapped f p e b h = ground arith

  eval-op :
      (f p e op a b v : ℕ)
      → p + 1 < e
      → (check_parentheses ts p e ≡ ok apart) ⊎ (check_parentheses ts p e ≡ ok unwrapped)
      → get_position ts p e ≡ ok op
      → is_ref (type_at ts p) ≡ false
      → eval f env ts p op true ≡ ok (a, true)
      → eval f env ts (op + 1) e true ≡ ok (b, true)
      → apply env (type_at ts op) a b ≡ ok v
      → eval (suc f) env ts p e true ≡ ok (v, true)
  unfolding eval eval_true eval_range eval_operator
  eval-op f p e op a b v n (inl c) g r x y z = ground arith
  eval-op f p e op a b v n (inr c) g r x y z = ground arith

  eval-skips :
      (f p e op b v : ℕ)
      → p + 1 < e
      → (check_parentheses ts p e ≡ ok apart) ⊎ (check_parentheses ts p e ≡ ok unwrapped)
      → get_position ts p e ≡ ok op
      → is_ref (type_at ts p) ≡ true
      → eval f env ts (op + 1) e true ≡ ok (b, true)
      → apply env (type_at ts op) 0 b ≡ ok v
      → eval (suc f) env ts p e true ≡ ok (v, true)
  unfolding eval eval_true eval_range eval_operator
  eval-skips f p e op b v n (inl c) g r y z = ground arith
  eval-skips f p e op b v n (inr c) g r y z = ground arith

  -- On the tokens of a tree that the precedences of the grammar give to them, in which no left
  -- operand begins with a star and at most 320 parentheses nest, and with fuel for each
  -- token, eval() succeeds with the value of the tree, if it has one.
  pub eval-render :
      (t : Tree) (f p e v : ℕ)
      → Slice ts p (render t)
      → IsParsed t
      → IsStarSafe t
      → depth t ≤ max_depth
      → e ≡ p + length (render t)
      → length (render t) ≤ f
      → value env t ≡ some v
      → eval f env ts p e true ≡ ok (v, true)
  unfolding render value
  eval-render t zero p e v h q w d b n u = absurd (omega (arith, length-render_pos t))
  eval-render (dec s) (suc f) p e v h q w d b n u = eval-atom f p e v b (
      ap (λ (t : Token). expr2val env t.str t.type true) h.0
      ∙ unfold expr2val in ground (arith, num_value-dec s 0))
  eval-render (hex s) (suc f) p e v h q w d b n u = eval-atom f p e v b (
      ap (λ (t : Token). expr2val env t.str t.type true) h.0
      ∙ unfold expr2val in ground (arith, num_value-hex (drop 2 s) 0))
  eval-render (register s) (suc f) p e v h q w d b n u =
      eval-atom f p e v b
        (ap (λ (t : Token). expr2val env t.str t.type true) h.0 ∙ unfold expr2val in ground arith)
  eval-render (paren x) (suc f) p e v h q w d b n u =
      let len = length-append (render x) (sign right ∷ []) in
      eval-wrapped f p e (omega (arith, len)) (check_parentheses-paren ts p e x h d b)
      ∙ eval-render x f (p + 1) (e - 1) v (Slice-left ts (render x) (sign right ∷ []) (p + 1) h.1) q
          w (omega arith) (omega (arith, len)) (omega (arith, len)) u
  eval-render (deref x) (suc f) p e v h q w d b n u =
      let (a, ua, ul) = (Option.bind-eq-some_iff (value env x) (load env)).0 u in
      eval-skips f p e p a v (omega (arith, length-render_pos x))
        (inr (check_parentheses-deref ts p e x h d b)) (get_position-deref ts x p e h q b)
        (ap (λ (t : Token). is_ref t.type) h.0)
        (eval-render x f (p + 1) e a h.1 q.1 w d (omega arith) (omega arith) ua)
        (ap (λ (t : Token). apply env t.type 0 a) h.0 ∙ apply-load env a v ul)
  eval-render (bin o l r) (suc f) p e v h q w d b n u =
      let (a, ua, u') = (Option.bind-eq-some_iff (value env l) _).0 u in
      let (c, uc, u'') = (Option.bind-eq-some_iff (value env r) _).0 u' in
      let len = length-append (render l) (sign (op_type o) ∷ render r) in
      let right_part = Slice-right ts (render l) (sign (op_type o) ∷ render r) p h in
      let left_part = Slice-left ts (render l) (sign (op_type o) ∷ render r) p h in
      eval-op f p e (p + length (render l)) a c v (omega (arith, len, length-render_pos l))
        (check_parentheses-bin ts p e o l r h d b) (get_position-bin ts o l r p e h q b)
        (first_is_ref ts l p left_part ∙ w.0)
        (eval-render l f p (p + length (render l)) a left_part q.2 w.1 (omega arith) refl
          (omega (arith, len, length-render_pos r)) ua)
        (eval-render r f (p + length (render l) + 1) e c right_part.1 q.3 w.2 (omega arith)
          (omega (arith, len)) (omega (arith, len)) uc)
        (ap (λ (t : Token). apply env t.type a c) right_part.0 ∙ apply-calc env o a c v u'')

  -- Where the left operand of the operator at the root begins with a star, eval() does not evaluate
  -- it: with fuel for each token, at most 320 nested parentheses and a right operand that has a value
  -- and no such left operand in it, the result is that of the operator at 0 and the right
  -- operand, if it has one.
  pub eval_leading_star :
      (o : Op) (l r : Tree) (f p e b v : ℕ)
      → Slice ts p (render (bin o l r))
      → IsParsed (bin o l r)
      → starts_ref l ≡ true
      → IsStarSafe r
      → depth (bin o l r) ≤ max_depth
      → e ≡ p + length (render (bin o l r))
      → length (render (bin o l r)) ≤ f
      → value env r ≡ some b
      → calc o 0 b ≡ some v
      → eval f env ts p e true ≡ ok (v, true)
  unfolding render
  eval_leading_star o l r zero p e b v h q s w d c n u k =
      absurd (omega (arith, length-append (render l) (sign (op_type o) ∷ render r)))
  eval_leading_star o l r (suc f) p e b v h q s w d c n u k =
      let len = length-append (render l) (sign (op_type o) ∷ render r) in
      let right_part = Slice-right ts (render l) (sign (op_type o) ∷ render r) p h in
      let left_part = Slice-left ts (render l) (sign (op_type o) ∷ render r) p h in
      eval-skips f p e (p + length (render l)) b v (omega (arith, len, length-render_pos l))
        (check_parentheses-bin ts p e o l r h d c) (get_position-bin ts o l r p e h q c)
        (first_is_ref ts l p left_part ∙ s)
        (eval-render r f (p + length (render l) + 1) e b right_part.1 q.3 w (omega arith)
          (omega (arith, len)) (omega (arith, len)) u)
        (ap (λ (t : Token). apply env t.type 0 b) right_part.0 ∙ apply-calc env o 0 b v k)
