-- ===== src/Expr/Position.antt =====
-- getPosition() on the tokens of a tree: it finds the operator at the root.
mod Rounds
use cpu_linux.Prelude.{
  ℕ, ◌+◌, ◌-◌, ◌≤◌, ◌<◌, ◌≡◌, refl, sym, ap, subst, ◌∙◌, inl, inr, true, Option, none, some, List,
  [], ◌∷◌, ◌++◌, arith, length, ok,
}
use cpu_linux.Expr.Token.{left, right, ref, code, Token, type_at}
use cpu_linux.Expr.Eval.{Pos, level_ground, takes, position_round, position_loop, get_position}
use cpu_linux.Expr.Grammar.{
  Op, op_type, Tree, dec, hex, register, paren, deref, bin, render, sign, level, op_level,
  fits_left, IsParsed,
}
use cpu_linux.Expr.Slice.{Slice, Slice-left, Slice-right}
use cpu_linux.Expr.Position.Rounds.{
  position_list, position_loop-eq, position_list-append, bar, takes-some, takes-none, pos,
  round-left, round-right, round-ref, round-ref_first, round-ref_kept, round-op, round-op_takes,
  bar-left, bar-right, bar-right_le, bar-le-code,
}

module _ (ts : List Token) where
  walk_paren :
      (xs : List Token) (i b : ℕ) (idx : Option ℕ)
      → position_list ts xs (i + 1) (pos idx (b + 1)) ≡ pos idx (b + 1)
      → position_list ts (sign left ∷ (xs ++ sign right ∷ [])) i (pos idx b) ≡ pos idx b
  unfolding position_list
  walk_paren xs i b idx inner =
      ap (position_list ts (xs ++ sign right ∷ []) (i + 1)) (round-left ts i b idx)
      ∙ position_list-append ts xs (sign right ∷ []) (i + 1) (pos idx (b + 1))
      ∙ ap (position_list ts (sign right ∷ []) (i + 1 + length xs)) inner
      ∙ round-right ts (i + 1 + length xs) b idx

  walk_op :
      (o : Op) (xs ys : List Token) (i : ℕ) (s : Pos) {s₁ s₂ s₃ : Pos}
      → position_list ts xs i s ≡ s₁
      → position_round ts (op_type o) (i + length xs) s₁ ≡ s₂
      → position_list ts ys (i + length xs + 1) s₂ ≡ s₃
      → position_list ts (xs ++ sign (op_type o) ∷ ys) i s ≡ s₃
  unfolding position_list
  walk_op o xs ys i s p q r =
      position_list-append ts xs (sign (op_type o) ∷ ys) i s
      ∙ ap (position_list ts (sign (op_type o) ∷ ys) (i + length xs)) p
      ∙ ap (position_list ts ys (i + length xs + 1)) q
      ∙ r

  -- Inside parentheses nothing is found.
  position_list-inside :
      (t : Tree) (i b : ℕ) (idx : Option ℕ)
      → level_ground < b
      → position_list ts (render t) i (pos idx b) ≡ pos idx b
  unfolding position_list render
  position_list-inside (dec x) i b idx h = unfold position_round in ground arith
  position_list-inside (hex x) i b idx h = unfold position_round in ground arith
  position_list-inside (register x) i b idx h = unfold position_round in ground arith
  position_list-inside (paren x) i b idx h =
      walk_paren (render x) i b idx (position_list-inside x (i + 1) (b + 1) idx (omega arith))
  position_list-inside (deref x) i b idx h =
      ap (position_list ts (render x) (i + 1)) (round-ref ts i b idx h)
      ∙ position_list-inside x (i + 1) b idx h
  position_list-inside (bin o l r) i b idx h =
      walk_op o (render l) (render r) i (pos idx b) (position_list-inside l i b idx h)
        (round-op ts o _ b idx (inl h)) (position_list-inside r (i + length (render l) + 1) b idx h)

  -- Below an operator that binds less tightly nothing is found.
  position_list-kept :
      (t : Tree) (i k : ℕ)
      → IsParsed t
      → code (type_at ts k) < bar (level t)
      → position_list ts (render t) i (pos (some k) level_ground) ≡ pos (some k) level_ground
  unfolding position_list render
  position_list-kept (dec x) i k p h = unfold position_round takes in ground arith
  position_list-kept (hex x) i k p h = unfold position_round takes in ground arith
  position_list-kept (register x) i k p h = unfold position_round takes in ground arith
  position_list-kept (paren x) i k p h =
      walk_paren (render x) i level_ground (some k)
        (position_list-inside x (i + 1) (level_ground + 1) (some k) (omega arith))
  position_list-kept (deref x) i k p h =
      ap (position_list ts (render x) (i + 1)) (round-ref_kept ts i k)
      ∙ position_list-kept x (i + 1) k p.1 (subst (λ n. code (type_at ts k) < bar n) (sym p.0) h)
  position_list-kept (bin o l r) i k p h =
      walk_op o (render l) (render r) i (pos (some k) level_ground)
        (position_list-kept l i k p.2 (omega (arith, bar-left o (level l) p.0)))
        (round-op ts o _ level_ground (some k) (inr (ground (arith, takes-some ts o k))))
        (position_list-kept r (i + length (render l) + 1) k p.3
          (omega (arith, bar-right_le o (level r) p.1)))

-- Where the operator at the root of a tree stands.
root : Tree → ℕ → Option ℕ
root (deref x) i = some i
root (bin o l r) i = some (i + length (render l))
root _ i = none

code_at_op :
    (ts : List Token) (o : Op) (l r : Tree) (i : ℕ)
    → Slice ts i (render (bin o l r))
    → code (type_at ts (i + length (render l))) ≡ code (op_type o)
unfolding render
code_at_op ts o l r i h =
    ap (λ (t : Token). code t.type) (Slice-right ts (render l) (sign (op_type o) ∷ render r) i h).0

bar-le-ref : (o : Op) → bar (op_level o) ≤ code ref
unfolding bar code
bar-le-ref o = ground arith

-- An operator is taken after its left operand.
takes-root :
    (ts : List Token) (o : Op) (l : Tree) (i : ℕ)
    → Slice ts i (render l)
    → fits_left o (level l) ≡ true
    → takes ts (op_type o) (root l i) ≡ true
unfolding root render
takes-root ts o (deref x) i h f =
    ground (arith, takes-some ts o i, ap (λ (t : Token). code t.type) h.0, bar-le-ref o)
takes-root ts o (bin p l r) i h f =
    ground
      (arith, takes-some ts o (i + length (render l)), code_at_op ts p l r i h, bar-le-code o p f)
takes-root ts o (dec x) i h f = takes-none ts o
takes-root ts o _ i h f = takes-none ts o

position_list-root :
    (ts : List Token) (t : Tree) (i : ℕ)
    → Slice ts i (render t)
    → IsParsed t
    → position_list ts (render t) i (pos none level_ground) ≡ pos (root t i) level_ground
unfolding position_list render root
position_list-root ts (dec x) i h p = unfold position_round takes in refl
position_list-root ts (hex x) i h p = unfold position_round takes in refl
position_list-root ts (register x) i h p = unfold position_round takes in refl
position_list-root ts (paren x) i h p =
    walk_paren ts (render x) i level_ground none
      (position_list-inside ts x (i + 1) (level_ground + 1) none (omega arith))
position_list-root ts (deref x) i h p =
    ap (position_list ts (render x) (i + 1)) (round-ref_first ts i)
    ∙ position_list-kept ts x (i + 1) i p.1
        (rw (ap (λ (t : Token). code t.type) h.0, p.0) (unfold code bar in omega arith))
position_list-root ts (bin o l r) i h p =
    walk_op ts o (render l) (render r) i (pos none level_ground)
      (position_list-root ts l i (Slice-left ts (render l) (sign (op_type o) ∷ render r) i h) p.2)
      (round-op_takes ts o (i + length (render l)) (root l i)
        (takes-root ts o l i (Slice-left ts (render l) (sign (op_type o) ∷ render r) i h) p.0))
      (position_list-kept ts r (i + length (render l) + 1) (i + length (render l)) p.3
        (rw (code_at_op ts o l r i h) (bar-right o (level r) p.1)))

some-root :
    (ts : List Token) (t : Tree) (p e i : ℕ)
    → Slice ts p (render t)
    → IsParsed t
    → e ≡ p + length (render t)
    → root t p ≡ some i
    → get_position ts p e ≡ ok i
unfolding get_position
some-root ts t p e i h q b r = ground (
  arith,
  ap (λ k. position_loop ts k p (pos none level_ground))
      (let n : e - p ≡ length (render t) = omega arith in n),
  position_loop-eq ts (render t) p (pos none level_ground) h,
  position_list-root ts t p h q,
)

-- The whole range of a dereference is applied to what follows its star.
pub get_position-deref :
    (ts : List Token) (x : Tree) (p e : ℕ)
    → Slice ts p (render (deref x))
    → IsParsed (deref x)
    → e ≡ p + length (render (deref x))
    → get_position ts p e ≡ ok p
unfolding root
get_position-deref ts x p e h q b = some-root ts (deref x) p e p h q b refl

-- On the tokens of a tree with a binary operator at the root, which the precedences of the
-- grammar give to the tokens, getPosition() finds the index of that operator.
pub get_position-bin :
    (ts : List Token) (o : Op) (l r : Tree) (p e : ℕ)
    → Slice ts p (render (bin o l r))
    → IsParsed (bin o l r)
    → e ≡ p + length (render (bin o l r))
    → get_position ts p e ≡ ok (p + length (render l))
unfolding root
get_position-bin ts o l r p e h q b =
    some-root ts (bin o l r) p e (p + length (render l)) h q b refl
