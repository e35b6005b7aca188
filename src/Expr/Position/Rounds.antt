-- ===== src/Expr/Position/Rounds.antt =====
-- The rounds of getPosition(), and how the codes of the operators order them.
use cpu_linux.Prelude.{
  ℕ, zero, suc, ◌+◌, ◌≤◌, ◌<◌, ◌≡◌, refl, ap, ◌∙◌, ◌⊎◌, true, false, Option, none, some, List, [],
  ◌∷◌, ◌++◌, arith, leb, length,
}
use cpu_linux.Expr.Token.{left, right, ref, code, Token, type_at}
use cpu_linux.Expr.Eval.{Pos, level_ground, takes, position_round, position_loop}
use cpu_linux.Expr.Grammar.{
  Op, op_type, op_level, fits_left, fits_right, and_op, eq_op, neq_op, plus_op, sub_op, mul_op,
  div_op,
}
use cpu_linux.Expr.Slice.{Slice}

-- The loop as a recursion on the tokens of the range; `ts` is the whole array.
unfoldable pub position_list : List Token → List Token → ℕ → Pos → Pos
position_list ts [] i s = s
position_list ts (x ∷ xs) i s = position_list ts xs (i + 1) (position_round ts x.type i s)

pub position_loop-eq :
    (ts xs : List Token) (i : ℕ) (s : Pos)
    → Slice ts i xs
    → position_loop ts (length xs) i s ≡ position_list ts xs i s
unfolding position_loop position_list
position_loop-eq ts [] i s h = refl
position_loop-eq ts (x ∷ xs) i s h =
    ap (λ (t : Token). position_loop ts (length xs) (i + 1) (position_round ts t.type i s)) h.0
    ∙ position_loop-eq ts xs (i + 1) _ h.1

pub position_list-append :
    (ts xs ys : List Token) (i : ℕ) (s : Pos)
    → position_list ts (xs ++ ys) i s
      ≡ position_list ts ys (i + length xs) (position_list ts xs i s)
unfolding position_list
position_list-append ts [] ys i s = ap (λ k. position_list ts ys k s) (omega arith)
position_list-append ts (x ∷ xs) ys i s =
    position_list-append ts xs ys (i + 1) (position_round ts x.type i s)
    ∙ ap (λ k. position_list ts ys k (position_list ts xs (i + 1) (position_round ts x.type i s)))
        (omega arith)

-- What an operator's code must reach to be replaced by `o` as the position found.
unfoldable pub bar : ℕ → ℕ
bar zero = 263
bar (suc zero) = 266
bar (suc (suc zero)) = 266
bar (suc (suc (suc zero))) = 268
bar _ = 1000

pub takes-some :
    (ts : List Token) (o : Op) (k : ℕ)
    → takes ts (op_type o) (some k) ≡ leb (bar (op_level o)) (code (type_at ts k))
unfolding takes bar code
takes-some ts and_op k = refl
takes-some ts _ k = refl

pub takes-none : (ts : List Token) (o : Op) → takes ts (op_type o) none ≡ true
unfolding takes
takes-none ts and_op = refl
takes-none ts _ = refl

abbrev pub pos : Option ℕ → ℕ → Pos
pos idx b = record { idx = idx; balance = b }

module _ (ts : List Token) where
  pub round-left :
      (i b : ℕ) (idx : Option ℕ) → position_round ts left i (pos idx b) ≡ pos idx (b + 1)
  unfolding position_round
  round-left i b idx = refl

  pub round-right :
      (i b : ℕ) (idx : Option ℕ) → position_round ts right i (pos idx (b + 1)) ≡ pos idx b
  unfolding position_round
  round-right i b idx = ground arith

  pub round-ref :
      (i b : ℕ) (idx : Option ℕ)
      → level_ground < b
      → position_round ts ref i (pos idx b) ≡ pos idx b
  unfolding position_round
  round-ref i b idx h = ground arith

  pub round-ref_first :
      (i : ℕ) → position_round ts ref i (pos none level_ground) ≡ pos (some i) level_ground
  unfolding position_round takes
  round-ref_first i = refl

  pub round-ref_kept :
      (i k : ℕ) → position_round ts ref i (pos (some k) level_ground) ≡ pos (some k) level_ground
  unfolding position_round takes
  round-ref_kept i k = refl

  pub round-op :
      (o : Op) (i b : ℕ) (idx : Option ℕ)
      → (level_ground < b) ⊎ (takes ts (op_type o) idx ≡ false)
      → position_round ts (op_type o) i (pos idx b) ≡ pos idx b
  unfolding position_round
  round-op and_op i b idx h = ground arith
  round-op eq_op i b idx h = ground arith
  round-op neq_op i b idx h = ground arith
  round-op plus_op i b idx h = ground arith
  round-op sub_op i b idx h = ground arith
  round-op mul_op i b idx h = ground arith
  round-op div_op i b idx h = ground arith

  pub round-op_takes :
      (o : Op) (i : ℕ) (idx : Option ℕ)
      → takes ts (op_type o) idx ≡ true
      → position_round ts (op_type o) i (pos idx level_ground) ≡ pos (some i) level_ground
  unfolding position_round
  round-op_takes and_op i idx h = ground arith
  round-op_takes eq_op i idx h = ground arith
  round-op_takes neq_op i idx h = ground arith
  round-op_takes plus_op i idx h = ground arith
  round-op_takes sub_op i idx h = ground arith
  round-op_takes mul_op i idx h = ground arith
  round-op_takes div_op i idx h = ground arith

pub bar-left : (o : Op) (k : ℕ) → fits_left o k ≡ true → bar (op_level o) ≤ bar k
unfolding bar
bar-left o zero h = ground arith
bar-left o (suc zero) h = ground arith
bar-left o (suc (suc zero)) h = ground arith
bar-left o (suc (suc (suc zero))) h = ground arith
bar-left o (suc (suc (suc (suc k)))) h = ground arith

pub bar-right : (o : Op) (k : ℕ) → fits_right o k ≡ true → code (op_type o) < bar k
unfolding bar code
bar-right o zero h = ground arith
bar-right o (suc zero) h = ground arith
bar-right o (suc (suc zero)) h = ground arith
bar-right o (suc (suc (suc zero))) h = ground arith
bar-right o (suc (suc (suc (suc k)))) h = ground arith

pub bar-right_le : (o : Op) (k : ℕ) → fits_right o k ≡ true → bar (op_level o) ≤ bar k
unfolding bar code
bar-right_le o zero h = ground arith
bar-right_le o (suc zero) h = ground arith
bar-right_le o (suc (suc zero)) h = ground arith
bar-right_le o (suc (suc (suc zero))) h = ground arith
bar-right_le o (suc (suc (suc (suc k)))) h = ground arith

pub bar-le-code : (o p : Op) → fits_left o (op_level p) ≡ true → bar (op_level o) ≤ code (op_type p)
unfolding bar code
bar-le-code o p h = ground arith
