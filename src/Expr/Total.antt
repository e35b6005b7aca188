-- ===== src/Expr/Total.antt =====
-- eval() always ends: it never needs more fuel than there are tokens.
use cpu_linux.Prelude.{
  ℕ, zero, suc, ◌+◌, ◌-◌, ◌≤◌, ◌<◌, ◌≡◌, refl, ◌≢◌, Bool, true, false, Option, none, some, List, [],
  ◌∷◌, arith, ltb, if◌then◌else◌, assertion, out_of_fuel, Outcome, ok, stop, ◌>>=◌, guard,
}
use cpu_linux.Memory.{pmem_read}
use cpu_linux.Expr.Token.{TokenType, left, right, and, Token, type_at, is_ref}
use cpu_linux.Expr.Eval.{
  Env, Pos, level_ground, some_or_assert, Scan, scanning, too_many_right, overrun, judge,
  position_round, position_loop, Process, unwrapped, apart, wrapped, bad, check_parentheses,
  get_position, apply, eval_operator, eval_range, eval_true, eval,
}

-- The call does not stop for want of fuel.
abbrev pub Ends {ℓ} : {A : Type ℓ} → Outcome A → Type ℓ
Ends r = r ≢ stop out_of_fuel

pub Ends->>= {ℓ κ} :
    {A : Type ℓ} {B : Type κ} (m : Outcome A) (f : A → Outcome B)
    → Ends m
    → ((a : A) → m ≡ ok a → Ends (f a))
    → Ends (m >>= f)
Ends->>= (ok a) f h k = k a refl
Ends->>= (stop s) f h k = λ e. h (ground arith)

judge-Ends : (b : Bool) (i : ℕ) (s : Scan) → Ends (judge b i s)
unfolding judge
judge-Ends b i (scanning [] m) = ground arith
judge-Ends b i (scanning (_ ∷ _) m) = ground arith
judge-Ends b i too_many_right = ground arith
judge-Ends b i overrun = ground arith

-- A position found lies in the range.
abbrev InRange : ℕ → ℕ → Option ℕ → Type 0
InRange p e none = Unit
InRange p e (some i) = (p ≤ i) × (i < e)

pick-InRange :
    (b : Bool) (p e i : ℕ) (s : Pos)
    → p ≤ i
    → i < e
    → InRange p e s.idx
    → InRange p e (if b then record s { idx = some i } else s).idx
pick-InRange true p e i s h k r = (h, k)
pick-InRange false p e i s h k r = r

position_round-InRange :
    (ts : List Token) (t : TokenType) (p e i : ℕ) (s : Pos)
    → p ≤ i
    → i < e
    → InRange p e s.idx
    → InRange p e (position_round ts t i s).idx
unfolding position_round
position_round-InRange ts left p e i s h k r = r
position_round-InRange ts right p e i s h k r = r
position_round-InRange ts _ p e i s h k r = pick-InRange _ p e i s h k r

position_loop-InRange :
    (ts : List Token) (n p e i : ℕ) (s : Pos)
    → p ≤ i
    → i + n ≤ e
    → InRange p e s.idx
    → InRange p e (position_loop ts n i s).idx
unfolding position_loop
position_loop-InRange ts zero p e i s h k r = r
position_loop-InRange ts (suc n) p e i s h k r =
    position_loop-InRange ts n p e (i + 1) _ (omega arith) (omega arith)
      (position_round-InRange ts (type_at ts i) p e i s h (omega arith) r)

some_of : (o : Option ℕ) (p e i : ℕ) → InRange p e o → some_or_assert o ≡ ok i → (p ≤ i) × (i < e)
some_of none p e i r h = cc
some_of (some j) p e i r h = ground arith

pub get_position-lt :
    (ts : List Token) (p e i : ℕ) → p ≤ e → get_position ts p e ≡ ok i → (p ≤ i) × (i < e)
unfolding get_position
get_position-lt ts p e i h = some_of _ p e i (
    position_loop-InRange ts (e - p) p e p (record { idx = none; balance = level_ground })
      (omega arith) (omega arith) tt)

get_position-Ends : (ts : List Token) (p e : ℕ) → Ends (get_position ts p e)
unfolding get_position
get_position-Ends ts p e = ground arith

check_parentheses-Ends : (ts : List Token) (i e : ℕ) → Ends (check_parentheses ts i e)
unfolding check_parentheses
check_parentheses-Ends ts i e =
    Ends->>= (guard (ltb (i + 1) e) assertion) _ (ground arith) (λ _ _. judge-Ends _ i _)

apply-Ends : (env : Env) (t : TokenType) (a b : ℕ) → Ends (apply env t a b)
unfolding apply pmem_read
apply-Ends env and a b = ground arith
apply-Ends env _ a b = ground arith

module _ (rec : ℕ → ℕ → Bool → Outcome (ℕ × Bool)) (env : Env) (ts : List Token) (p e : ℕ)
    (smaller : (p' e' : ℕ) (s' : Bool) → e' - p' < e - p → Ends (rec p' e' s')) where
  left_operand-Ends :
      (b : Bool) (op : ℕ) → op < e → p < e → Ends (if b then ok (0, true) else rec p op true)
  left_operand-Ends true op h k = ground arith
  left_operand-Ends false op h k = smaller p op true (omega arith)

  eval_operator-Ends : p < e → Ends (eval_operator rec env ts p e)
  unfolding eval_operator
  eval_operator-Ends h = Ends->>= (get_position ts p e) _ (get_position-Ends ts p e) λ op g.
      let i = get_position-lt ts p e op (omega arith) g in
      Ends->>= (if is_ref (type_at ts p) then ok (0, true) else rec p op true) _
        (left_operand-Ends (is_ref (type_at ts p)) op i.1 h)
        λ (val1, s1) _.
          Ends->>= (rec (op + 1) e s1) _ (smaller (op + 1) e s1 (omega arith)) λ (val2, s2) _.
            Ends->>= (apply env (type_at ts op) val1 val2) _
              (apply-Ends env (type_at ts op) val1 val2) λ v _. ground arith

  eval_range-Ends : p + 1 < e → (k : Process) → Ends (eval_range rec env ts p e k)
  unfolding eval_range
  eval_range-Ends h wrapped = smaller (p + 1) (e - 1) true (omega arith)
  eval_range-Ends h bad = ground arith
  eval_range-Ends h unwrapped = eval_operator-Ends (omega arith)
  eval_range-Ends h apart = eval_operator-Ends (omega arith)

  eval_many-Ends : p + 1 < e → Ends (check_parentheses ts p e >>= eval_range rec env ts p e)
  eval_many-Ends h =
      Ends->>= (check_parentheses ts p e) _ (check_parentheses-Ends ts p e)
        λ k _. eval_range-Ends h k

  eval_true-Ends : Ends (eval_true rec env ts p e)
  unfolding eval_true
  eval_true-Ends = ground (arith, eval_many-Ends)

-- With fuel above the number of tokens in the range, eval() ends, whatever the tokens are: with a
-- value, a failure, a failed assertion or an undefined access.
pub eval-Ends :
    (f : ℕ) (env : Env) (ts : List Token) (p e : ℕ) (s : Bool)
    → e - p < f
    → Ends (eval f env ts p e s)
unfolding eval
eval-Ends zero env ts p e s h = absurd (omega arith)
eval-Ends (suc f) env ts p e false h = ground arith
eval-Ends (suc f) env ts p e true h =
    eval_true-Ends (λ p' e' s'. eval f env ts p' e' s') env ts p e
      (λ p' e' s' k. eval-Ends f env ts p' e' s' (omega arith))
