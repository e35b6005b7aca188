-- ===== src/Expr/Grammar.antt =====
-- The expressions that eval() is meant for, as syntax trees with explicit parentheses: how one is
-- written as tokens, and what it is worth by the rules of unsigned 32-bit arithmetic.
use cpu_linux.Prelude.{
  ℕ, suc, ◌+◌, ◌-◌, ◌*◌, ◌/◌, ◌%◌, max, ◌≡◌, Bool, true, false, not, ◌&&◌, Option, none, some, List,
  [], ◌∷◌, ◌++◌, ltb, leb, ◌==◌, if◌then◌else◌, drop,
}
use mathlib.Core.Option
use cpu_linux.Memory.{mbase, inside, host_read}
use cpu_linux.Cpu.{get_reg_val}
use cpu_linux.Expr.Token.{
  TokenType, num_end_9, num_end_f, reg, left, right, and, eq, neq, plus, sub, mul, div, ref, Token,
}
use cpu_linux.Expr.Eval.{Env, word_mod, hex_char_to_num}

pub data Op : Type 0 where
  and_op eq_op neq_op plus_op sub_op mul_op div_op : Op

abbrev pub op_type : Op → TokenType
op_type and_op = and
op_type eq_op = eq
op_type neq_op = neq
op_type plus_op = plus
op_type sub_op = sub
op_type mul_op = mul
op_type div_op = div

-- `dec` and `hex` are literals, `register` a register with its `$`, `deref` is `*x`.
pub data Tree : Type 0 where
  dec hex register : List ℕ → Tree
  paren deref : Tree → Tree
  bin : Op → Tree → Tree → Tree

abbrev pub sign : TokenType → Token
sign t = record { type = t; str = [] }

unfoldable pub render : Tree → List Token
render (dec s) = record { type = num_end_9; str = s } ∷ []
render (hex s) = record { type = num_end_f; str = s } ∷ []
render (register s) = record { type = reg; str = s } ∷ []
render (paren x) = sign left ∷ (render x ++ sign right ∷ [])
render (deref x) = sign ref ∷ render x
render (bin o l r) = render l ++ sign (op_type o) ∷ render r

-- How tightly an operator binds.
abbrev pub op_level : Op → ℕ
op_level and_op = 0
op_level eq_op = 1
op_level neq_op = 1
op_level plus_op = 2
op_level sub_op = 2
op_level mul_op = 3
op_level div_op = 3

abbrev pub level : Tree → ℕ
level (bin o l r) = op_level o
level _ = 4

-- Comparisons group to the right, all other operators to the left.
abbrev pub groups_right : Op → Bool
groups_right eq_op = true
groups_right neq_op = true
groups_right _ = false

abbrev pub fits_left : Op → ℕ → Bool
fits_left o k = if groups_right o then ltb (op_level o) k else leb (op_level o) k

abbrev pub fits_right : Op → ℕ → Bool
fits_right o k = if groups_right o then leb (op_level o) k else ltb (op_level o) k

abbrev pub starts_ref : Tree → Bool
starts_ref (deref x) = true
starts_ref (bin o l r) = starts_ref l
starts_ref _ = false

-- The tree is the one that the precedences give to its tokens.
abbrev pub IsParsed : Tree → Type 0
IsParsed (paren x) = IsParsed x
IsParsed (deref x) = (level x ≡ 4) × IsParsed x
IsParsed (bin o l r) =
    (fits_left o (level l) ≡ true) × (fits_right o (level r) ≡ true) × IsParsed l × IsParsed r
IsParsed _ = Unit

-- No left operand of an operator begins with a star.
abbrev pub IsStarSafe : Tree → Type 0
IsStarSafe (paren x) = IsStarSafe x
IsStarSafe (deref x) = IsStarSafe x
IsStarSafe (bin o l r) = (starts_ref l ≡ false) × IsStarSafe l × IsStarSafe r
IsStarSafe _ = Unit

-- How deep the parentheses nest.
abbrev pub depth : Tree → ℕ
depth (paren x) = suc (depth x)
depth (deref x) = depth x
depth (bin o l r) = max (depth l) (depth r)
depth _ = 0

-- The digits of a literal read in base `b` after the number `v`; the suffix `U` counts nothing.
unfoldable pub number : ℕ → ℕ → List ℕ → ℕ
number b v [] = v
number b v (ch ∷ s) = number b (if ch == b'U' then v else v * b + hex_char_to_num ch) s

abbrev pub calc : Op → ℕ → ℕ → Option ℕ
calc and_op a b = some (if not (a == 0) && not (b == 0) then 1 else 0)
calc eq_op a b = some (if a == b then 1 else 0)
calc neq_op a b = some (if a == b then 0 else 1)
calc plus_op a b = some ((a + b) % word_mod)
calc sub_op a b = some ((a + word_mod - b) % word_mod)
calc mul_op a b = some (a * b % word_mod)
calc div_op a b = if b == 0 then none else some (a / b)

-- The word at an address of the guest's memory.
abbrev pub load : Env → ℕ → Option ℕ
load env a = if inside a 4 then some (host_read env.pmem (a - mbase) 4) else none

-- What a tree is worth; `none` if a register is unknown, a divisor is 0 or an address is outside
-- the memory.
unfoldable pub value : Env → Tree → Option ℕ
value env (dec s) = some (number 10 0 s % word_mod)
value env (hex s) = some (number 16 0 (drop 2 s) % word_mod)
value env (register s) =
    let (v, known) = get_reg_val env.cpu (drop 1 s) in if known then some v else none
value env (paren x) = value env x
value env (deref x) = Option.bind (value env x) (load env)
value env (bin o l r) = Option.bind (value env l) λ a. Option.bind (value env r) λ b. calc o a b
