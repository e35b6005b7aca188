-- ===== src/Expr/Eval.antt =====
-- expr2val(), check_parentheses(), getPosition() and eval() of expr.c. The inclusive range [p, q] of
-- the code is written [p, e) with e = q + 1, so that q = -1 needs no negative number.
use cpu_linux.Prelude.{
  ℕ, zero, suc, ◌+◌, ◌-◌, ◌*◌, ◌/◌, ◌%◌, ◌^◌, Bool, true, false, not, ◌&&◌, ◌||◌, Option, none,
  some, List, [], ◌∷◌, ltb, leb, ◌==◌, if◌then◌else◌, length, drop, assertion, undefined,
  out_of_fuel, Outcome, ok, stop, ◌>>=◌, ◌>>◌, guard,
}
use cpu_linux.Expr.Token.{
  TokenType, num_end_9, num_end_f, reg, left, right, and, eq, neq, plus, sub, mul, div, ref, code,
  Token, token_at, type_at, is_left, is_right, is_ref,
}
use cpu_linux.Cpu.{Cpu, get_reg_val}
use cpu_linux.Memory.{Pmem, pmem_read}

abbrev pub word_mod : ℕ
word_mod = 2 ^ 32

-- What eval() reads: the processor's state and the memory.
pub record Env : Type 0 where
  pub cpu : Cpu
  pub pmem : Pmem

-- The characters are ASCII; `ch - '0'` is converted to word_t.
unfoldable pub hex_char_to_num : ℕ → ℕ
hex_char_to_num ch =
    if ch == b'a' || ch == b'A'
    then 10
    else if ch == b'b' || ch == b'B'
    then 11
    else if ch == b'c' || ch == b'C'
    then 12
    else if ch == b'd' || ch == b'D'
    then 13
    else if ch == b'e' || ch == b'E'
    then 14
    else if ch == b'f' || ch == b'F'
    then 15
    else (ch + word_mod - b'0') % word_mod

-- The loop of expr2val() over the characters from `i` on.
unfoldable pub num_value : ℕ → ℕ → List ℕ → ℕ
num_value dig value [] = value
num_value dig value (ch ∷ s) =
    num_value dig (if ch == b'U' then value else (value * dig + hex_char_to_num ch) % word_mod) s

-- The value, and `*success` after the call. Only a register can make it false. For a
-- token that is no operand, `dig` stays 0.
unfoldable pub expr2val : Env → List ℕ → TokenType → Bool → ℕ × Bool
expr2val env str reg success = get_reg_val env.cpu (drop 1 str)
expr2val env str num_end_9 success = (num_value 10 0 str, success)
expr2val env str num_end_f success = (num_value 16 0 (drop 2 str), success)
expr2val env str _ success = (num_value 0 0 str, success)

-- The size of `arr`.
abbrev pub max_depth : ℕ
max_depth = 320

-- One round of the loop in check_parentheses() at index `i`, with `n` rounds after it. `arr` is a
-- stack whose top comes first, and has `left_count` entries.
pub data Scan : Type 0 where
  scanning : List ℕ → ℕ → Scan
  too_many_right : Scan
  overrun : Scan

unfoldable pub check_round : TokenType → ℕ → ℕ → List ℕ → ℕ → Scan
check_round left n i arr most_left =
    if ltb (length arr) max_depth then scanning (i ∷ arr) most_left else overrun
check_round right n i [] most_left = too_many_right
check_round right n i (top ∷ arr) most_left = scanning arr (if n == 0 then top else most_left)
check_round _ n i arr most_left = scanning arr most_left

-- The loop from index `i` on, with `n` rounds left.
unfoldable pub check_loop : List Token → ℕ → ℕ → Scan → Scan
check_loop ts zero i s = s
check_loop ts (suc n) i (scanning arr most_left) =
    check_loop ts n (i + 1) (check_round (type_at ts i) n i arr most_left)
check_loop ts (suc n) i s = s

-- `*process` of check_parentheses(); the result is `true` exactly for 3.
pub data Process : Type 0 where
  unwrapped apart wrapped bad : Process

-- What check_parentheses() makes of the scan: `tmp_check` says that the range begins and ends with
-- parentheses, and `start` is its first index.
unfoldable pub judge : Bool → ℕ → Scan → Outcome Process
judge tmp_check start (scanning [] most_left) =
    ok (if tmp_check then (if most_left == start then wrapped else apart) else unwrapped)
judge tmp_check start (scanning (_ ∷ _) most_left) = ok bad
judge tmp_check start too_many_right = ok bad
judge tmp_check start overrun = stop undefined

unfoldable pub check_parentheses : List Token → ℕ → ℕ → Outcome Process
check_parentheses ts i e = do
  guard (ltb (i + 1) e) assertion
  judge (is_left (type_at ts i) && is_right (type_at ts (e - 1))) i
      (check_loop ts (e - i) i (scanning [] i))

-- `left_count` of getPosition() can be negative: `balance` holds it with 1 + token_array_len added.
pub record Pos : Type 0 where
  pub idx : Option ℕ
  pub balance : ℕ

abbrev pub level_ground : ℕ
level_ground = 65537

-- tokens[idx].type of the position found, where there is one.
abbrev pub found_at_least : List Token → Option ℕ → ℕ → Bool
found_at_least ts none k = true
found_at_least ts (some i) k = leb k (code (type_at ts i))

-- Whether the switch of getPosition() takes the operator: the operators of
-- lower precedence replace those of higher or equal precedence.
unfoldable pub takes : List Token → TokenType → Option ℕ → Bool
takes ts and idx = found_at_least ts idx (code and)
takes ts eq idx = found_at_least ts idx (code plus)
takes ts neq idx = found_at_least ts idx (code plus)
takes ts plus idx = found_at_least ts idx (code plus)
takes ts sub idx = found_at_least ts idx (code plus)
takes ts mul idx = found_at_least ts idx (code mul)
takes ts div idx = found_at_least ts idx (code mul)
takes ts ref none = true
takes ts ref (some i) = false
takes ts _ idx = false

unfoldable pub position_round : List Token → TokenType → ℕ → Pos → Pos
position_round ts left i s = record s { balance = s.balance + 1 }
position_round ts right i s = record s { balance = s.balance - 1 }
position_round ts t i s =
    if (s.balance == level_ground) && takes ts t s.idx then record s { idx = some i } else s

-- The loop from index `i` on, with `n` rounds left.
unfoldable pub position_loop : List Token → ℕ → ℕ → Pos → Pos
position_loop ts zero i s = s
position_loop ts (suc n) i s = position_loop ts n (i + 1) (position_round ts (type_at ts i) i s)

abbrev pub some_or_assert : Option ℕ → Outcome ℕ
some_or_assert none = stop assertion
some_or_assert (some i) = ok i

unfoldable pub get_position : List Token → ℕ → ℕ → Outcome ℕ
get_position ts p e =
    some_or_assert (position_loop ts (e - p) p (record { idx = none; balance = level_ground })).idx

-- The switch of eval() on the operator, with `*success` as the operands left it.
unfoldable pub apply : Env → TokenType → ℕ → ℕ → Outcome ℕ
apply env and a b = ok (if not (a == 0) && not (b == 0) then 1 else 0)
apply env neq a b = ok (if a == b then 0 else 1)
apply env eq a b = ok (if a == b then 1 else 0)
apply env plus a b = ok ((a + b) % word_mod)
apply env sub a b = ok ((a + word_mod - b) % word_mod)
apply env mul a b = ok (a * b % word_mod)
apply env div a b = if b == 0 then stop undefined else ok (a / b)
apply env ref a b = pmem_read env.pmem b 4
apply env _ a b = stop assertion

-- The branch of eval() for a range that no pair of parentheses encloses, `rec` being eval() itself.
unfoldable pub eval_operator :
    (ℕ → ℕ → Bool → Outcome (ℕ × Bool)) → Env → List Token → ℕ → ℕ → Outcome (ℕ × Bool)
eval_operator rec env ts p e = do
  op ← get_position ts p e
  (val1, s1) ← if is_ref (type_at ts p) then ok (0, true) else rec p op true
  (val2, s2) ← rec (op + 1) e s1
  v ← apply env (type_at ts op) val1 val2
  ok (v, s2)

unfoldable pub eval_range :
    (ℕ → ℕ → Bool → Outcome (ℕ × Bool)) → Env → List Token → ℕ → ℕ → Process → Outcome (ℕ × Bool)
eval_range rec env ts p e wrapped = rec (p + 1) (e - 1) true
eval_range rec env ts p e bad = ok (0, false)
eval_range rec env ts p e _ = eval_operator rec env ts p e

-- An operand by itself: eval() gives 0 with a failure.
abbrev pub operand : ℕ × Bool → ℕ × Bool
operand (v, true) = (v, true)
operand (v, false) = (0, false)

-- eval() of the range [p, e) on a level of the recursion, `*success` being true.
unfoldable pub eval_true :
    (ℕ → ℕ → Bool → Outcome (ℕ × Bool)) → Env → List Token → ℕ → ℕ → Outcome (ℕ × Bool)
eval_true rec env ts p e =
    if leb e p
    then ok (0, false)
    else if e == p + 1
    then ok (operand (expr2val env (token_at ts p).str (type_at ts p) true))
    else (check_parentheses ts p e >>= eval_range rec env ts p e)

-- eval(p, q, success), with fuel: the value and `*success` after the call.
unfoldable pub eval : ℕ → Env → List Token → ℕ → ℕ → Bool → Outcome (ℕ × Bool)
eval zero env ts p e success = stop out_of_fuel
eval (suc f) env ts p e false = ok (0, false)
eval (suc f) env ts p e true = eval_true (λ p' e' s'. eval f env ts p' e' s') env ts p e
