-- ===== src/Expr/Lexer.antt =====
-- make_token(), expr() and get_expr_val() of expr.c. regexec() is the host's: the parameter
-- `regexec` gives rm_so and rm_eo of the match of a regex in a text, if there is one.
use cpu_linux.Prelude.{
  ℕ, zero, suc, Bool, true, false, not, ◌&&◌, Option, none, some, List, [], ◌∷◌, ◌++◌, ltb,
  if◌then◌else◌, length, take, drop, assertion, undefined, out_of_fuel, Outcome, ok, stop, ◌>>=◌,
  ◌>>◌, guard,
}
use Prim.Native.String.{String}
use cpu_linux.Expr.Token.{
  TokenType, notype, num_end_9, num_end_f, reg, newline, left, right, and, eq, neq, plus, sub, mul,
  div, ref, Token, is_mul, prev_is_num, token_str_len, token_array_len,
}
use cpu_linux.Expr.Eval.{Env, eval}

pub record Rule : Type 0 where
  pub regex : String
  pub token_type : TokenType

abbrev rule : String → TokenType → Rule
rule r t = record { regex = r; token_type = t }

-- `rules`, in their order.
abbrev pub rules : List Rule
rules =
    rule "\\$[A-Za-z0-9]+|\\$\\$[A-Za-z0-9]+" reg
    ∷ rule "0x[0-9a-fA-F]+U|0x[0-9a-fA-F]+" num_end_f
    ∷ rule "[0-9]+U|[0-9]+" num_end_9
    ∷ rule " +" notype
    ∷ rule "\\+" plus
    ∷ rule "-" sub
    ∷ rule "\\*" mul
    ∷ rule "\\/" div
    ∷ rule "\\(" left
    ∷ rule "\\)" right
    ∷ rule "\n" newline
    ∷ rule "==" eq
    ∷ rule "!=" neq
    ∷ rule "&&" and
    ∷ []

abbrev pub Regexec : Type 0
Regexec = String → List ℕ → Option (ℕ × ℕ)

abbrev pub at_start : Option (ℕ × ℕ) → Option ℕ
at_start (some (zero, eo)) = some eo
at_start _ = none

-- The first rule that matches at the start of the text, with the length of its match.
unfoldable pub first_match : Regexec → List Rule → List ℕ → Option (TokenType × ℕ)
first_match regexec [] s = none
first_match regexec (r ∷ rs) s =
    let later = first_match regexec rs s in
    elim (at_start (regexec r.regex s)) [ some eo ↦ some (r.token_type, eo) | none ↦ later ]

-- tokens[nr_token] is written, and nr_token counted up.
abbrev pub push : List Token → TokenType → List ℕ → Outcome (List Token)
push ts t s =
    if ltb (length ts) token_array_len
    then ok (ts ++ record { type = t; str = s } ∷ [])
    else stop undefined

-- The switch of make_token() on the type of the rule; `s` is the text matched.
unfoldable pub add_token : List Token → TokenType → List ℕ → ℕ → Outcome (List Token)
add_token ts notype s n = ok ts
add_token ts newline s n = ok ts
add_token ts reg s n = do guard (ltb n token_str_len) assertion; push ts reg (take n s)
add_token ts num_end_f s n = do guard (ltb n token_str_len) assertion; push ts num_end_f (take n s)
add_token ts num_end_9 s n = do guard (ltb n token_str_len) assertion; push ts num_end_9 (take n s)
add_token ts t s n = push ts t []

-- The while loop of make_token() on the text from `position` on: the tokens, and whether every
-- position had a match.
unfoldable pub scan : ℕ → Regexec → List ℕ → List Token → Outcome (List Token × Bool)
scan fuel regexec [] ts = ok (ts, true)
scan zero regexec (c ∷ s) ts = stop out_of_fuel
scan (suc fuel) regexec (c ∷ s) ts = elim (first_match regexec rules (c ∷ s)) [
  | none ↦ ok (ts, false)
  | some (t, n) ↦ add_token ts t (c ∷ s) n >>= scan fuel regexec (drop n (c ∷ s))
]

-- The second loop of make_token(): a star that follows no operand is a dereference. `prev` is the
-- type of the token before, if there is one.
abbrev pub after_operand : Option TokenType → Bool
after_operand none = false
after_operand (some t) = prev_is_num t

unfoldable pub classify : Option TokenType → List Token → List Token
classify prev [] = []
classify prev (x ∷ xs) =
    let t = if is_mul x.type && not (after_operand prev) then ref else x.type in
    record x { type = t } ∷ classify (some t) xs

-- make_token(): the token array and the result.
unfoldable pub make_token : Regexec → List ℕ → Outcome (List Token × Bool)
make_token regexec e = do
  (ts, matched) ← scan (length e) regexec e []
  ok (if matched then (classify none ts, true) else (ts, false))

-- expr(e, success) with `*success` true at first, as every caller has it. The fuel of eval() is
-- more than the number of tokens.
unfoldable pub expr : Regexec → Env → List ℕ → Outcome (ℕ × Bool)
expr regexec env e = do
  (ts, made) ← make_token regexec e
  eval (suc (length ts)) env ts 0 (length ts) made
