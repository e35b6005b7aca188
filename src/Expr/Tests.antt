-- ===== src/Expr/Tests.antt =====
-- Expressions evaluated on their tokens.
use mathlib.Core.Option
use cpu_linux.Prelude.{◌+◌, ◌%◌, ◌≡◌, refl, true, some, none, [], ◌∷◌, arith, codes, length, ok}
use cpu_linux.Memory.{host_read}
use cpu_linux.Expr.Token.{left, right, mul, prev_is_num}
use cpu_linux.Expr.Lexer.{classify}
use cpu_linux.Expr.Eval.{Env, hex_char_to_num, eval}
use cpu_linux.Expr.Grammar.{
  Tree, dec, hex, paren, deref, bin, plus_op, sub_op, mul_op, sign, render, number, value,
}
use cpu_linux.Expr.Slice.{Slice-whole}
use cpu_linux.Expr.Value.{eval-render}
use cpu_linux.Expr.Total.{Ends, eval-Ends}

abbrev env : Env
env = record { cpu = record { gpr = 0 ∷ 42 ∷ []; pc = 0x8000_0000; csr = [] }; pmem = λ p. p % 256 }

-- 1 + 2 * (3 - 1)
abbrev sum : Tree
sum =
    bin plus_op (dec (codes "1"))
      (bin mul_op (dec (codes "2")) (paren (bin sub_op (dec (codes "3")) (dec (codes "1U")))))

-- *0x80000004 + 7
abbrev star_sum : Tree
star_sum = bin plus_op (deref (hex (codes "0x80000004"))) (dec (codes "7"))

sum_value : value env sum ≡ some 5
unfolding value number hex_char_to_num Option.bind
sum_value = refl

star_sum_value : value env star_sum ≡ some (0x0706_0504 + 7)
unfolding value number hex_char_to_num host_read Option.bind
star_sum_value = refl

seven : value env (dec (codes "7")) ≡ some 7
unfolding value number hex_char_to_num Option.bind
seven = refl

-- A star behind a left parenthesis becomes a multiplication.
star_after_paren : classify none (sign left ∷ sign mul ∷ []) ≡ sign left ∷ sign mul ∷ []
unfolding classify prev_is_num
star_after_paren = refl

nine_tokens : length (render sum) ≡ 9
unfolding render
nine_tokens = refl

four_tokens : length (render star_sum) ≡ 4
unfolding render
four_tokens = refl

eval-render_example : eval 9 env (render sum) 0 9 true ≡ ok (5, true)
eval-render_example =
    eval-render env (render sum) sum 9 0 9 5 (Slice-whole (render sum))
      (refl, refl, tt, (refl, refl, tt, (refl, refl, tt, tt)))
      (refl, tt, (refl, tt, (refl, tt, tt))) (omega arith) (omega (arith, nine_tokens))
      (omega (arith, nine_tokens)) sum_value

eval-Ends_example : Ends (eval 3 env (sign right ∷ sign left ∷ []) 0 2 true)
eval-Ends_example = eval-Ends 3 env (sign right ∷ sign left ∷ []) 0 2 true (omega arith)
