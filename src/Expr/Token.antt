-- ===== src/Expr/Token.antt =====
-- The token types and the token array of expr.c.
use cpu_linux.Prelude.{ℕ, Bool, true, false, List, [], get_or}

-- The enum of expr.c, without TK_NEG, which no code produces. TK_NOTYPE is 256, and each
-- type after it is one more.
pub data TokenType : Type 0 where
  notype num_end_9 num_end_f reg newline left right and eq neq plus sub mul div ref : TokenType

unfoldable pub code : TokenType → ℕ
code notype = 256
code num_end_9 = 257
code num_end_f = 258
code reg = 259
code newline = 260
code left = 261
code right = 262
code and = 263
code eq = 264
code neq = 265
code plus = 266
code sub = 267
code mul = 268
code div = 269
code ref = 270

abbrev pub is_left : TokenType → Bool
is_left left = true
is_left _ = false

abbrev pub is_right : TokenType → Bool
is_right right = true
is_right _ = false

abbrev pub is_mul : TokenType → Bool
is_mul mul = true
is_mul _ = false

abbrev pub is_ref : TokenType → Bool
is_ref ref = true
is_ref _ = false

-- `str` is the text up to its first '\0'.
pub record Token : Type 0 where
  pub type : TokenType
  pub str : List ℕ

-- token_str_len and token_array_len.
abbrev pub token_str_len : ℕ
token_str_len = 1000

abbrev pub token_array_len : ℕ
token_array_len = 65536

-- What init_token() leaves in the array, with 0 (no type) for a type.
abbrev pub no_token : Token
no_token = record { type = notype; str = [] }

-- tokens[i], for the tokens in use.
abbrev pub token_at : List Token → ℕ → Token
token_at ts i = get_or ts i no_token

abbrev pub type_at : List Token → ℕ → TokenType
type_at ts i = (token_at ts i).type

-- The cases of prev_is_num().
unfoldable pub prev_is_num : TokenType → Bool
prev_is_num num_end_9 = true
prev_is_num num_end_f = true
prev_is_num reg = true
prev_is_num left = true
prev_is_num right = true
prev_is_num _ = false
