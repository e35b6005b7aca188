-- ===== src/Klib/Format/Pieces.antt =====
-- What a format writes, piece by piece.
use cpu_linux.Prelude.{ℕ, ◌∷◌, ◌%◌, ◌^◌, ◌≡◌, ◌≢◌, refl, ap, ◌∙◌, List, [], ◌++◌, arith, ok}
use cpu_linux.Prelude.Int.{ℤ}
use cpu_linux.Klib.Number.{int_to_str, uint_to_str}
use cpu_linux.Klib.Number.Text.{
  decimal_text, signed_text, IsInt, int_to_str-signed_text, uint_to_str-decimal_text,
}
use cpu_linux.Klib.Format.{
  Arg, int, uint, str, put, put_int, put_uint, put_str, directive, vsprintf,
}

-- The pieces of a format: a character by itself, a character behind a `%`, and the directives with
-- their arguments.
pub data Piece : Type 0 where
  plain escaped : ℕ → Piece
  decimal : ℤ → Piece
  unsigned : ℕ → Piece
  text : List ℕ → Piece

unfoldable pub format_of : List Piece → List ℕ
format_of [] = []
format_of (plain ch ∷ ps) = ch ∷ format_of ps
format_of (escaped ch ∷ ps) = b'%' ∷ ch ∷ format_of ps
format_of (decimal num ∷ ps) = b'%' ∷ b'd' ∷ format_of ps
format_of (unsigned num ∷ ps) = b'%' ∷ b'u' ∷ format_of ps
format_of (text s ∷ ps) = b'%' ∷ b's' ∷ format_of ps

unfoldable pub args_of : List Piece → List Arg
args_of [] = []
args_of (plain ch ∷ ps) = args_of ps
args_of (escaped ch ∷ ps) = args_of ps
args_of (decimal num ∷ ps) = int num ∷ args_of ps
args_of (unsigned num ∷ ps) = uint num ∷ args_of ps
args_of (text s ∷ ps) = str s ∷ args_of ps

unfoldable pub output_of : List Piece → List ℕ
output_of [] = []
output_of (plain ch ∷ ps) = ch ∷ output_of ps
output_of (escaped ch ∷ ps) = ch ∷ output_of ps
output_of (decimal num ∷ ps) = signed_text num ++ output_of ps
output_of (unsigned num ∷ ps) = decimal_text 10 (num % 2 ^ 32) ++ output_of ps
output_of (text s ∷ ps) = s ++ output_of ps

-- A plain character is not a `%`, an escaped one does not name a directive, and the argument of %d is an int.
abbrev pub IsFormat : List Piece → Type 0
IsFormat [] = Unit
IsFormat (plain ch ∷ ps) = (ch ≢ b'%') × IsFormat ps
IsFormat (escaped ch ∷ ps) = (ch ≢ b'd') × (ch ≢ b's') × (ch ≢ b'u') × IsFormat ps
IsFormat (decimal num ∷ ps) = IsInt num × IsFormat ps
IsFormat (_ ∷ ps) = IsFormat ps

vsprintf_plain :
    (ch : ℕ) (fmt : List ℕ) (args : List Arg)
    → ch ≢ b'%'
    → vsprintf (ch ∷ fmt) args ≡ put (ch ∷ []) (vsprintf fmt args)
unfolding vsprintf
vsprintf_plain ch [] args h = ground arith
vsprintf_plain ch (ch' ∷ fmt) args h = ground arith

-- vsprintf() on the format of a list of pieces, with their arguments, writes the pieces one after
-- the other: characters as they are, texts in full, the number of %d, an int, in decimal with a sign if it is negative,
-- and that of %u in decimal without the bits from the 32nd on.
pub vsprintf_lem :
    (ps : List Piece) → IsFormat ps → vsprintf (format_of ps) (args_of ps) ≡ ok (output_of ps)
unfolding vsprintf format_of args_of output_of directive put_int put_uint put_str
vsprintf_lem [] h = refl
vsprintf_lem (plain ch ∷ ps) h =
    vsprintf_plain ch (format_of ps) (args_of ps) h.0 ∙ ap (put (ch ∷ [])) (vsprintf_lem ps h.1)
vsprintf_lem (escaped ch ∷ ps) h = ground (arith, vsprintf_lem ps h.3)
vsprintf_lem (decimal num ∷ ps) h =
    ap (put (int_to_str num)) (vsprintf_lem ps h.1)
    ∙ ap (λ t. ok (t ++ output_of ps)) (int_to_str-signed_text num h.0)
vsprintf_lem (unsigned num ∷ ps) h =
    ap (put (uint_to_str (num % 2 ^ 32))) (vsprintf_lem ps h)
    ∙ ap (λ t. ok (t ++ output_of ps)) (uint_to_str-decimal_text (num % 2 ^ 32) (omega arith))
vsprintf_lem (text s ∷ ps) h = ap (put s) (vsprintf_lem ps h)
