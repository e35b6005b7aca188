-- ===== src/Klib/Format.antt =====
-- abstract-machine/klib/src/stdio.c: formats. The arguments behind a format are a list, and the text
-- that is written is a list of characters, without the 0 that ends it.
pub mod Pieces
use cpu_linux.Prelude.{
  ℕ, ◌∷◌, ◌%◌, ◌^◌, List, [], ◌++◌, ltb, ◌==◌, if◌then◌else◌, length, undefined, Outcome, ok, stop,
  guard, ◌>>=◌, ◌>>◌,
}
use cpu_linux.Prelude.Int.{ℤ}
use cpu_linux.Klib.Number.{int_to_str, uint_to_str}

-- An argument by the type that va_arg() reads it with: `int`, `uint64_t` and `char *`.
pub data Arg : Type 0 where
  int : ℤ → Arg
  uint : ℕ → Arg
  str : List ℕ → Arg

abbrev pub put : List ℕ → Outcome (List ℕ) → Outcome (List ℕ)
put s rest = rest >>= λ t. ok (s ++ t)

-- The cases of the switch; an argument that is missing or of another type is undefined. %u cuts its
-- argument to 32 bits.
unfoldable pub put_int : List Arg → (List Arg → Outcome (List ℕ)) → Outcome (List ℕ)
put_int (int num ∷ ap) rest = put (int_to_str num) (rest ap)
put_int _ rest = stop undefined

unfoldable pub put_uint : List Arg → (List Arg → Outcome (List ℕ)) → Outcome (List ℕ)
put_uint (uint num ∷ ap) rest = put (uint_to_str (num % 2 ^ 32)) (rest ap)
put_uint _ rest = stop undefined

unfoldable pub put_str : List Arg → (List Arg → Outcome (List ℕ)) → Outcome (List ℕ)
put_str (str s ∷ ap) rest = put s (rest ap)
put_str _ rest = stop undefined

unfoldable pub directive : ℕ → List Arg → (List Arg → Outcome (List ℕ)) → Outcome (List ℕ)
directive ch ap rest =
    if ch == b'd'
    then put_int ap rest
    else if ch == b's'
    then put_str ap rest
    else if ch == b'u'
    then put_uint ap rest
    else put (ch ∷ []) (rest ap)

-- vsprintf(out, fmt, ap): what stands in `out` afterwards. With a `%` at the end of the format, the
-- loop goes on behind the end.
unfoldable pub vsprintf : List ℕ → List Arg → Outcome (List ℕ)
vsprintf [] ap = ok []
vsprintf (ch ∷ []) ap = if ch == b'%' then stop undefined else ok (ch ∷ [])
vsprintf (ch ∷ ch' ∷ fmt) ap =
    if ch == b'%'
    then directive ch' ap (λ ap'. vsprintf fmt ap')
    else put (ch ∷ []) (vsprintf (ch' ∷ fmt) ap)

-- sprintf(out, fmt, ...): the result, and what stands in `out`.
unfoldable pub sprintf : List ℕ → List Arg → Outcome (ℕ × List ℕ)
sprintf fmt ap = do out ← vsprintf fmt ap; ok (length out, out)

-- BUF_SIZE.
abbrev pub buf_size : ℕ
buf_size = 1024

-- printf(fmt, ...): the result, and the characters that it gives to putch(). The buffer holds the
-- text and its 0.
unfoldable pub printf : List ℕ → List Arg → Outcome (ℕ × List ℕ)
printf fmt ap = do
  out ← vsprintf fmt ap
  guard (ltb (length out) buf_size) undefined
  ok (length out, out)
