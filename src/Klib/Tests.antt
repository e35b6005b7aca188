-- ===== src/Klib/Tests.antt =====
-- The C library at concrete texts and addresses.
use cpu_linux.Prelude.{
  List, [], ◌∷◌, ◌-◌, ◌≡◌, refl, arith, codes, get_or, leb, if◌then◌else◌, ok, undefined, stop,
  Outcome, ℕ,
}
use cpu_linux.Prelude.Int.{negsuc}
use cpu_linux.Klib.Mem.{Memory, copy_down, memmove}
use cpu_linux.Klib.Mem.Copies.{IsText, moved, memmove_lem}
use cpu_linux.Klib.Number.{push_digits, swap_str, uint_to_str, int_to_str, atoi_digits, atoi, rand}
use cpu_linux.Klib.Format.{int, uint, str, put_int, put_uint, put_str, directive, vsprintf, printf}
use cpu_linux.Klib.Format.Pieces.{
  Piece, plain, escaped, decimal, unsigned, text, format_of, args_of, output_of, vsprintf_lem,
}
use cpu_linux.Klib.Number.Decimal.{atoi-uint_to_str}

-- "abc" at 100 and "abd" at 200.
abbrev texts : Memory
texts p =
    if leb 200 p
    then get_or (codes "abd") (p - 200) 0
    else if leb 100 p
    then get_or (codes "abc") (p - 100) 0
    else 0

abc : IsText texts 100 (codes "abc")
abc = (refl, λ e. omega arith, (refl, λ e. omega arith, (refl, λ e. omega arith, refl)))

abd : IsText texts 200 (codes "abd")
abd = (refl, λ e. omega arith, (refl, λ e. omega arith, (refl, λ e. omega arith, refl)))

byte_of : ℕ → Outcome (ℕ × Memory) → ℕ
byte_of q (ok x) = x.1 q
byte_of q (stop why) = 0

overlap : byte_of 103 (memmove 101 100 3 texts) ≡ 99
unfolding byte_of memmove copy_down
overlap = refl

digits : int_to_str (negsuc 119) ≡ codes "-120"
unfolding int_to_str push_digits swap_str
digits = refl

spaces : atoi (codes "  42x") ≡ ok 42
unfolding atoi atoi_digits
spaces = refl

too_large : atoi (codes "2147483648") ≡ stop undefined
unfolding atoi atoi_digits
too_large = refl

first_rand : (rand 1).0 ≡ 16838
unfolding rand
first_rand = refl

memmove_lem_example : memmove 101 100 3 texts ≡ ok (101, moved 101 100 3 texts)
memmove_lem_example = memmove_lem 101 100 3 texts (omega arith) (omega arith)

atoi-uint_to_str_example : atoi (uint_to_str 9070) ≡ ok 9070
atoi-uint_to_str_example = atoi-uint_to_str 9070 (omega arith)

near_overflow : atoi (codes "2147483600") ≡ stop undefined
unfolding atoi atoi_digits
near_overflow = refl

abbrev pieces : List Piece
pieces =
    plain b'x'
    ∷ plain b'='
    ∷ decimal (negsuc 119)
    ∷ escaped b'%'
    ∷ text (codes "ab")
    ∷ unsigned 7
    ∷ []

printed :
    printf (codes "x=%d%%%s%u") (int (negsuc 119) ∷ str (codes "ab") ∷ uint 7 ∷ [])
    ≡ ok (10, codes "x=-120%ab7")
unfolding printf vsprintf directive put_int put_str put_uint int_to_str uint_to_str push_digits
    swap_str
printed = refl

last_percent : vsprintf (codes "50%") [] ≡ stop undefined
unfolding vsprintf
last_percent = refl

vsprintf_lem_example : vsprintf (format_of pieces) (args_of pieces) ≡ ok (output_of pieces)
vsprintf_lem_example = vsprintf_lem pieces (
  λ e. omega arith,
  (λ e. omega arith, (omega arith, (λ e. omega arith, λ e. omega arith, λ e. omega arith, tt))),
)
