-- ===== src/Klib/Number.antt =====
-- abstract-machine/klib/src/stdio.c: numbers as decimal text, and stdlib.c: atoi(), rand(), abs().
-- The characters written to `str` so far are a list.
pub mod Decimal
pub mod Reversal
pub mod Text
use cpu_linux.Prelude.{
  ℕ, zero, suc, ◌+◌, ◌-◌, ◌*◌, ◌/◌, ◌%◌, ◌^◌, true, false, ◌&&◌, List, [], ◌∷◌, ◌++◌, ltb, leb,
  ◌==◌, if◌then◌else◌, length, get_or, set, undefined, Outcome, ok, stop, codes,
}
use cpu_linux.Prelude.Int.{ℤ, pos, negsuc}

-- `while(num > 0){ str[i++] = num % 10 + '0'; num = num / 10; }`, with `n` rounds at most.
unfoldable pub push_digits : ℕ → ℕ → List ℕ → List ℕ
push_digits zero num str = str
push_digits (suc n) num str = elim (num == 0) [
  | true ↦ str
  | false ↦ push_digits n (num / 10) (str ++ (num % 10 + b'0') ∷ [])
]

abbrev pub swap : List ℕ → ℕ → ℕ → List ℕ
swap str l r = set (set str l (get_or str r 0)) r (get_or str l 0)

-- swap_str(str, l, e - 1): the code's `l <= r` is `l < e`. The loop has `n` rounds at most.
unfoldable pub swap_str : ℕ → List ℕ → ℕ → ℕ → List ℕ
swap_str zero str l e = str
swap_str (suc n) str l e = elim (ltb l e) [
  | true ↦ swap_str n (swap str l (e - 1)) (l + 1) (e - 1)
  | false ↦ str
]

-- The numbers have 32 bits, so ten digits at most.
abbrev pub max_digits : ℕ
max_digits = 10

-- uint_to_str(str, num), from an empty `str`.
unfoldable pub uint_to_str : ℕ → List ℕ
uint_to_str num =
    if num == 0
    then b'0' ∷ []
    else (let str = push_digits max_digits num [] in swap_str (length str) str 0 (length str))

-- int_to_str(str, num), from an empty `str`.
unfoldable pub int_to_str : ℤ → List ℕ
int_to_str (pos num) =
    let str = if num == 0 then b'0' ∷ [] else push_digits max_digits num [] in
    swap_str (length str) str 0 (length str)
int_to_str (negsuc n) =
    if n + 1 == 2 ^ 31
    then codes "-2147483648"
    else (let str = push_digits max_digits (n + 1) (b'-' ∷ []) in
        swap_str (length str) str 1 (length str))

-- The second loop of atoi(), which stops at the first character that is no digit. `x` is multiplied by ten and the
-- character is added to it before '0' is taken off, and a sum from 2^31 on is an overflow, which is undefined.
unfoldable pub atoi_digits : ℕ → List ℕ → Outcome ℕ
atoi_digits x [] = ok x
atoi_digits x (c ∷ s) =
    let rest = atoi_digits (x * 10 + c - b'0') s in
    if leb b'0' c && leb c b'9'
    then (if ltb (x * 10 + c) (2 ^ 31) then rest else stop undefined)
    else ok x

-- atoi(nptr) on a text.
unfoldable pub atoi : List ℕ → Outcome ℕ
atoi [] = atoi_digits 0 []
atoi (c ∷ s) = let rest = atoi s in if c == b' ' then rest else atoi_digits 0 (c ∷ s)

-- abs(x); -INT_MIN is undefined.
unfoldable pub abs : ℤ → Outcome ℕ
abs (pos n) = ok n
abs (negsuc n) = if n + 1 == 2 ^ 31 then stop undefined else ok (n + 1)

-- rand(): the result and the new `next`. `unsigned long` has 32 bits on the machine.
unfoldable pub rand : ℕ → ℕ × ℕ
rand next = let next' = (next * 1103515245 + 12345) % 2 ^ 32 in (next' / 65536 % 32768, next')

-- srand(seed): the new `next`.
unfoldable pub srand : ℕ → ℕ
srand seed = seed % 2 ^ 32
