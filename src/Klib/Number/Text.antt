-- ===== src/Klib/Number/Text.antt =====
-- The numbers of abstract-machine/klib/src/stdio.c against decimal text that is written from the first digit on.
use cpu_linux.Prelude.{
  ℕ, zero, suc, ◌+◌, ◌/◌, ◌%◌, ◌^◌, ◌≤◌, ◌<◌, ◌≡◌, refl, sym, ap, ◌∙◌, List, [], ◌∷◌, ◌++◌, arith,
  ltb, if◌then◌else◌, length, dec_lt,
}
use cpu_linux.Prelude.Int.{ℤ, pos, negsuc}
use mathlib.Core.List.{reverse, reverse-append}
use native.Mathlib.Nat.{pow-suc}
use cpu_linux.Klib.Number.{push_digits, max_digits, swap_str, uint_to_str, int_to_str}
use cpu_linux.Klib.Number.Reversal.{swap_str-reverse, swap_str_behind}
use cpu_linux.Klib.Number.Decimal.{lsf, lsf_done, lsf_more, push_digits-lsf, uint_to_str-lsf}

-- The decimal text of a number with at most that many digits: the text of its tenth, unless that is 0, and the
-- last digit.
unfoldable pub decimal_text : (digits num : ℕ) → List ℕ
decimal_text zero num = []
decimal_text (suc n) num =
    let front = decimal_text n (num / 10) in
    (if ltb num 10 then [] else front) ++ (b'0' + num % 10) ∷ []

-- With a sign in front of a negative number; ten digits are enough for 32 bits.
unfoldable pub signed_text : ℤ → List ℕ
signed_text (pos n) = decimal_text 10 n
signed_text (negsuc n) = b'-' ∷ decimal_text 10 (n + 1)

-- The values of an int.
abbrev pub IsInt : ℤ → Type 0
IsInt (pos n) = n < 2 ^ 31
IsInt (negsuc n) = n < 2 ^ 31

decimal_text_short : (n num : ℕ) → num < 10 → decimal_text (suc n) num ≡ (b'0' + num % 10) ∷ []
unfolding decimal_text
decimal_text_short n num h = ground arith

decimal_text_long :
    (n num : ℕ)
    → 10 ≤ num
    → decimal_text (suc n) num ≡ decimal_text n (num / 10) ++ (b'0' + num % 10) ∷ []
unfolding decimal_text
decimal_text_long n num h = ground arith

reverse-lsf : (n num : ℕ) → 0 < num → num < 10 ^ n → reverse (lsf n num) ≡ decimal_text n num
reverse-lsf zero num h k = absurd (omega arith)
reverse-lsf (suc n) num h k =
    ap reverse (lsf_more n num h)
    ∙ reverse-append ((num % 10 + b'0') ∷ []) (lsf n (num / 10))
    ∙ elim (dec_lt num 10) [
      | yes short ↦
          ap (λ m. reverse (lsf n m) ++ (num % 10 + b'0') ∷ []) {x = num / 10} {y = 0} (omega arith)
          ∙ ap (λ d. reverse d ++ (num % 10 + b'0') ∷ []) (lsf_done n)
          ∙ ap (λ c. c ∷ []) {x = num % 10 + b'0'} {y = b'0' + num % 10} (omega arith)
          ∙ sym (decimal_text_short n num short)
      | no long ↦
          ap (λ d. d ++ (num % 10 + b'0') ∷ [])
            (reverse-lsf n (num / 10) (omega arith) (omega (arith, pow-suc 10 n)))
          ∙ ap (λ c. decimal_text n (num / 10) ++ c ∷ []) {x = num % 10 + b'0'}
              {y = b'0' + num % 10} (omega arith)
          ∙ sym (decimal_text_long n num (omega arith))
    ]

pub uint_to_str-decimal_text : (num : ℕ) → num < 2 ^ 32 → uint_to_str num ≡ decimal_text 10 num
unfolding uint_to_str decimal_text
uint_to_str-decimal_text zero h = refl
uint_to_str-decimal_text (suc num) h =
    uint_to_str-lsf (suc num) (omega arith) ∙ reverse-lsf 10 (suc num) (omega arith) (omega arith)

int_to_str-pos : (num : ℕ) → 0 < num → int_to_str (pos num) ≡ reverse (lsf max_digits num)
unfolding int_to_str
int_to_str-pos num h =
    ground (arith, swap_str-reverse (push_digits max_digits num []))
    ∙ ap reverse (push_digits-lsf max_digits num [])

int_to_str-negsuc :
    (n : ℕ) → n + 1 < 2 ^ 31 → int_to_str (negsuc n) ≡ b'-' ∷ reverse (lsf max_digits (n + 1))
unfolding int_to_str
int_to_str-negsuc n h =
    let front = push_digits max_digits (n + 1) (b'-' ∷ []) in
    let begin : int_to_str (negsuc n) ≡ swap_str (length front) front 1 (length front) =
      ground arith in
    begin
    ∙ ap (λ s. swap_str (length s) s 1 (length s)) (push_digits-lsf max_digits (n + 1) (b'-' ∷ []))
    ∙ swap_str_behind b'-' (lsf max_digits (n + 1))

int_to_str_least : (n : ℕ) → n + 1 ≡ 2 ^ 31 → int_to_str (negsuc n) ≡ signed_text (negsuc n)
unfolding int_to_str signed_text decimal_text
int_to_str_least n h =
    ap (λ m. int_to_str (negsuc m)) {x = n} {y = 2_147_483_647} (omega arith)
    ∙ refl
    ∙ ap (λ m. signed_text (negsuc m)) {x = 2_147_483_647} {y = n} (omega arith)

pub int_to_str-signed_text : (num : ℤ) → IsInt num → int_to_str num ≡ signed_text num
unfolding signed_text int_to_str decimal_text swap_str
int_to_str-signed_text (pos zero) h = refl
int_to_str-signed_text (pos (suc n)) h =
    int_to_str-pos (suc n) (omega arith) ∙ reverse-lsf 10 (suc n) (omega arith) (omega arith)
int_to_str-signed_text (negsuc n) h = elim (dec_lt (n + 1) (2 ^ 31)) [
  | yes small ↦
      int_to_str-negsuc n small
      ∙ ap (λ d. b'-' ∷ d) (reverse-lsf 10 (n + 1) (omega arith) (omega arith))
  | no least ↦ int_to_str_least n (omega arith)
]
