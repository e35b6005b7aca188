-- ===== src/Klib/Number/Decimal.antt =====
-- Decimal text is read back as the number it was written for.
use cpu_linux.Prelude.{
  ℕ, zero, suc, ◌+◌, ◌-◌, ◌*◌, ◌/◌, ◌%◌, ◌^◌, ◌<◌, ◌≡◌, refl, sym, ap, ◌∙◌, ◌≢◌, true, false, List,
  [], ◌∷◌, ◌++◌, append_assoc, append-nil, arith, ◌==◌, length, get_or, ltb, if◌then◌else◌,
  undefined, Outcome, ok, stop,
}
use mathlib.Core.List.{reverse, reverse-append}
use native.Mathlib.Nat.{pow-suc}
use cpu_linux.Klib.Number.{push_digits, max_digits, uint_to_str, atoi_digits, atoi}
use cpu_linux.Klib.Number.Reversal.{get_or-reverse, swap_str-reverse}

-- The digits of a number, the last one first.
pub lsf : ℕ → ℕ → List ℕ
lsf zero num = []
lsf (suc n) num = elim (num == 0) [ true ↦ [] | false ↦ (num % 10 + b'0') ∷ lsf n (num / 10) ]

pub lsf_done : (n : ℕ) → lsf n 0 ≡ []
unfolding lsf
lsf_done zero = refl
lsf_done (suc n) = refl

pub lsf_more : (n num : ℕ) → 0 < num → lsf (suc n) num ≡ (num % 10 + b'0') ∷ lsf n (num / 10)
unfolding lsf
lsf_more n num h = ground arith

push_digits_done : (n : ℕ) (str : List ℕ) → push_digits n 0 str ≡ str
unfolding push_digits
push_digits_done zero str = refl
push_digits_done (suc n) str = refl

push_digits_more :
    (n num : ℕ) (str : List ℕ)
    → 0 < num
    → push_digits (suc n) num str ≡ push_digits n (num / 10) (str ++ (num % 10 + b'0') ∷ [])
unfolding push_digits
push_digits_more n num str h = ground arith

pub push_digits-lsf : (n num : ℕ) (str : List ℕ) → push_digits n num str ≡ str ++ lsf n num
unfolding push_digits lsf
push_digits-lsf zero num str = sym (append-nil str)
push_digits-lsf (suc n) zero str = sym (append-nil str)
push_digits-lsf (suc n) (suc num) str =
    push_digits_more n (suc num) str (omega arith)
    ∙ push_digits-lsf n (suc num / 10) (str ++ (suc num % 10 + b'0') ∷ [])
    ∙ append_assoc str ((suc num % 10 + b'0') ∷ []) (lsf n (suc num / 10))
    ∙ ap (λ d. str ++ d) (sym (lsf_more n (suc num) (omega arith)))

lsf-ne-space : (n num q : ℕ) → get_or (lsf n num) q 0 ≢ b' '
unfolding lsf
lsf-ne-space zero num q = ground arith
lsf-ne-space (suc n) num zero = ground arith
lsf-ne-space (suc n) num (suc q) = ground (arith, lsf-ne-space n (num / 10) q)

atoi_no_space : (s : List ℕ) → get_or s 0 0 ≢ b' ' → atoi s ≡ atoi_digits 0 s
unfolding atoi
atoi_no_space [] h = refl
atoi_no_space (c ∷ s) h = ground arith

atoi_digits_more :
    (num : ℕ) (s : List ℕ)
    → num < 2 ^ 31
    → atoi_digits (num / 10) ((num % 10 + b'0') ∷ s)
      ≡ (if ltb (num + b'0') (2 ^ 31) then atoi_digits num s else stop undefined)
unfolding atoi_digits
atoi_digits_more num s h =
    let e : num / 10 * 10 + (num % 10 + b'0') - b'0' ≡ num = omega arith in
    ground (arith, ap (λ x. atoi_digits x s) e)

small_number :
    (num : ℕ) (r : Outcome ℕ)
    → num + b'0' < 2 ^ 31
    → (if ltb (num + b'0') (2 ^ 31) then r else stop undefined) ≡ r
small_number num r h = ground arith

lsf_last :
    (n num : ℕ) (s : List ℕ)
    → reverse ((num % 10 + b'0') ∷ lsf n (num / 10)) ++ s
      ≡ reverse (lsf n (num / 10)) ++ (num % 10 + b'0') ∷ s
lsf_last n num s =
    ap (λ r. r ++ s) (reverse-append ((num % 10 + b'0') ∷ []) (lsf n (num / 10)))
    ∙ append_assoc (reverse (lsf n (num / 10))) ((num % 10 + b'0') ∷ []) s

atoi_digits-lsf :
    (n num : ℕ) (s : List ℕ)
    → num < 10 ^ n
    → num + b'0' < 2 ^ 31
    → atoi_digits 0 (reverse (lsf n num) ++ s) ≡ atoi_digits num s
unfolding lsf
atoi_digits-lsf zero num s h k = let e : 0 ≡ num = omega arith in ap (λ x. atoi_digits x s) e
atoi_digits-lsf (suc n) zero s h k = ap (λ d. atoi_digits 0 (reverse d ++ s)) (lsf_done (suc n))
atoi_digits-lsf (suc n) (suc num) s h k =
    ap (λ d. atoi_digits 0 (reverse d ++ s)) (lsf_more n (suc num) (omega arith))
    ∙ ap (atoi_digits 0) (lsf_last n (suc num) s)
    ∙ atoi_digits-lsf n (suc num / 10) ((suc num % 10 + b'0') ∷ s) (omega (arith, pow-suc 10 n))
        (omega arith)
    ∙ atoi_digits_more (suc num) s (omega arith)
    ∙ small_number (suc num) (atoi_digits (suc num) s) k

pub uint_to_str-lsf : (num : ℕ) → 0 < num → uint_to_str num ≡ reverse (lsf max_digits num)
unfolding uint_to_str
uint_to_str-lsf num h =
    ground (arith, swap_str-reverse (push_digits max_digits num []))
    ∙ ap reverse (push_digits-lsf max_digits num [])

-- What uint_to_str() writes for a number below 2^31 - 48, atoi() reads back as that number. For one from there to
-- 2^31, where the number with the character '0' added does not fit an int, atoi() overflows at the last digit.
pub atoi-uint_to_str :
    (num : ℕ)
    → num < 2 ^ 31
    → atoi (uint_to_str num) ≡ (if ltb (num + b'0') (2 ^ 31) then ok num else stop undefined)
unfolding atoi uint_to_str atoi_digits
atoi-uint_to_str zero h = refl
atoi-uint_to_str (suc num) h =
    ap atoi (uint_to_str-lsf (suc num) (omega arith))
    ∙ atoi_no_space (reverse (lsf max_digits (suc num))) (
        ground (
          arith,
          get_or-reverse (lsf max_digits (suc num)) 0,
          lsf-ne-space max_digits (suc num) (length (lsf max_digits (suc num)) - 1),
        ))
    ∙ ap (atoi_digits 0) (sym (append-nil (reverse (lsf max_digits (suc num)))))
    ∙ ap (λ d. atoi_digits 0 (reverse d ++ [])) (lsf_more 9 (suc num) (omega arith))
    ∙ ap (atoi_digits 0) (lsf_last 9 (suc num) [])
    ∙ atoi_digits-lsf 9 (suc num / 10) ((suc num % 10 + b'0') ∷ []) (omega arith) (omega arith)
    ∙ atoi_digits_more (suc num) [] h
