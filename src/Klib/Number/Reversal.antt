-- ===== src/Klib/Number/Reversal.antt =====
-- swap_str() of stdio.c turns a text round.
use cpu_linux.Prelude.{
  ℕ, zero, suc, ◌+◌, ◌-◌, ◌≤◌, ◌<◌, ◌≡◌, refl, sym, ap, ap₂, ◌∙◌, ◌&&◌, List, [], ◌∷◌, ◌++◌, arith,
  ltb, leb, ◌==◌, if◌then◌else◌, length, get_or, set, length-append, length-set, get_or-set_self,
  get_or-set_ne, dec_lt,
}
use mathlib.Core.List.{reverse, reverse-append}
use cpu_linux.Klib.Number.{swap, swap_str}

length-swap : (str : List ℕ) (l r : ℕ) → length (swap str l r) ≡ length str
length-swap str l r =
    length-set (set str l (get_or str r 0)) r (get_or str l 0) ∙ length-set str l (get_or str r 0)

length-swap_str : (n : ℕ) (str : List ℕ) (l e : ℕ) → length (swap_str n str l e) ≡ length str
unfolding swap_str
length-swap_str zero str l e = refl
length-swap_str (suc n) str l e =
    ground
      (arith, length-swap_str n (swap str l (e - 1)) (l + 1) (e - 1), length-swap str l (e - 1))

get_or-swap :
    (str : List ℕ) (l r q : ℕ)
    → l ≤ r
    → r < length str
    → get_or (swap str l r) q 0
      ≡ (if q == r then get_or str l 0 else if q == l then get_or str r 0 else get_or str q 0)
get_or-swap str l r q h k = ground (
  arith,
  length-set str l (get_or str r 0),
  get_or-set_self (set str l (get_or str r 0)) r (get_or str l 0) 0,
  get_or-set_ne (set str l (get_or str r 0)) r q (get_or str l 0) 0,
  get_or-set_self str l (get_or str r 0) 0,
  get_or-set_ne str l q (get_or str r 0) 0,
)

swap_str_more :
    (n : ℕ) (str : List ℕ) (l e : ℕ)
    → l < e
    → swap_str (suc n) str l e ≡ swap_str n (swap str l (e - 1)) (l + 1) (e - 1)
unfolding swap_str
swap_str_more n str l e h = ground arith

swap_str_done : (n : ℕ) (str : List ℕ) (l e : ℕ) → e ≤ l → swap_str (suc n) str l e ≡ str
unfolding swap_str
swap_str_done n str l e h = ground arith

-- The entry of the turned range, once its ends are swapped.
turned : List ℕ → ℕ → ℕ → ℕ → ℕ
turned str l e q = if leb l q && ltb q e then get_or str (l + e - 1 - q) 0 else get_or str q 0

turned_swap :
    (str str' : List ℕ) (l e q : ℕ)
    → l < e
    → ((p : ℕ)
        → get_or str' p 0 ≡ (
            if p == e - 1
            then get_or str l 0
            else if p == l
            then get_or str (e - 1) 0
            else get_or str p 0))
    → turned str' (l + 1) (e - 1) q ≡ turned str l e q
unfolding turned
turned_swap str str' l e q h k = ground (arith, k q, k (l + 1 + (e - 1) - 1 - q))

-- swap_str() turns the range [l, e) round and leaves the rest.
get_or-swap_str :
    (n : ℕ) (str : List ℕ) (l e q : ℕ)
    → e ≤ length str
    → e ≤ l + n
    → get_or (swap_str n str l e) q 0 ≡ turned str l e q
unfolding swap_str turned
get_or-swap_str zero str l e q h k = ground arith
get_or-swap_str (suc n) str l e q h k = elim (dec_lt l e) [
  | yes more ↦
      ap (λ s. get_or s q 0) (swap_str_more n str l e more)
      ∙ get_or-swap_str n (swap str l (e - 1)) (l + 1) (e - 1) q
          (omega (arith, length-swap str l (e - 1))) (omega arith)
      ∙ turned_swap str (swap str l (e - 1)) l e q more
          (λ p. get_or-swap str l (e - 1) p (omega arith) (omega arith))
  | no done ↦ ap (λ s. get_or s q 0) (swap_str_done n str l e (omega arith)) ∙ ground arith
]

list_ext :
    (xs ys : List ℕ) → length xs ≡ length ys → ((q : ℕ) → get_or xs q 0 ≡ get_or ys q 0) → xs ≡ ys
list_ext [] [] e h = refl
list_ext [] (y ∷ ys) e h = absurd (omega arith)
list_ext (x ∷ xs) [] e h = absurd (omega arith)
list_ext (x ∷ xs) (y ∷ ys) e h = ap₂ ◌∷◌ (h 0) (list_ext xs ys (omega arith) (λ q. h (suc q)))

get_or-append :
    (xs ys : List ℕ) (q : ℕ)
    → get_or (xs ++ ys) q 0
      ≡ (if ltb q (length xs) then get_or xs q 0 else get_or ys (q - length xs) 0)
get_or-append [] ys q = ground arith
get_or-append (x ∷ xs) ys zero = ground arith
get_or-append (x ∷ xs) ys (suc q) = ground (arith, get_or-append xs ys q)

get_or_outside : (xs : List ℕ) (q : ℕ) → length xs ≤ q → get_or xs q 0 ≡ 0
get_or_outside [] q h = refl
get_or_outside (x ∷ xs) zero h = absurd (omega arith)
get_or_outside (x ∷ xs) (suc q) h = get_or_outside xs q (omega arith)

length-reverse : (xs : List ℕ) → length (reverse xs) ≡ length xs
length-reverse [] = refl
length-reverse (x ∷ xs) =
    ap length (reverse-append (x ∷ []) xs)
    ∙ omega (arith, length-append (reverse xs) (x ∷ []), length-reverse xs)

pub get_or-reverse :
    (xs : List ℕ) (q : ℕ)
    → get_or (reverse xs) q 0 ≡ (if ltb q (length xs) then get_or xs (length xs - 1 - q) 0 else 0)
get_or-reverse [] q = ground arith
get_or-reverse (x ∷ xs) q =
    ap (λ s. get_or s q 0) (reverse-append (x ∷ []) xs)
    ∙ get_or-append (reverse xs) (x ∷ []) q
    ∙ ground (
      arith,
      length-reverse xs,
      get_or-reverse xs q,
      get_or_outside (x ∷ []) (q - length (reverse xs)),
    )

-- swap_str() of a whole text is its reverse.
pub swap_str-reverse : (str : List ℕ) → swap_str (length str) str 0 (length str) ≡ reverse str
unfolding turned
swap_str-reverse str =
    list_ext (swap_str (length str) str 0 (length str)) (reverse str)
      (length-swap_str (length str) str 0 (length str) ∙ sym (length-reverse str))
      (λ q. ground (
        arith,
        get_or-swap_str (length str) str 0 (length str) q (omega arith) (omega arith),
        get_or-reverse str q,
        get_or_outside str q,
      ))

-- swap_str() of all but the first character.
pub swap_str_behind :
    (c : ℕ) (str : List ℕ)
    → swap_str (length (c ∷ str)) (c ∷ str) 1 (length (c ∷ str)) ≡ c ∷ reverse str
unfolding turned
swap_str_behind c str =
    let n = length (c ∷ str) in
    list_ext (swap_str n (c ∷ str) 1 n) (c ∷ reverse str)
      (length-swap_str n (c ∷ str) 1 n ∙ sym (ap suc (length-reverse str)))
      (λ q. get_or-swap_str n (c ∷ str) 1 n q (omega arith) (omega arith) ∙ behind q)
  where
    behind : (q : ℕ) → turned (c ∷ str) 1 (length (c ∷ str)) q ≡ get_or (c ∷ reverse str) q 0
    behind zero = ground arith
    behind (suc q) = ground (
      arith,
      get_or-reverse str q,
      get_or_outside str q,
      ap (λ p. get_or (c ∷ str) p 0) {x = 1 + suc (length str) - 1 - suc q}
          {y = suc (length str - 1 - q)},
    )
