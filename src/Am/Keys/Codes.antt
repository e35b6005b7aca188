-- ===== src/Am/Keys/Codes.antt =====
-- The codes of the keyboard's controller.
use cpu_linux.Prelude.{
  ℕ, zero, suc, ◌+◌, ◌%◌, ◌<◌, ◌≡◌, ◌≢◌, refl, Bool, true, false, not, ◌&&◌, ◌==◌, arith,
}
use cpu_linux.Am.Keys.{keylut, input_keybrd, key_lalt}

-- A test at every number below `n`.
below : (ℕ → Bool) → ℕ → Bool
below p zero = true
below p (suc n) = p n && below p n

below-all : (p : ℕ → Bool) (n i : ℕ) → below p n ≡ true → i < n → p i ≡ true
unfolding below
below-all p zero i h k = absurd (omega arith)
below-all p (suc n) i h k = ground (arith, below-all p n i)

no_lalt : below (λ c. not (keylut c == key_lalt)) 128 ≡ true
unfolding below keylut
no_lalt = refl

-- No answer of the keyboard's controller gives the key AM_KEY_LALT, though `keylut` has an initialiser for it.
pub input_keybrd_lalt : (status value : ℕ) → (input_keybrd status value).keycode ≢ key_lalt
unfolding input_keybrd
input_keybrd_lalt status value =
    ground (arith, below-all (λ c. not (keylut c == key_lalt)) 128 (value % 256 % 128) no_lalt)

-- A key has the same code when it goes up, with bit 7 set, as when it goes down, and is reported so.
pub input_keybrd_up :
    (status code : ℕ)
    → status % 2 ≡ 1
    → code < 128
    → (input_keybrd status code ≡ record { keydown = true; keycode = keylut code })
      × (input_keybrd status (code + 128) ≡ record { keydown = false; keycode = keylut code })
unfolding input_keybrd
input_keybrd_up status code h k =
    let low : code % 256 % 128 ≡ code = omega arith in
    let high : (code + 128) % 256 % 128 ≡ code = omega arith in
    (rw low (ground arith), rw high (ground arith))
