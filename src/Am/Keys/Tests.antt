-- ===== src/Am/Keys/Tests.antt =====
-- Keys at concrete inputs.
use cpu_linux.Prelude.{ℕ, ◌+◌, ◌≡◌, refl, true, false, [], ◌∷◌, arith, ok}
use cpu_linux.Am.Keys.{KeyQueue, key_ralt, keylut, input_keybrd}
use cpu_linux.Am.Keys.Queue.{IsQueue}
use cpu_linux.Am.Keys.Order.{Presses, run_events, read_keys, read_keys-run_events}

-- The scan code of the left Alt key.
alt_run : input_keybrd 1 0x38 ≡ record { keydown = true; keycode = key_ralt }
unfolding input_keybrd keylut
alt_run = refl

-- An empty ring, and one with 1023 keys.
abbrev ring : ℕ → KeyQueue
ring r = record { key_queue = λ i. 0; key_f = 0; key_r = r; intrs = 0 }

abbrev presses : Presses
presses = (true, 4) ∷ (false, 4) ∷ (true, 7) ∷ []

ring-IsQueue : IsQueue (ring 0) []
ring-IsQueue = record {
  front = ground arith;
  room = ground arith;
  rear = refl;
  held = λ i h. absurd (omega arith);
}

read_keys-run_events_example :
    (q₁ : KeyQueue) × (q₂ : KeyQueue) × (run_events (λ s. s + 10) presses (ring 0) ≡ ok q₁)
    × (read_keys 3 q₁ ≡ (
      record { keydown = true; keycode = 14 }
          ∷ record { keydown = false; keycode = 14 }
          ∷ record { keydown = true; keycode = 17 }
          ∷ [],
      q₂,
    ))
    × IsQueue q₂ []
read_keys-run_events_example =
    read_keys-run_events (λ s. s + 10) presses (ring 0) ring-IsQueue
      (ground arith, ground arith, (ground arith, ground arith, (ground arith, ground arith, tt)))
      (ground arith)
