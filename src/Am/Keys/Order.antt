-- ===== src/Am/Keys/Order.antt =====
-- The keys that the program reads are those of the events, in order.
use cpu_linux.Prelude.{
  ℕ, zero, suc, ◌+◌, ◌<◌, ◌≡◌, refl, sym, ap, subst, ◌∙◌, Bool, true, false, List, [], ◌∷◌, ◌++◌,
  length, length-append, append_assoc, append-nil, arith, Outcome, ok, ◌>>=◌,
}
use cpu_linux.Am.Keys.{
  KeyQueue, key_queue_len, push_key, am_input_keybrd, am_code, keybrd_of, Keybrd, keydown_mask,
  on_event, sdl_key,
}
use cpu_linux.Am.Keys.Queue.{IsQueue, push_key-IsQueue, pop_key-IsQueue}

-- Events with keys, going down or up.
abbrev pub Presses : Type 0
Presses = List (Bool × ℕ)

-- The rounds of event_thread() for them, and `n` calls of __am_input_keybrd().
pub run_events : (ℕ → ℕ) → Presses → KeyQueue → Outcome KeyQueue
run_events keymap [] q = ok q
run_events keymap (p ∷ ps) q = on_event keymap (sdl_key p.0 p.1) q >>= run_events keymap ps

pub read_keys : ℕ → KeyQueue → List Keybrd × KeyQueue
read_keys zero q = ([], q)
read_keys (suc n) q =
    let (k, q') = am_input_keybrd q in let (ks, q'') = read_keys n q' in (k ∷ ks, q'')

-- The keys are known to `keymap`, with codes below the mask.
abbrev pub AreKnown : (ℕ → ℕ) → Presses → Type 0
AreKnown keymap [] = Unit
AreKnown keymap (p ∷ ps) = (0 < keymap p.1) × (keymap p.1 < keydown_mask) × AreKnown keymap ps

abbrev pub codes_of : (ℕ → ℕ) → Presses → List ℕ
codes_of keymap [] = []
codes_of keymap (p ∷ ps) = am_code p.0 (keymap p.1) ∷ codes_of keymap ps

abbrev pub keybrds_of : (ℕ → ℕ) → Presses → List Keybrd
keybrds_of keymap [] = []
keybrds_of keymap (p ∷ ps) = record { keydown = p.0; keycode = keymap p.1 } ∷ keybrds_of keymap ps

keybrd_of-am_code :
    (d : Bool) (k : ℕ)
    → k < keydown_mask
    → keybrd_of (am_code d k) ≡ record { keydown = d; keycode = k }
keybrd_of-am_code true k h = ground arith
keybrd_of-am_code false k h = ground arith

module _ (keymap : ℕ → ℕ) where
  run_events-IsQueue :
      (ps : Presses) (q : KeyQueue) (keys : List ℕ)
      → AreKnown keymap ps
      → IsQueue q keys
      → length keys + length ps < key_queue_len
      → (q' : KeyQueue) × (run_events keymap ps q ≡ ok q') × IsQueue q' (keys ++ codes_of keymap ps)
  unfolding run_events on_event
  run_events-IsQueue [] q keys w h k = (q, refl, subst (IsQueue q) (sym (append-nil keys)) h)
  run_events-IsQueue (p ∷ ps) q keys w h k =
      let code = am_code p.0 (keymap p.1) in
      let size = length-append keys (code ∷ []) in
      let (q', e, i) =
        run_events-IsQueue ps (push_key code q) (keys ++ code ∷ []) w.2
          (push_key-IsQueue q keys code h (omega arith)) (omega (arith, size)) in
      (
        q',
        ground (arith, w.0, e),
        subst (IsQueue q') (append_assoc keys (code ∷ []) (codes_of keymap ps)) i,
      )

  read_keys-IsQueue :
      (ps : Presses) (q : KeyQueue)
      → AreKnown keymap ps
      → IsQueue q (codes_of keymap ps)
      → (q' : KeyQueue) × (read_keys (length ps) q ≡ (keybrds_of keymap ps, q')) × IsQueue q' []
  unfolding read_keys am_input_keybrd
  read_keys-IsQueue [] q w h = (q, refl, h)
  read_keys-IsQueue (p ∷ ps) q w h =
      let (q₁, e, i) = pop_key-IsQueue q (am_code p.0 (keymap p.1)) (codes_of keymap ps) h in
      let (q₂, f, j) = read_keys-IsQueue ps q₁ w.2 i in
      (
        q₂,
        ap
              (λ (x : ℕ × KeyQueue).
                (keybrd_of x.0 ∷ (read_keys (length ps) x.1).0, (read_keys (length ps) x.1).1))
              e
            ∙ ap (λ (y : List Keybrd × KeyQueue). (keybrd_of (am_code p.0 (keymap p.1)) ∷ y.0, y.1))
                f
            ∙ ap (λ k. (k ∷ keybrds_of keymap ps, q₂)) (keybrd_of-am_code p.0 (keymap p.1) w.1),
        j,
      )

-- Fewer than 1024 events with known keys, on an empty ring, are read in order by as many calls of
-- __am_input_keybrd(), each with the key of its event and whether it went down; then the ring is empty.
pub read_keys-run_events :
    (keymap : ℕ → ℕ) (ps : Presses) (q : KeyQueue)
    → IsQueue q []
    → AreKnown keymap ps
    → length ps < key_queue_len
    → (q₁ : KeyQueue) × (q₂ : KeyQueue) × (run_events keymap ps q ≡ ok q₁)
      × (read_keys (length ps) q₁ ≡ (keybrds_of keymap ps, q₂))
      × IsQueue q₂ []
read_keys-run_events keymap ps q h w k =
    let (q₁, e, i) = run_events-IsQueue keymap ps q [] w h (omega arith) in
    let (q₂, f, j) = read_keys-IsQueue keymap ps q₁ w i in (q₁, q₂, e, f, j)
