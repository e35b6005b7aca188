-- ===== src/Am/Keys/Queue.antt =====
-- The ring of keys as a queue.
use cpu_linux.Prelude.{
  ℕ, zero, suc, ◌+◌, ◌%◌, ◌<◌, ◌≡◌, refl, ap, ◌∙◌, List, [], ◌∷◌, ◌++◌, ◌==◌, if◌then◌else◌, length,
  length-append, get_or, arith,
}
use cpu_linux.Am.Keys.{KeyQueue, key_queue_len, push_key, pop_key}

-- The keys in the ring, the oldest one first.
pub record IsQueue (q : KeyQueue) (keys : List ℕ) : Type 0 where
  pub front : q.key_f < key_queue_len
  pub room : length keys < key_queue_len
  pub rear : q.key_r ≡ (q.key_f + length keys) % key_queue_len
  pub held :
      (i : ℕ) → i < length keys → q.key_queue ((q.key_f + i) % key_queue_len) ≡ get_or keys i 0

get_or-last :
    (keys : List ℕ) (code i : ℕ)
    → i < length keys + 1
    → get_or (keys ++ code ∷ []) i 0 ≡ (if i == length keys then code else get_or keys i 0)
get_or-last [] code zero h = refl
get_or-last [] code (suc i) h = absurd (omega arith)
get_or-last (key ∷ keys) code zero h = ground arith
get_or-last (key ∷ keys) code (suc i) h = get_or-last keys code i (omega arith) ∙ ground arith

-- Two of fewer than 1024 slots from one on are the same only if they are as far.
same_slot :
    (f i j : ℕ)
    → f < key_queue_len
    → i < key_queue_len
    → j < key_queue_len
    → ((f + i) % key_queue_len == (f + j) % key_queue_len) ≡ (i == j)
same_slot f i j h k l = ground arith

pub push_key-IsQueue :
    (q : KeyQueue) (keys : List ℕ) (code : ℕ)
    → IsQueue q keys
    → length keys + 1 < key_queue_len
    → IsQueue (push_key code q) (keys ++ code ∷ [])
unfolding push_key
push_key-IsQueue q keys code h k =
    let size : length (keys ++ code ∷ []) ≡ length keys + 1 = length-append keys (code ∷ []) in
    record {
      front = h.front;
      room = omega (arith, size);
      rear = ground (arith, size, h.rear);
      held = λ i l. ground (
        arith,
        size,
        h.rear,
        h.front,
        h.room,
        h.held i,
        get_or-last keys code i,
        same_slot q.key_f i (length keys),
      );
    }

-- A key that comes when 1023 keys wait leaves a ring that counts as empty: all of them are lost.
pub push_key_full :
    (q : KeyQueue) (keys : List ℕ) (code : ℕ)
    → IsQueue q keys
    → length keys + 1 ≡ key_queue_len
    → IsQueue (push_key code q) []
unfolding push_key
push_key_full q keys code h k = record {
  front = h.front;
  room = omega arith;
  rear = ground (arith, h.rear, h.front);
  held = λ i l. absurd (omega arith);
}

pub pop_key-IsQueue :
    (q : KeyQueue) (key : ℕ) (keys : List ℕ)
    → IsQueue q (key ∷ keys)
    → (q' : KeyQueue) × (pop_key q ≡ (key, q')) × IsQueue q' keys
unfolding pop_key
pop_key-IsQueue q key keys h =
    let first : q.key_queue q.key_f ≡ key =
      ap q.key_queue {y = (q.key_f + 0) % key_queue_len} (ground (arith, h.front))
      ∙ h.held 0 (omega arith) in
    (
      record q { key_f = (q.key_f + 1) % key_queue_len },
      ground (arith, first, h.rear, h.front, h.room),
      record {
        front = omega arith;
        room = ground (arith, h.room);
        rear = h.rear ∙ ground (arith, h.front);
        held = λ i l.
            ap q.key_queue {y = (q.key_f + suc i) % key_queue_len} (omega arith)
            ∙ h.held (suc i) (omega arith);
      },
    )
