-- ===== src/Am/Keys.antt =====
-- Keyboards: input_keybrd() of abstract-machine/am/src/x86/qemu/ioe.c, and the queue of native/ioe/input.c.
-- Keys are numbered as AM_KEYS of am/include/amdev.h numbers them. SDL's events and key codes are
-- parameters; a lock lets one of the two threads at a time use the queue.
pub mod Queue
pub mod Codes
pub mod Order
mod Tests
use cpu_linux.Prelude.{
  ℕ, ◌+◌, ◌-◌, ◌*◌, ◌/◌, ◌%◌, Bool, false, List, [], ◌∷◌, ltb, ◌==◌, if◌then◌else◌, exited, Outcome,
  ok, stop,
}

abbrev pub key_none : ℕ
key_none = 0

-- AM_KEY_LALT and AM_KEY_RALT.
abbrev pub key_lalt : ℕ
key_lalt = 69

abbrev pub key_ralt : ℕ
key_ralt = 71

-- AM_INPUT_KEYBRD_T.
pub record Keybrd : Type 0 where
  pub keydown : Bool
  pub keycode : ℕ

-- The initialisers of `keylut`, in order.
abbrev pub key_rows : List (ℕ × ℕ)
key_rows =
    (0x01, 1)
    ∷ (0x02, 15)
    ∷ (0x03, 16)
    ∷ (0x04, 17)
    ∷ (0x05, 18)
    ∷ (0x06, 19)
    ∷ (0x07, 20)
    ∷ (0x08, 21)
    ∷ (0x09, 22)
    ∷ (0x0a, 23)
    ∷ (0x0b, 24)
    ∷ (0x0c, 25)
    ∷ (0x0d, 26)
    ∷ (0x0e, 27)
    ∷ (0x0f, 28)
    ∷ (0x10, 29)
    ∷ (0x11, 30)
    ∷ (0x12, 31)
    ∷ (0x13, 32)
    ∷ (0x14, 33)
    ∷ (0x15, 34)
    ∷ (0x16, 35)
    ∷ (0x17, 36)
    ∷ (0x18, 37)
    ∷ (0x19, 38)
    ∷ (0x1a, 39)
    ∷ (0x1b, 40)
    ∷ (0x1c, 54)
    ∷ (0x1d, 67)
    ∷ (0x1e, 43)
    ∷ (0x1f, 44)
    ∷ (0x20, 45)
    ∷ (0x21, 46)
    ∷ (0x22, 47)
    ∷ (0x23, 48)
    ∷ (0x24, 49)
    ∷ (0x25, 50)
    ∷ (0x26, 51)
    ∷ (0x27, 52)
    ∷ (0x28, 53)
    ∷ (0x29, 14)
    ∷ (0x2a, 55)
    ∷ (0x2b, 41)
    ∷ (0x2c, 56)
    ∷ (0x2d, 57)
    ∷ (0x2e, 58)
    ∷ (0x2f, 59)
    ∷ (0x30, 60)
    ∷ (0x31, 61)
    ∷ (0x32, 62)
    ∷ (0x33, 63)
    ∷ (0x34, 64)
    ∷ (0x35, 65)
    ∷ (0x36, 66)
    ∷ (0x38, 69)
    ∷ (0x38, 71)
    ∷ (0x39, 70)
    ∷ (0x3a, 42)
    ∷ (0x3b, 2)
    ∷ (0x3c, 3)
    ∷ (0x3d, 4)
    ∷ (0x3e, 5)
    ∷ (0x3f, 6)
    ∷ (0x40, 7)
    ∷ (0x41, 8)
    ∷ (0x42, 9)
    ∷ (0x43, 10)
    ∷ (0x44, 11)
    ∷ (0x48, 77)
    ∷ (0x4b, 79)
    ∷ (0x4d, 80)
    ∷ (0x50, 78)
    ∷ (0x57, 12)
    ∷ (0x58, 13)
    ∷ (0x5b, 68)
    ∷ []

-- An element without an initialiser is 0, and the last one of several counts.
abbrev pub last_row : List (ℕ × ℕ) → ℕ → ℕ → ℕ
last_row [] code found = found
last_row (row ∷ rows) code found = last_row rows code (if row.0 == code then row.1 else found)

unfoldable pub keylut : ℕ → ℕ
keylut code = last_row key_rows code 0

-- input_keybrd(), where the ports 0x64 and 0x60 give `status` and `value`.
unfoldable pub input_keybrd : ℕ → ℕ → Keybrd
input_keybrd status value =
    if status % 2 == 1
    then record { keydown = ltb (value % 256) 128; keycode = keylut (value % 256 % 128) }
    else record { keydown = false; keycode = key_none }

abbrev pub key_queue_len : ℕ
key_queue_len = 1024

abbrev pub keydown_mask : ℕ
keydown_mask = 0x8000

-- key_queue, key_f and key_r; `intrs` counts the calls of __am_send_kbd_intr().
pub record KeyQueue : Type 0 where
  pub key_queue : ℕ → ℕ
  pub key_f : ℕ
  pub key_r : ℕ
  pub intrs : ℕ

-- The events that event_thread() waits for.
pub data SdlEvent : Type 0 where
  sdl_quit other : SdlEvent
  sdl_key : Bool → ℕ → SdlEvent

-- The code of a key is below the mask.
abbrev pub am_code : Bool → ℕ → ℕ
am_code keydown key = key + (if keydown then keydown_mask else 0)

unfoldable pub push_key : ℕ → KeyQueue → KeyQueue
push_key code q = record q {
  key_queue = λ i. if i == q.key_r then code else q.key_queue i;
  key_r = (q.key_r + 1) % key_queue_len;
  intrs = q.intrs + 1;
}

-- A round of event_thread(), with `keymap`.
unfoldable pub on_event : (ℕ → ℕ) → SdlEvent → KeyQueue → Outcome KeyQueue
on_event keymap sdl_quit q = stop exited
on_event keymap other q = ok q
on_event keymap (sdl_key keydown scancode) q =
    ok (if keymap scancode == 0 then q else push_key (am_code keydown (keymap scancode)) q)

-- The code that __am_input_keybrd() takes from the queue.
unfoldable pub pop_key : KeyQueue → ℕ × KeyQueue
pop_key q =
    if q.key_f == q.key_r
    then (key_none, q)
    else (q.key_queue q.key_f, record q { key_f = (q.key_f + 1) % key_queue_len })

abbrev pub keybrd_of : ℕ → Keybrd
keybrd_of k = record {
  keydown = k / keydown_mask % 2 == 1;
  keycode = k - k / keydown_mask % 2 * keydown_mask;
}

unfoldable pub am_input_keybrd : KeyQueue → Keybrd × KeyQueue
unfolding pop_key
am_input_keybrd q = let (k, q') = pop_key q in (keybrd_of k, q')
