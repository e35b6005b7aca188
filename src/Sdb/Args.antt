-- ===== src/Sdb/Args.antt =====
-- The numbers that commands are given, and the words that cmd_x() shows.
use cpu_linux.Prelude.{
  ℕ, zero, suc, ◌+◌, ◌-◌, ◌*◌, ◌%◌, ◌^◌, ◌≤◌, ◌<◌, ◌≡◌, refl, ap, Bool, true, ◌&&◌, ◌||◌, some,
  List, [], ◌∷◌, arith, ltb, leb, ◌==◌, if◌then◌else◌, assertion, undefined, ok, stop,
}
use cpu_linux.Memory.{Pmem, mbase, msize, host_read, guest_to_host, pmem_read}
use cpu_linux.Expr.Eval.{hex_char_to_num}
use cpu_linux.Expr.Grammar.{number}
use cpu_linux.Sdb.{Print, word_at, message, digits_value, arg2val, memory_words, get_memory_val}

abbrev pub all_digits : List ℕ → Bool
all_digits [] = true
all_digits (ch ∷ s) = leb b'0' ch && leb ch b'9' && all_digits s

digits_value_lem :
    (s : List ℕ) (v : ℕ)
    → digits_value (v % 2 ^ 32) s
      ≡ (if all_digits s then ok (number 10 v s % 2 ^ 32) else stop assertion)
unfolding digits_value number hex_char_to_num
digits_value_lem [] v = refl
digits_value_lem (ch ∷ s) v =
    let e : (v % 2 ^ 32 * 10 + (ch - b'0')) % 2 ^ 32 ≡ (v * 10 + (ch - b'0')) % 2 ^ 32 =
      ground arith in
    ground (arith, digits_value_lem s (v * 10 + (ch - b'0')), ap (λ k. digits_value k s) e)

-- arg2val() of a text gives its number modulo 2^32 if it has digits only, and otherwise
-- the assertion fails.
pub arg2val_lem :
    (s : List ℕ)
    → arg2val (some s) ≡ (if all_digits s then ok (number 10 0 s % 2 ^ 32) else stop assertion)
unfolding arg2val
arg2val_lem s = digits_value_lem s 0

-- `n` words of the memory from an address on, with their addresses.
unfoldable pub words : Pmem → ℕ → ℕ → List Print
words m a zero = []
words m a (suc n) = word_at a (host_read m (a - mbase) 4) ∷ words m (a + 4) n

memory_words_lem :
    (n a : ℕ) (m : Pmem)
    → mbase ≤ a
    → a < 2 ^ 32 - 4
    → memory_words m a n
      ≡ (if (n == 0) || leb (a + 4 * n) (mbase + msize) then ok (words m a n) else stop undefined)
unfolding memory_words words pmem_read guest_to_host
memory_words_lem zero a m h k = refl
memory_words_lem (suc n) a m h k = ground (arith, memory_words_lem n ((a + 4) % 2 ^ 32) m)

-- get_memory_val() shows the words of the memory from the address on, as many as asked for, if they
-- all lie in the memory. If they begin in it and reach beyond it, the array is left; and if the
-- length is 0 or at least 2^31 or the address is outside, there is only a message.
pub get_memory_val_lem :
    (m : Pmem) (a n : ℕ)
    → get_memory_val m a n ≡ (
        if leb 1 n && ltb n (2 ^ 31) && leb mbase a && ltb a (mbase + msize)
        then (if leb (a + 4 * n) (mbase + msize) then ok (words m a n) else stop undefined)
        else ok (message ∷ []))
unfolding get_memory_val
get_memory_val_lem m a n = ground (arith, memory_words_lem n a m)
