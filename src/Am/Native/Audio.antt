-- ===== src/Am/Native/Audio.antt =====
-- abstract-machine/am/src/native/ioe/audio.c: samples go through a pipe of the host, from __am_audio_play() to the callback
-- audio_play() of SDL. How many bytes a write takes and a read gives is a parameter. The callback
-- runs between the calls: that SDL's thread shares `count` with the program's without a lock is left out.
pub mod Samples
mod Tests
use cpu_linux.Prelude.{
  ℕ, zero, suc, ◌+◌, ◌-◌, true, false, List, [], ◌∷◌, ◌++◌, ltb, if◌then◌else◌, length, take, drop,
  out_of_fuel, Outcome, ok, stop, ◌>>=◌,
}

-- The number of bytes that write(), of a length, adds to a pipe with a content, and that read() takes from it; one
-- that fails with -1 counts as 0.
pub record Pipe : Type 0 where
  pub written : List ℕ → ℕ → ℕ
  pub given : List ℕ → ℕ → ℕ

-- The bytes in the pipe, and `count`.
pub record Audio : Type 0 where
  pub pipe : List ℕ
  pub count : ℕ

abbrev pub write_bytes : ℕ → List ℕ → Audio → Audio
write_bytes n buf a = record a { pipe = a.pipe ++ take n buf; count = a.count + n }

-- The loop of audio_write(), with fuel: `buf` and its length stay the same from round to round.
unfoldable pub audio_write : Pipe → ℕ → (nwrite : ℕ) → List ℕ → Audio → Outcome Audio
audio_write io zero nwrite buf a = stop out_of_fuel
audio_write io (suc fuel) nwrite buf a = elim (ltb nwrite (length buf)) [
  | false ↦ ok a
  | true ↦
      let n = io.written a.pipe (length buf) in
      audio_write io fuel (nwrite + n) buf (write_bytes n buf a)
]

-- __am_audio_play(ctl).
unfoldable pub am_audio_play : Pipe → ℕ → List ℕ → Audio → Outcome Audio
unfolding audio_write
am_audio_play io fuel buf a = audio_write io fuel 0 buf a

-- read() puts its bytes at the start of `stream`, whatever was put there before.
abbrev pub overwrite : List ℕ → List ℕ → List ℕ
overwrite new stream = new ++ drop (length new) stream

-- The loop of audio_play(), with fuel and `b` bytes read.
unfoldable pub read_loop : Pipe → ℕ → (b nread : ℕ) → List ℕ → List ℕ → Outcome (List ℕ × List ℕ)
read_loop io zero b nread stream pipe = stop out_of_fuel
read_loop io (suc fuel) b nread stream pipe = elim (ltb b nread) [
  | false ↦ ok (stream, pipe)
  | true ↦
      let n = io.given pipe nread in
      read_loop io fuel (b + n) nread (overwrite (take n pipe) stream) (drop n pipe)
]

abbrev pub silence : ℕ → List ℕ
silence zero = []
silence (suc n) = 0 ∷ silence n

-- audio_play(userdata, stream, len), where `stream` has `len` bytes; the rest behind those read is cleared.
unfoldable pub audio_play : Pipe → ℕ → List ℕ → Audio → Outcome (List ℕ × Audio)
unfolding read_loop
audio_play io fuel stream a =
    let nread = if ltb a.count (length stream) then a.count else length stream in
    read_loop io fuel 0 nread stream a.pipe >>= λ x. ok (
      take nread x.0 ++ silence (length stream - nread),
      record { pipe = x.1; count = a.count - nread },
    )
