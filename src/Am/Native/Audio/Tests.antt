-- ===== src/Am/Native/Audio/Tests.antt =====
-- A pipe with room for five bytes, and one that takes two bytes at a time.
use cpu_linux.Prelude.{
  ℕ, ◌+◌, ◌-◌, ◌≡◌, refl, List, [], ◌∷◌, ◌++◌, ltb, leb, out_of_fuel, stop, if◌then◌else◌, length,
  take, drop, arith, ok,
}
use cpu_linux.Am.Native.Audio.{
  Pipe, Audio, audio_write, am_audio_play, audio_play, read_loop, silence,
}
use cpu_linux.Am.Native.Audio.Samples.{playable, queued, audio_play-am_audio_play}

abbrev five : Pipe
five = record {
  written = λ pipe n. if leb n (5 - length pipe) then n else 5 - length pipe;
  given = λ pipe n. if ltb (length pipe) n then length pipe else n;
}

abbrev waiting : Audio
waiting = record { pipe = 1 ∷ 2 ∷ []; count = 2 }

abbrev samples : List ℕ
samples = 3 ∷ 4 ∷ 5 ∷ []

abbrev stream : List ℕ
stream = 9 ∷ 9 ∷ 9 ∷ 9 ∷ 9 ∷ 9 ∷ 9 ∷ []

audio_play-am_audio_play_example :
    (am_audio_play five 2 samples waiting ≡ (
      if leb (length waiting.pipe + length samples) 5
      then ok (queued samples waiting)
      else stop out_of_fuel))
    × (audio_play five 2 stream (queued samples waiting)
        ≡ ok (
          take (playable (waiting.pipe ++ samples) (length stream)) (waiting.pipe ++ samples)
              ++ silence (length stream - playable (waiting.pipe ++ samples) (length stream)),
          record {
            pipe =
                drop (playable (waiting.pipe ++ samples) (length stream)) (waiting.pipe ++ samples);
            count =
                length (waiting.pipe ++ samples)
                - playable (waiting.pipe ++ samples) (length stream);
          },
        ))
audio_play-am_audio_play_example =
    audio_play-am_audio_play five 5 (λ pipe n h. ground arith) (λ pipe n h. ground arith)
      (λ pipe n h. ground arith) 2 samples stream waiting (omega arith) refl (omega arith)

played :
    audio_play five 2 stream (queued samples waiting)
    ≡ ok (1 ∷ 2 ∷ 3 ∷ 4 ∷ 5 ∷ 0 ∷ 0 ∷ [], record { pipe = []; count = 0 })
unfolding audio_play read_loop
played = refl

abbrev narrow : Pipe
narrow = record { written = λ pipe n. if ltb 2 n then 2 else n; given = λ pipe n. n }

-- The first two samples are written twice.
written_twice :
    am_audio_play narrow 3 samples (record { pipe = []; count = 0 })
    ≡ ok (record { pipe = 3 ∷ 4 ∷ 3 ∷ 4 ∷ []; count = 4 })
unfolding am_audio_play audio_write
written_twice = refl
