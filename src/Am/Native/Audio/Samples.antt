-- ===== src/Am/Native/Audio/Samples.antt =====
-- Which samples are played.
use cpu_linux.Prelude.{
  ℕ, zero, suc, ◌+◌, ◌-◌, ◌≤◌, ◌≡◌, refl, sym, ap, ap₂, ◌∙◌, List, [], ◌∷◌, ◌++◌, append-nil, ltb,
  leb, ◌<◌, out_of_fuel, stop, Bool-cases, inl, inr, true, false, if◌then◌else◌, length,
  length-append, take, drop, arith, Outcome, ok,
}
use cpu_linux.Am.Native.Audio.{
  Pipe, Audio, write_bytes, audio_write, am_audio_play, overwrite, read_loop, silence, audio_play,
}

pub take-length : (xs : List ℕ) → take (length xs) xs ≡ xs
take-length [] = refl
take-length (x ∷ xs) = ap (◌∷◌ x) (take-length xs)

pub take-append : (n : ℕ) (xs ys : List ℕ) → n ≤ length xs → take n (xs ++ ys) ≡ take n xs
take-append zero xs ys h = refl
take-append (suc n) [] ys h = absurd (omega arith)
take-append (suc n) (x ∷ xs) ys h = ap (◌∷◌ x) (take-append n xs ys (omega arith))

length-take : (n : ℕ) (xs : List ℕ) → n ≤ length xs → length (take n xs) ≡ n
length-take zero xs h = refl
length-take (suc n) [] h = absurd (omega arith)
length-take (suc n) (x ∷ xs) h = ap suc (length-take n xs (omega arith))

take-take : (n : ℕ) (xs ys : List ℕ) → n ≤ length xs → take n (take n xs ++ ys) ≡ take n xs
take-take zero xs ys h = refl
take-take (suc n) [] ys h = absurd (omega arith)
take-take (suc n) (x ∷ xs) ys h = ap (◌∷◌ x) (take-take n xs ys (omega arith))

module _ (io : Pipe) where
  write_step :
      (fuel nwrite : ℕ) (buf : List ℕ) (a : Audio)
      → ltb nwrite (length buf) ≡ true
      → audio_write io (suc fuel) nwrite buf a
        ≡ audio_write io fuel
            (nwrite + io.written a.pipe (length buf))
            buf
            (write_bytes (io.written a.pipe (length buf)) buf a)
  unfolding audio_write
  write_step fuel nwrite buf a h = rw (h, audio_write) refl

  write_done :
      (fuel nwrite : ℕ) (buf : List ℕ) (a : Audio)
      → ltb nwrite (length buf) ≡ false
      → audio_write io (suc fuel) nwrite buf a ≡ ok a
  unfolding audio_write
  write_done fuel nwrite buf a h = rw (h, audio_write) refl

  read_step :
      (fuel b nread : ℕ) (stream pipe : List ℕ)
      → ltb b nread ≡ true
      → read_loop io (suc fuel) b nread stream pipe
        ≡ read_loop io fuel
            (b + io.given pipe nread)
            nread
            (overwrite (take (io.given pipe nread) pipe) stream)
            (drop (io.given pipe nread) pipe)
  unfolding read_loop
  read_step fuel b nread stream pipe h = rw (h, read_loop) refl

  read_done :
      (fuel b nread : ℕ) (stream pipe : List ℕ)
      → ltb b nread ≡ false
      → read_loop io (suc fuel) b nread stream pipe ≡ ok (stream, pipe)
  unfolding read_loop
  read_done fuel b nread stream pipe h = rw (h, read_loop) refl

  -- One write takes all.
  write_whole :
      (fuel : ℕ) (buf : List ℕ) (a : Audio)
      → io.written a.pipe (length buf) ≡ length buf
      → audio_write io (suc (suc fuel)) 0 buf a
        ≡ ok (record { pipe = a.pipe ++ buf; count = a.count + length buf })
  write_whole fuel [] a whole =
      write_done (suc fuel) 0 [] a refl
      ∙ ap₂ (λ p c. ok (record { pipe = p; count = c })) (sym (append-nil a.pipe)) (omega arith)
  write_whole fuel (x ∷ xs) a whole =
      let buf = x ∷ xs in
      let n = io.written a.pipe (length buf) in
      write_step (suc fuel) 0 buf a (ground arith)
      ∙ write_done fuel (0 + n) buf (write_bytes n buf a) (ground (arith, whole))
      ∙ ap₂ (λ p c. ok (record { pipe = a.pipe ++ p; count = a.count + c }))
          (ap (λ m. take m buf) whole ∙ take-length buf) whole

  -- The pipe gets full before the writes have added up to the length.
  write_full :
      (cap : ℕ)
      → ((pipe : List ℕ) (n : ℕ) → length pipe ≤ cap → length pipe + io.written pipe n ≤ cap)
      → (fuel nwrite : ℕ) (buf : List ℕ) (a : Audio) → length a.pipe ≤ cap
      → nwrite + (cap - length a.pipe) < length buf
      → audio_write io fuel nwrite buf a ≡ stop out_of_fuel
  unfolding audio_write
  write_full cap room zero nwrite buf a le lt = refl
  write_full cap room (suc fuel) nwrite buf a le lt =
      let n = io.written a.pipe (length buf) in
      let below = room a.pipe (length buf) le in
      let longer : length (a.pipe ++ take n buf) ≡ length a.pipe + n =
        omega (arith, length-append a.pipe (take n buf), length-take n buf (omega arith)) in
      write_step fuel nwrite buf a (ground arith)
      ∙ write_full cap room fuel (nwrite + n) buf (write_bytes n buf a) (omega arith) (omega arith)

  read_all :
      ((pipe : List ℕ) (n : ℕ) → n ≤ length pipe → io.given pipe n ≡ n)
      → (fuel k : ℕ) (stream pipe : List ℕ) → k ≤ length pipe
      → (stream' : List ℕ) × (read_loop io (suc (suc fuel)) 0 k stream pipe
          ≡ ok (stream', drop k pipe))
        × (take k stream' ≡ take k pipe)
  read_all all fuel zero stream pipe h = (stream, read_done (suc fuel) 0 0 stream pipe refl, refl)
  read_all all fuel (suc k) stream pipe h =
      let n = io.given pipe (suc k) in
      let full : n ≡ suc k = all pipe (suc k) h in
      (
        overwrite (take n pipe) stream,
        read_step (suc fuel) 0 (suc k) stream pipe (ground arith)
            ∙ read_done fuel (0 + n) (suc k) (overwrite (take n pipe) stream) (drop n pipe)
                (ground (arith, full))
            ∙ ap {B = Outcome (List ℕ × List ℕ)}
                (λ m. ok (overwrite (take n pipe) stream, drop m pipe)) full,
        ap (λ m. take (suc k) (overwrite (take m pipe) stream)) full
            ∙ take-take (suc k) pipe (drop (length (take (suc k) pipe)) stream) h,
      )

-- The shorter of the samples that wait and those that are asked for.
abbrev pub playable : List ℕ → ℕ → ℕ
playable pipe len = if ltb (length pipe) len then length pipe else len

-- The state after the samples of `buf` are in the pipe.
abbrev pub queued : List ℕ → Audio → Audio
queued buf a = record { pipe = a.pipe ++ buf; count = length (a.pipe ++ buf) }

-- With a pipe that never holds more than `cap` bytes, takes a write as a whole if there is room for it, and gives a
-- read all that it asks for if that is there, where `count` is the number of bytes in the pipe and no callback runs
-- during __am_audio_play(): if the samples fit the pipe, behind those that wait, two rounds add them to it, and
-- otherwise the loop does not end. Once they are added, samples are played in the order in which they were
-- written, after those that waited, and each once. If there are fewer of them than the callback asks for, the rest
-- is silence.
pub audio_play-am_audio_play :
    (io : Pipe) (cap : ℕ)
    → ((pipe : List ℕ) (n : ℕ) → length pipe ≤ cap → length pipe + io.written pipe n ≤ cap)
    → ((pipe : List ℕ) (n : ℕ) → length pipe + n ≤ cap → io.written pipe n ≡ n)
    → ((pipe : List ℕ) (n : ℕ) → n ≤ length pipe → io.given pipe n ≡ n)
    → (fuel : ℕ) (buf stream : List ℕ) (a : Audio) → 2 ≤ fuel
    → a.count ≡ length a.pipe
    → length a.pipe ≤ cap
    → (am_audio_play io fuel buf a
        ≡ (if leb (length a.pipe + length buf) cap then ok (queued buf a) else stop out_of_fuel))
      × (audio_play io fuel stream (queued buf a)
          ≡ ok (
            take (playable (a.pipe ++ buf) (length stream)) (a.pipe ++ buf)
                ++ silence (length stream - playable (a.pipe ++ buf) (length stream)),
            record {
              pipe = drop (playable (a.pipe ++ buf) (length stream)) (a.pipe ++ buf);
              count = length (a.pipe ++ buf) - playable (a.pipe ++ buf) (length stream);
            },
          ))
unfolding am_audio_play audio_play
audio_play-am_audio_play io cap room whole all zero buf stream a h c le = absurd (omega arith)
audio_play-am_audio_play io cap room whole all (suc zero) buf stream a h c le = absurd (omega arith)
audio_play-am_audio_play io cap room whole all (suc (suc fuel)) buf stream a h c le =
    let pipe = a.pipe ++ buf in
    let k = playable pipe (length stream) in
    let (stream', e, t) = read_all io all fuel k stream pipe (ground arith) in
    (
      elim (Bool-cases (leb (length a.pipe + length buf) cap)) [
        | inl fits ↦ rw fits (
            write_whole io fuel buf a (whole a.pipe (length buf) (ground arith))
            ∙ ap (λ n. ok (record { pipe = pipe; count = n })) {x = a.count + length buf}
                {y = length pipe} (omega (arith, length-append a.pipe buf)))
        | inr full ↦ rw full (write_full io cap room (suc (suc fuel)) 0 buf a le (ground arith))
      ],
      rw e (
          ap {B = Outcome (List ℕ × Audio)}
            (λ xs. ok (
              xs ++ silence (length stream - k),
              record { pipe = drop k pipe; count = length pipe - k },
            ))
            t),
    )
