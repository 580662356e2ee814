-- ===== src/Frame/Loop.antt =====
-- The parsers' loop: enough fuel, and what more input behind a buffer changes.
use snake_multiplayer.Base.{
  ℕ, zero, suc, ◌+◌, ◌≤◌, ◌≡◌, refl, sym, ◌∙◌, List, [], ◌∷◌, ◌++◌, arith, length, take, drop,
  if◌then◌else◌, length-append, length-drop, take-append_le, drop-append_le, append_assoc,
  append-nil,
}
use snake_multiplayer.Protocol.Bytes.{bytes_word}
use snake_multiplayer.Frame.{Parsed, parse_loop, parse}

module _ (limit : ℕ) where
  -- Any fuel from the buffer's length on gives the same.
  pub parse_loop_fuel :
      (f g : ℕ) (frames : List (List ℕ)) (buffer : List ℕ)
      → length buffer ≤ f
      → length buffer ≤ g
      → parse_loop limit f frames buffer ≡ parse_loop limit g frames buffer
  unfolding parse_loop
  parse_loop_fuel zero zero frames buffer hf hg = refl
  parse_loop_fuel zero (suc g) frames buffer hf hg = ground arith
  parse_loop_fuel (suc f) zero frames buffer hf hg = ground arith
  parse_loop_fuel (suc f) (suc g) frames buffer hf hg =
      let len = bytes_word (take 4 buffer) in
      ground (
        arith,
        length-drop (4 + len) buffer,
        parse_loop_fuel f g (frames ++ (take len (drop 4 buffer) ∷ [])) (drop (4 + len) buffer),
      )

  -- The frames found before stay in front.
  pub parse_loop_frames :
      (f : ℕ) (frames : List (List ℕ)) (buffer : List ℕ)
      → parse_loop limit f frames buffer
        ≡ (let p = parse_loop limit f [] buffer in record p { frames = frames ++ p.frames })
  unfolding parse_loop
  parse_loop_frames zero frames buffer = ground (arith, append-nil frames)
  parse_loop_frames (suc f) frames buffer =
      let len = bytes_word (take 4 buffer) in
      let one = take len (drop 4 buffer) ∷ [] in
      let rest = drop (4 + len) buffer in
      ground (
        arith,
        append-nil frames,
        parse_loop_frames f (frames ++ one) rest,
        parse_loop_frames f one rest,
        append_assoc frames one (parse_loop limit f [] rest).frames,
      )

  -- What the loop makes of a buffer with more bytes at its end, by what it makes of the buffer.
  abbrev pub continued : ℕ → Parsed → List ℕ → Parsed
  continued f p more =
      if p.oversized
      then record p { buffer = p.buffer ++ more }
      else parse_loop limit f p.frames (p.buffer ++ more)

  pub parse_loop-append :
      (f g k : ℕ) (frames : List (List ℕ)) (buffer more : List ℕ)
      → length buffer ≤ f
      → length buffer + length more ≤ g
      → length buffer + length more ≤ k
      → parse_loop limit g frames (buffer ++ more)
        ≡ continued k (parse_loop limit f frames buffer) more
  unfolding parse_loop
  parse_loop-append zero g k frames buffer more hf hg hk =
      parse_loop_fuel g k frames (buffer ++ more) (omega (arith, length-append buffer more))
        (omega (arith, length-append buffer more))
  parse_loop-append (suc f) zero k frames buffer more hf hg hk =
      ground (arith, length-append buffer more, parse_loop_fuel zero k frames (buffer ++ more))
  parse_loop-append (suc f) (suc g) k frames buffer more hf hg hk =
      let len = bytes_word (take 4 buffer) in
      ground (
        arith,
        length-append buffer more,
        take-append_le 4 buffer more,
        drop-append_le 4 buffer more,
        take-append_le len (drop 4 buffer) more,
        drop-append_le (4 + len) buffer more,
        length-drop 4 buffer,
        length-drop (4 + len) buffer,
        parse_loop_fuel (suc g) k frames (buffer ++ more),
        parse_loop-append f g k (frames ++ (take len (drop 4 buffer) ∷ [])) (drop (4 + len) buffer)
            more,
      )

  -- The buffer never grows.
  pub length-parse_loop :
      (f : ℕ) (frames : List (List ℕ)) (buffer : List ℕ)
      → length (parse_loop limit f frames buffer).buffer ≤ length buffer
  unfolding parse_loop
  length-parse_loop zero frames buffer = omega arith
  length-parse_loop (suc f) frames buffer =
      let len = bytes_word (take 4 buffer) in
      ground (
        arith,
        length-drop (4 + len) buffer,
        length-parse_loop f (frames ++ (take len (drop 4 buffer) ∷ [])) (drop (4 + len) buffer),
      )

  -- Parsing two chunks at once is parsing them in turn, with the frames of both. If the first chunk
  -- ends in a length above the limit, the second only stays in the buffer.
  pub parse-append :
      (buffer a b : List ℕ)
      → parse limit buffer (a ++ b) ≡ (
          let p = parse limit buffer a in
          let q = parse limit p.buffer b in
          if p.oversized
          then record p { buffer = p.buffer ++ b }
          else record q { frames = p.frames ++ q.frames })
  unfolding parse
  parse-append buffer a b = rw (sym (append_assoc buffer a b)) (
      parse_loop-append (length known) (length (known ++ b)) (length (known ++ b)) [] known b
        (omega arith) (omega (arith, length-append known b)) (omega (arith, length-append known b))
      ∙ ground (
        arith,
        length-append known b,
        length-append p.buffer b,
        length-parse_loop (length known) [] known,
        parse_loop_fuel (length (known ++ b)) (length (p.buffer ++ b)) p.frames (p.buffer ++ b),
        parse_loop_frames (length (p.buffer ++ b)) p.frames (p.buffer ++ b),
      ))
    where
      known : List ℕ
      known = buffer ++ a

      p : Parsed
      p = parse_loop limit (length known) [] known
