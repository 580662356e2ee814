-- ===== src/Frame/Stream.antt =====
-- Reassembly: however TCP cuts the stream, the parsers deliver the frames that were sent.
use snake_multiplayer.Base.{
  ok, ℕ, zero, suc, ◌+◌, ◌%◌, ◌^◌, ◌≤◌, ◌<◌, ◌≡◌, refl, ap, sym, ◌∙◌, false, List, [], ◌∷◌, ◌++◌,
  arith, length, take, drop, All, concat, if◌then◌else◌, length-append, take-append, drop-append,
  append_assoc, append-nil,
}
use snake_multiplayer.Protocol.Bytes.{bytes_word, u32_bytes}
use snake_multiplayer.Protocol.Bytes.Laws.{length-u32_bytes, bytes_word-word_bytes}
use snake_multiplayer.Frame.{
  Parsed, frame, parse_loop, parse, client_parse, client_recv_max_message_size,
}
use snake_multiplayer.Frame.Loop.{parse_loop_fuel, parse-append}

abbrev pub stream : List (List ℕ) → List ℕ
stream [] = []
stream (m ∷ ms) = frame m ++ stream ms

-- One parse for each chunk that `recv` returns, until a frame is too long.
pub receive : ℕ → List ℕ → List (List ℕ) → Parsed
receive limit buffer [] = record { frames = []; buffer = buffer; oversized = false }
receive limit buffer (c ∷ cs) =
    let p = parse limit buffer c in
    let q = receive limit p.buffer cs in
    if p.oversized then p else record q { frames = p.frames ++ q.frames }

bytes_word-u32_bytes : (n : ℕ) → n < 2 ^ 32 → bytes_word (u32_bytes n) ≡ n
unfolding u32_bytes
bytes_word-u32_bytes n h = bytes_word-word_bytes 4 n h

pub length-frame : (m : List ℕ) → length (frame m) ≡ 4 + length m
unfolding frame
length-frame m =
    rw (length-append (u32_bytes (length m % 2 ^ 32)) m, length-u32_bytes (length m % 2 ^ 32))

-- The length at the head of a frame, and what stands behind it.
pub frame_parts :
    (m rest : List ℕ)
    → length m < 2 ^ 32
    → (bytes_word (take 4 (frame m ++ rest)) ≡ length m) × (drop 4 (frame m ++ rest) ≡ m ++ rest)
frame_parts m rest h =
    let prefix = u32_bytes (length m % 2 ^ 32) in
    let small : length m % 2 ^ 32 ≡ length m = omega arith in
    let split : frame m ++ rest ≡ prefix ++ (m ++ rest) =
      unfold frame in append_assoc (u32_bytes (length m % 2 ^ 32)) m rest in
    (
      rw (split, take-append 4 prefix (m ++ rest) (length-u32_bytes _), small)
          (bytes_word-u32_bytes _ h),
      rw split (drop-append 4 prefix (m ++ rest) (length-u32_bytes _)),
    )

module _ (limit : ℕ) (small : limit < 2 ^ 32) where
  -- One round on a buffer that begins with a whole frame.
  parse_loop-frame :
      (fuel : ℕ) (frames : List (List ℕ)) (m rest : List ℕ)
      → length m ≤ limit
      → parse_loop limit (suc fuel) frames (frame m ++ rest)
        ≡ parse_loop limit fuel (frames ++ (m ∷ [])) rest
  unfolding parse_loop
  parse_loop-frame fuel frames m rest h = ground (
    arith,
    length-append (frame m) rest,
    length-frame m,
    frame_parts m rest,
    take-append (length m) m rest refl,
    drop-append (4 + length m) (frame m) rest (length-frame m),
  )

  parse_loop-stream :
      (ms : List (List ℕ)) (fuel : ℕ) (frames : List (List ℕ))
      → All (λ m. length m ≤ limit) ms
      → length (stream ms) ≤ fuel
      → parse_loop limit fuel frames (stream ms)
        ≡ record { frames = frames ++ ms; buffer = []; oversized = false }
  parse_loop-stream [] fuel frames h f =
      parse_loop_fuel limit fuel zero frames [] (omega arith) (omega arith)
      ∙ unfold parse_loop in rw (append-nil frames)
  parse_loop-stream (m ∷ ms) zero frames h f =
      absurd (omega (arith, length-append (frame m) (stream ms), length-frame m))
  parse_loop-stream (m ∷ ms) (suc fuel) frames (h, hs) f =
      parse_loop-frame fuel frames m (stream ms) h
      ∙ parse_loop-stream ms fuel (frames ++ (m ∷ [])) hs
          (omega (arith, length-append (frame m) (stream ms), length-frame m))
      ∙ rw (append_assoc frames (m ∷ []) ms)

  pub parse-stream :
      (ms : List (List ℕ))
      → All (λ m. length m ≤ limit) ms
      → parse limit [] (stream ms) ≡ record { frames = ms; buffer = []; oversized = false }
  unfolding parse
  parse-stream ms h = parse_loop-stream ms (length (stream ms)) [] h (omega arith)

append_eq_self : (xs ys : List (List ℕ)) → xs ≡ xs ++ ys → ys ≡ []
append_eq_self xs [] e = refl
append_eq_self xs (y ∷ ys) e = absurd (omega (arith, ap length e, length-append xs (y ∷ ys)))

-- A buffer in which nothing is left to find.
abbrev IsDrained : ℕ → List ℕ → Type 0
IsDrained limit buffer =
    parse limit buffer [] ≡ record { frames = []; buffer = buffer; oversized = false }

module _ (limit : ℕ) where
  parse-IsDrained :
      (buffer a : List ℕ)
      → (parse limit buffer a).oversized ≡ false
      → IsDrained limit (parse limit buffer a).buffer
  parse-IsDrained buffer a e = ground (
    arith,
    append-nil a,
    parse-append limit buffer a [],
    append_eq_self (parse limit buffer a).frames
        (parse limit (parse limit buffer a).buffer []).frames,
  )

  -- Where no frame is too long, parsing chunk by chunk is parsing everything at once.
  receive-eq-parse :
      (buffer : List ℕ) (chunks : List (List ℕ))
      → IsDrained limit buffer
      → (parse limit buffer (concat chunks)).oversized ≡ false
      → receive limit buffer chunks ≡ parse limit buffer (concat chunks)
  unfolding receive
  receive-eq-parse buffer [] drained fits = sym drained
  receive-eq-parse buffer (c ∷ cs) drained fits = ground (
    arith,
    parse-append limit buffer c (concat cs),
    parse-IsDrained buffer c,
    receive-eq-parse (parse limit buffer c).buffer cs,
  )

  nothing-IsDrained : IsDrained limit []
  unfolding parse parse_loop
  nothing-IsDrained = refl

-- However the stream of frames is cut into chunks, a parser whose limit the messages keep delivers
-- the messages that were sent, in order, and ends with an empty buffer.
pub receive-stream :
    (limit : ℕ) (ms chunks : List (List ℕ))
    → limit < 2 ^ 32
    → All (λ m. length m ≤ limit) ms
    → concat chunks ≡ stream ms
    → receive limit [] chunks ≡ record { frames = ms; buffer = []; oversized = false }
receive-stream limit ms chunks small h e =
    let whole = parse-stream limit small ms h in
    receive-eq-parse limit [] chunks (nothing-IsDrained limit) (rw (e, whole)) ∙ rw (e, whole)

-- One whole frame.
pub client_parse-frame :
    (m : List ℕ)
    → length m ≤ client_recv_max_message_size
    → client_parse [] (frame m) ≡ ok (m ∷ [], [])
unfolding client_parse
client_parse-frame m l =
    let e = parse-stream client_recv_max_message_size (omega arith) (m ∷ []) (l, tt) in
    rw (rw append-nil at e) refl
