-- ===== src/MessageLog/Replay.antt =====
-- Reading back a log: the batches of a replay are the recorded messages, in order, cut where the
-- time changes.
use snake_multiplayer.Base.{
  ℕ, zero, suc, ◌^◌, ◌≤◌, ◌<◌, ◌≡◌, refl, subst, sym, ◌∙◌, ◌≢◌, inl, inr, true, false, List, [],
  ◌∷◌, ◌++◌, arith, length, All, concat, if◌then◌else◌, Bool-cases, length-append, take-append,
  drop-append, append_assoc, append-nil, none, some, Result, ok, err, ◌>>=◌, stuck,
}
use snake_multiplayer.Base.Int.{ℤ, pos, negsuc, ◌==ℤ◌, ltb_ℤ, ◌≤ℤ◌, ◌<ℤ◌, ==ℤ→eq, ==ℤ→ne}
use snake_multiplayer.Protocol.Types.{MessageVariant}
use snake_multiplayer.Protocol.Valid.{IsMessage}
use snake_multiplayer.Protocol.Write.{serialise}
use snake_multiplayer.Protocol.RoundTrip.{deserialise-serialise}
use snake_multiplayer.Frame.{frame}
use snake_multiplayer.Frame.Stream.{frame_parts, length-frame}
use snake_multiplayer.MessageLog.{
  MessageLogReader, open_log, log, read_record, transact_time, batch_loop, next_batch,
}

-- A message that the writer can record: valid, and shorter than 4 GiB.
abbrev pub IsRecordable : MessageVariant → Type 0
IsRecordable m = IsMessage m × (length (serialise m) < 2 ^ 32)

-- The file after the messages have been logged in order.
abbrev pub logged : List ℕ → List MessageVariant → List ℕ
logged out [] = out
logged out (m ∷ ms) = logged (log out (serialise m)) ms

abbrev pub records : List MessageVariant → List ℕ
records [] = []
records (m ∷ ms) = frame (serialise m) ++ records ms

logged_lem : (out : List ℕ) (ms : List MessageVariant) → logged out ms ≡ out ++ records ms
logged_lem out [] = sym (append-nil out)
logged_lem out (m ∷ ms) =
    logged_lem (log out (serialise m)) ms
    ∙ unfold log in append_assoc out (frame (serialise m)) (records ms)

pub read_record-frame :
    (m : MessageVariant) (rest : List ℕ)
    → IsRecordable m
    → read_record (frame (serialise m) ++ rest) ≡ ok (some (m, rest))
unfolding read_record
read_record-frame m rest (v, n) = ground (
  arith,
  frame_parts (serialise m) rest n,
  take-append (length (serialise m)) (serialise m) rest refl,
  drop-append (length (serialise m)) (serialise m) rest refl,
  length-append (serialise m) rest,
  length-append (frame (serialise m)) rest,
  length-frame (serialise m),
  deserialise-serialise m v,
)

-- Times are positive and do not fall, from `t` on.
abbrev pub IsTimed : ℤ → List MessageVariant → Type 0
IsTimed t [] = Unit {0}
IsTimed t (m ∷ ms) = (t ≤ℤ transact_time m) × IsTimed (transact_time m) ms

-- The messages at the front of the list that bear time `t`, and the others.
pub span : ℤ → List MessageVariant → List MessageVariant × List MessageVariant
span t [] = ([], [])
span t (m ∷ ms) = if transact_time m ==ℤ t then (m ∷ (span t ms).0, (span t ms).1) else ([], m ∷ ms)

-- The reader that has read the first message of `ms`, and no other.
abbrev pub ahead : ℤ → List MessageVariant → MessageLogReader
ahead t [] = record { input = []; current_transact_time = t; output_buffer = none }
ahead t (m ∷ ms) = record {
  input = records ms;
  current_transact_time = transact_time m;
  output_buffer = some m;
}

ne_positive : (t : ℤ) → pos 0 <ℤ t → (t ==ℤ pos 0) ≡ false
ne_positive (pos n) h = ground arith
ne_positive (negsuc n) h = refl

lt_of_le_ne : (s t : ℤ) → s ≤ℤ t → t ≢ s → ltb_ℤ s t ≡ true
lt_of_le_ne s t h ne = ground arith

batch_loop_lem :
    (ms : List MessageVariant) (fuel : ℕ) (t : ℤ) (output : List MessageVariant)
    → All IsRecordable ms
    → IsTimed t ms
    → pos 0 <ℤ t
    → length (records ms) < fuel
    → batch_loop fuel (records ms) t output ≡ ok (output ++ (span t ms).0, ahead t (span t ms).1)
unfolding batch_loop span
batch_loop_lem ms zero t output v s p f = absurd (omega arith)
batch_loop_lem [] (suc fuel) t output v s p f = unfold read_record in rw (append-nil output)
batch_loop_lem (m ∷ ms) (suc fuel) t output (v, vs) (le, s) p f =
    elim (Bool-cases (transact_time m ==ℤ t)) [
      | inl same ↦
          let at_t : IsTimed t ms = subst (λ u. IsTimed u ms) (==ℤ→eq (transact_time m) t same) s in
          ground (
            arith,
            read,
            positive,
            same,
            append_assoc output (m ∷ []) (span t ms).0,
            batch_loop_lem ms fuel t (output ++ (m ∷ [])) vs at_t p shorter,
          )
      | inr later ↦ ground (arith, read, positive, later, after later, append-nil output)
    ]
  where
    read : read_record (frame (serialise m) ++ records ms) ≡ ok (some (m, records ms))
    read = read_record-frame m (records ms) v

    positive : (t ==ℤ pos 0) ≡ false
    positive = ne_positive t p

    shorter : length (records ms) < fuel
    shorter =
        omega (arith, length-append (frame (serialise m)) (records ms), length-frame (serialise m))

    after : (transact_time m ==ℤ t) ≡ false → ltb_ℤ t (transact_time m) ≡ true
    after e = lt_of_le_ne t (transact_time m) le (==ℤ→ne (transact_time m) t e)

length-frame_lt :
    (m : MessageVariant) (ms : List MessageVariant)
    → length (records ms) < length (records (m ∷ ms))
length-frame_lt m ms =
    omega (arith, length-append (frame (serialise m)) (records ms), length-frame (serialise m))

-- A batch that starts with a message already read.
next_batch-ahead :
    (t : ℤ) (m : MessageVariant) (ms : List MessageVariant)
    → All IsRecordable ms
    → IsTimed (transact_time m) ms
    → pos 0 <ℤ transact_time m
    → next_batch (ahead t (m ∷ ms))
      ≡ ok
          (m ∷ (span (transact_time m) ms).0, ahead (transact_time m) (span (transact_time m) ms).1)
unfolding next_batch
next_batch-ahead t m ms v s p =
    batch_loop_lem ms (suc (length (records ms))) (transact_time m) (m ∷ []) v s p (omega arith)

-- The first batch of a fresh reader.
next_batch-fresh :
    (m : MessageVariant) (ms : List MessageVariant)
    → All IsRecordable (m ∷ ms)
    → IsTimed (transact_time m) ms
    → pos 0 <ℤ transact_time m
    → next_batch (open_log (records (m ∷ ms)))
      ≡ ok
          (m ∷ (span (transact_time m) ms).0, ahead (transact_time m) (span (transact_time m) ms).1)
unfolding next_batch batch_loop
next_batch-fresh m ms (v, vs) s p = ground (
  arith,
  read_record-frame m (records ms) v,
  batch_loop_lem ms (length (records (m ∷ ms))) (transact_time m) (m ∷ []) vs s p
      (length-frame_lt m ms),
)

next_batch_end : (t : ℤ) → next_batch (ahead t []) ≡ ok ([], ahead t [])
unfolding next_batch batch_loop read_record
next_batch_end t = refl

-- What `SnakeServer::pollMessages` does in a replay, tick after tick: batches until an empty one.
pub replay : ℕ → MessageLogReader → Result (List (List MessageVariant))
replay zero r = err stuck
replay (suc fuel) r = elim (next_batch r) [
  | err e ↦ err e
  | ok ([], r') ↦ ok []
  | ok (m ∷ ms, r') ↦ do rest ← replay fuel r'; ok ((m ∷ ms) ∷ rest)
]

-- Batches of one time each, at times that rise from above `t`.
abbrev pub IsCut : ℤ → List (List MessageVariant) → Type 0
IsCut t [] = Unit {0}
IsCut t ([] ∷ bs) = ⊥
IsCut t ((m ∷ ms) ∷ bs) =
    (t <ℤ transact_time m)
    × All (λ k. transact_time k ≡ transact_time m) ms
    × IsCut (transact_time m) bs

abbrev IsAfter : ℤ → List MessageVariant → Type 0
IsAfter t [] = Unit {0}
IsAfter t (m ∷ ms) = (t <ℤ transact_time m) × IsTimed (transact_time m) ms

span-append : (t : ℤ) (ms : List MessageVariant) → (span t ms).0 ++ (span t ms).1 ≡ ms
unfolding span
span-append t [] = refl
span-append t (m ∷ ms) = ground (arith, span-append t ms)

span_same : (t : ℤ) (ms : List MessageVariant) → All (λ k. transact_time k ≡ t) (span t ms).0
unfolding span
span_same t [] = tt
span_same t (m ∷ ms) = ground (arith, span_same t ms, ==ℤ→eq (transact_time m) t)

length-span : (t : ℤ) (ms : List MessageVariant) → length (span t ms).1 ≤ length ms
unfolding span
length-span t [] = omega arith
length-span t (m ∷ ms) = ground (arith, length-span t ms)

span-All :
    (P : MessageVariant → Type 0) (t : ℤ) (ms : List MessageVariant)
    → All P ms
    → All P (span t ms).1
unfolding span
span-All P t [] h = tt
span-All P t (m ∷ ms) (h, hs) = ground (arith, span-All P t ms hs)

span-IsAfter : (t : ℤ) (ms : List MessageVariant) → IsTimed t ms → IsAfter t (span t ms).1
unfolding span
span-IsAfter t [] h = tt
span-IsAfter t (m ∷ ms) (le, s) = elim (Bool-cases (transact_time m ==ℤ t)) [
  | inl same ↦
      rw same (span-IsAfter t ms (subst (λ u. IsTimed u ms) (==ℤ→eq (transact_time m) t same) s))
  | inr later ↦ rw later (strict (==ℤ→ne (transact_time m) t later), s)
]
  where
    strict : transact_time m ≢ t → t <ℤ transact_time m
    strict ne = ground (arith, lt_of_le_ne t (transact_time m) le ne)

-- A replay that returns all of `ms`, cut at the times.
abbrev pub Replays : ℤ → List MessageVariant → Result (List (List MessageVariant)) → Type 0
Replays t ms r = (bs : List (List MessageVariant)) × (r ≡ ok bs) × (concat bs ≡ ms) × IsCut t bs

-- One batch in front of a replay of the rest.
replay_batch :
    (fuel : ℕ) (t : ℤ) (r : MessageLogReader) (m : MessageVariant) (ms : List MessageVariant)
    → t <ℤ transact_time m
    → next_batch r
      ≡ ok
          (m ∷ (span (transact_time m) ms).0, ahead (transact_time m) (span (transact_time m) ms).1)
    → Replays
        (transact_time m)
        (span (transact_time m) ms).1
        (replay fuel (ahead (transact_time m) (span (transact_time m) ms).1))
    → Replays t (m ∷ ms) (replay (suc fuel) r)
unfolding replay
replay_batch fuel t r m ms lt e (bs, run, all, cut) =
    let u = transact_time m in
    (
      (m ∷ (span u ms).0) ∷ bs,
      rw (e, replay) (rw (run, replay)),
      rw (all, span-append u ms),
      (lt, span_same u ms, cut),
    )

replay_ahead :
    (fuel : ℕ) (t : ℤ) (ms : List MessageVariant)
    → length ms < fuel
    → All IsRecordable ms
    → IsAfter t ms
    → pos 0 ≤ℤ t
    → Replays t ms (replay fuel (ahead t ms))
unfolding replay
replay_ahead zero t ms f v s p = absurd (omega arith)
replay_ahead (suc fuel) t [] f v s p = ([], rw (next_batch_end t, replay), refl, tt)
replay_ahead (suc fuel) t (m ∷ ms) f (v, vs) (lt, s) p =
    let u = transact_time m in
    replay_batch fuel t _ m ms lt (next_batch-ahead t m ms vs s (omega arith)) (
      replay_ahead fuel u (span u ms).1 (omega (arith, length-span u ms))
        (span-All IsRecordable u ms vs) (span-IsAfter u ms s) (omega arith))

-- A log of messages at positive times that do not fall is replayed whole: no record is lost, added,
-- repeated or moved, and the cuts stand exactly where the time rises.
pub replay-logged :
    (m : MessageVariant) (ms : List MessageVariant)
    → All IsRecordable (m ∷ ms)
    → pos 0 <ℤ transact_time m
    → IsTimed (transact_time m) ms
    → Replays (pos 0) (m ∷ ms) (replay (suc (suc (length ms))) (open_log (logged [] (m ∷ ms))))
replay-logged m ms (v, vs) p s =
    let u = transact_time m in
    rw (logged_lem [] (m ∷ ms)) (
      replay_batch (suc (length ms)) (pos 0) _ m ms p (next_batch-fresh m ms (v, vs) s p) (
        replay_ahead (suc (length ms)) u (span u ms).1 (omega (arith, length-span u ms))
          (span-All IsRecordable u ms vs) (span-IsAfter u ms s) (omega arith)))
