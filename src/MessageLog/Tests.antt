-- ===== src/MessageLog/Tests.antt =====
-- A log of three inputs at two times.
use snake_multiplayer.Base.{ℕ, ◌<◌, ◌^◌, refl, [], ◌∷◌, arith, length-append}
use snake_multiplayer.Base.Int.{pos}
use snake_multiplayer.Protocol.Types.{ClientInput, MessageVariant, header, client_input}
use snake_multiplayer.Protocol.Types.MessageType
use snake_multiplayer.Protocol.Write.{serialise, serialise_header}
use snake_multiplayer.Protocol.Layout.{length-serialise_header, client_input_layout}
use snake_multiplayer.MessageLog.{open_log}
use snake_multiplayer.MessageLog.Replay.{IsRecordable, logged, replay, Replays, replay-logged}

abbrev an_input : ℕ → ClientInput
an_input t = record {
  hdr = record {
    message_type = MessageType.client_input;
    client_id = pos 5;
    sequence = pos t;
    transact_time = pos t;
  };
  input = b'^';
}

abbrev input_at : ℕ → MessageVariant
input_at t = client_input (an_input t)

input_at-IsRecordable : (t : ℕ) → t < 2 ^ 31 → IsRecordable (input_at t)
unfolding serialise
input_at-IsRecordable t lt = (
  record {
    kind = refl;
    kind_fits = omega arith;
    client_id_fits = omega arith;
    sequence_fits = omega arith;
    transact_time_fits = omega arith;
  },
  rw (client_input_layout (an_input t)) (
      omega (
        arith,
        length-append (serialise_header (an_input t).hdr) (b'^' ∷ []),
        length-serialise_header (an_input t).hdr,
      )),
)

replay-logged_example :
    Replays
      (pos 0)
      (input_at 3 ∷ input_at 3 ∷ input_at 8 ∷ [])
      (replay 4 (open_log (logged [] (input_at 3 ∷ input_at 3 ∷ input_at 8 ∷ []))))
unfolding header
replay-logged_example =
    replay-logged (input_at 3) (input_at 3 ∷ input_at 8 ∷ [])
      (three, (three, (input_at-IsRecordable 8 (omega arith), tt))) (omega arith)
      (omega arith, (omega arith, tt))
  where
    three : IsRecordable (input_at 3)
    three = input_at-IsRecordable 3 (omega arith)
