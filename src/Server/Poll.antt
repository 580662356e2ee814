-- ===== src/Server/Poll.antt =====
-- `SnakeServer::pollMessages`, live and in a replay, and the connections from round to round.
use snake_multiplayer.Base.{
  ℕ, ◌≡◌, refl, ◌||◌, List, [], ◌∷◌, ◌++◌, Option, none, some, All, Result, ok, ◌>>=◌,
  if◌then◌else◌,
}
use snake_multiplayer.Base.Int.{ℤ, ◌==ℤ◌}
use snake_multiplayer.Base.Map.{int_key}
use snake_multiplayer.Protocol.Types.{MessageVariant, header, client_disconnect}
use snake_multiplayer.Protocol.Types.MessageType
use snake_multiplayer.Protocol.Read.{deserialise_from}
use snake_multiplayer.MessageLog.{MessageLogReader, transact_time, next_batch}
use snake_multiplayer.NetworkServer.{
  NetworkServer, Event, Messages, poll_messages, drain_disconnects,
}
use snake_multiplayer.Server.State.{new_header}

-- The loop over what the network received.
unfoldable pub deserialise_frames : Messages → Result (List MessageVariant)
deserialise_frames [] = ok []
deserialise_frames ((client_id, frame) ∷ frames) = do
  m ← deserialise_from frame client_id
  ms ← deserialise_frames frames
  ok (m ∷ ms)

-- The messages that are made up for clients that are gone.
abbrev pub disconnects : List ℤ → List MessageVariant
disconnects [] = []
disconnects (client_id ∷ ids) =
    client_disconnect (record { hdr = new_header MessageType.client_disconnect client_id })
    ∷ disconnects ids

unfoldable pub poll_live : NetworkServer → List Event → Result (NetworkServer × List MessageVariant)
poll_live network events = do
  r ← poll_messages network events
  messages ← deserialise_frames r.1
  d ← drain_disconnects r.0
  ok (d.0, messages ++ disconnects d.1)

-- The loop over a batch of the log: each message sets the tick, and the server's own are left out.
unfoldable pub play : ℤ → List MessageVariant → ℤ × List MessageVariant
play tick [] = (tick, [])
play tick (pm ∷ pms) =
    let rest = play (transact_time pm) pms in
    if (header pm).message_type ==ℤ MessageType.server_welcome
      || (header pm).message_type ==ℤ MessageType.game_state
    then rest
    else (rest.0, pm ∷ rest.1)

-- In a replay nobody is connected. `none` is the end of the replay.
unfoldable pub poll_replay :
    ℤ → MessageLogReader → Result (Option (ℤ × MessageLogReader × List MessageVariant))
poll_replay tick reader = do b ← next_batch reader; ok (batch b.1 b.0)
  where
    batch :
        MessageLogReader → List MessageVariant → Option (ℤ × MessageLogReader × List MessageVariant)
    batch reader' [] = none
    batch reader' (m ∷ ms) = let played = play tick (m ∷ ms) in some (played.0, reader', played.1)

-- Every frame makes a message.
abbrev pub Readable : ℤ × List ℕ → Type 0
Readable (client_id, frame) = (m : MessageVariant) × (deserialise_from frame client_id ≡ ok m)

pub deserialise_frames-All :
    (frames : Messages)
    → All Readable frames
    → (ms : List MessageVariant) × (deserialise_frames frames ≡ ok ms)
unfolding deserialise_frames
deserialise_frames-All [] v = ([], refl)
deserialise_frames-All ((id, f) ∷ fs) ((m, e), v) =
    let (ms, es) = deserialise_frames-All fs v in (m ∷ ms, rw e (rw es refl))
