-- ===== src/Bot.antt =====
-- src/snake_bot/SnakeBot.cpp: the program that plays by itself.
pub mod Round
mod Tests
use snake_multiplayer.Base.{
  ℕ, Bool, true, false, not, ◌&&◌, List, [], ◌∷◌, ◌++◌, Option, none, some, if◌then◌else◌, Result,
  ok, err, ◌>>=◌, invalid_message_type,
}
use snake_multiplayer.Base.Int.{ℤ, negsuc, ◌==ℤ◌}
use snake_multiplayer.Base.Map.{contains, int_key}
use snake_multiplayer.Socket.{Received, Sent}
use snake_multiplayer.Protocol.Types.{
  MessageVariant, server_config, client_input, client_disconnect, server_welcome, client_join,
  game_state,
}
use snake_multiplayer.Protocol.Types as Protocol
use snake_multiplayer.Protocol.Write.{serialise}
use snake_multiplayer.Protocol.Read.{deserialise}
use snake_multiplayer.Client.GameState.{GameState, from_protocol}
use snake_multiplayer.Client.Network.{send_to_server, receive_from_server}
use snake_multiplayer.Client.Play.{join_message, input_message}
use snake_multiplayer.Pathfinder.{Pathfinder, rebuild_map, calculate_next_move}

-- `message_buffer` is that of the connection, and `sent` what went over it.
pub record SnakeBot : Type 0 where
  pub awaiting_join : Bool
  pub game_state_has_changed : Bool
  pub client_id : ℤ
  pub game_state : GameState
  pub pathfinder : Pathfinder
  pub message_buffer : List ℕ
  pub sent : List ℕ

abbrev pub bot_name : List ℕ
bot_name = b'b' ∷ b'o' ∷ b't' ∷ []

unfoldable pub create_bot : SnakeBot → Sent → Result SnakeBot
create_bot b r = do
  bytes ← send_to_server (serialise (join_message b.client_id bot_name)) r
  ok (record b { sent = b.sent ++ bytes; awaiting_join = true })

unfoldable pub handle_server_welcome : SnakeBot → Protocol.ServerWelcome → SnakeBot
handle_server_welcome b m = record b { client_id = m.hdr.client_id; awaiting_join = false }

-- A bot that is not among the players any more has died.
unfoldable pub handle_game_state_message : SnakeBot → Protocol.GameState → Result SnakeBot
handle_game_state_message b m = do
  f ← rebuild_map b.pathfinder (from_protocol m)
  let died = not (b.client_id ==ℤ negsuc 0) && not (contains b.client_id (from_protocol m).players)
  ok (record b {
    game_state = from_protocol m;
    client_id = if died then negsuc 0 else b.client_id;
    pathfinder = f;
  })

-- The loop over the frames, with the latest state that it has met.
unfoldable pub read_messages :
    SnakeBot
    → Option Protocol.GameState
    → List (List ℕ)
    → Result (SnakeBot × Option Protocol.GameState)
read_messages b latest [] = ok (b, latest)
read_messages b latest (bytes ∷ frames) = do
  msg ← deserialise bytes
  elim msg [
    | server_welcome m ↦ read_messages (handle_server_welcome b m) latest frames
    | game_state m ↦ read_messages (record b { game_state_has_changed = true }) (some m) frames
    | _ ↦ err invalid_message_type
  ]

unfoldable pub handle_latest : SnakeBot → Option Protocol.GameState → Result SnakeBot
handle_latest b none = ok b
handle_latest b (some m) = handle_game_state_message b m

unfoldable pub receive_updates : SnakeBot → Received → Result SnakeBot
receive_updates b what = do
  r ← receive_from_server b.message_buffer what
  s ← read_messages (record b { message_buffer = r.1 }) none r.0
  handle_latest s.0 s.1

unfoldable pub send_input : SnakeBot → Sent → Result SnakeBot
send_input b r =
    let answer = (do
      key ← calculate_next_move b.pathfinder b.client_id b.game_state
      bytes ← send_to_server (serialise (input_message b.client_id key)) r
      ok (record b { sent = b.sent ++ bytes })) in
    if contains b.client_id b.game_state.players then answer else ok b

-- The end of a round: an input where the state has changed.
unfoldable pub answer_change : SnakeBot → Sent → Result SnakeBot
answer_change b r =
    let quiet : SnakeBot → SnakeBot = λ x. record x { game_state_has_changed = false } in
    let answered = (do x ← send_input b r; ok (quiet x)) in
    if b.client_id ==ℤ negsuc 0
    then ok b
    else if b.game_state_has_changed
    then answered
    else ok (quiet b)

-- A round of `run`, where `sends` are the results of the two sends that it may make.
unfoldable pub run_once : SnakeBot → Sent × Sent → Received → Result SnakeBot
run_once b sends what = do
  joined ← (if b.client_id ==ℤ negsuc 0 && not b.awaiting_join then create_bot b sends.0 else ok b)
  updated ← receive_updates joined what
  answer_change updated sends.1
