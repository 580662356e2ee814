-- ===== src/Client/Play.antt =====
-- The state of src/snake_client/SnakeClient.cpp and its round, without the screen.
use snake_multiplayer.Base.{
  ℕ, Bool, true, false, not, ◌&&◌, ◌||◌, ◌==◌, List, [], ◌∷◌, ◌++◌, Option, none, some, replicate,
  take, if◌then◌else◌, Result, ok, err, ◌>>=◌, invalid_message_type,
}
use snake_multiplayer.Base.Int.{ℤ, negsuc}
use snake_multiplayer.Base.Map.{contains, int_key}
use snake_multiplayer.Socket.{Received, Sent}
use snake_multiplayer.Protocol.Types.{
  MessageVariant, server_config, client_input, client_disconnect, server_welcome, client_join,
  game_state,
}
use snake_multiplayer.Protocol.Types as Protocol
use snake_multiplayer.Protocol.Types.MessageType
use snake_multiplayer.Protocol.Write.{serialise}
use snake_multiplayer.Protocol.Read.{deserialise}
use snake_multiplayer.Server.State.{until_nul, new_header}
use snake_multiplayer.Client.GameState.{GameState, from_protocol}
use snake_multiplayer.Client.Network.{send_to_server, receive_from_server}

-- `message_buffer` is that of the connection, and `sent` what went over it.
pub record SnakeClient : Type 0 where
  pub running : Bool
  pub playing : Bool
  pub client_id : ℤ
  pub player_input : ℕ
  pub game_state : GameState
  pub message_buffer : List ℕ
  pub sent : List ℕ

-- What `getch` returns: nothing, a character, or a key.
pub data Key : Type 0 where
  no_key key_up key_down key_left key_right : Key
  char : ℕ → Key

-- `strncpy` of at most 15 bytes into a `char[16]` of zeros.
abbrev pub strncpy_15 : List ℕ → List ℕ
strncpy_15 name = take 15 (until_nul name ++ replicate 15 0) ++ (0 ∷ [])

unfoldable pub join_message : ℤ → List ℕ → MessageVariant
join_message client_id name =
    client_join
      (record { hdr = new_header MessageType.client_join client_id; username = strncpy_15 name })

unfoldable pub input_message : ℤ → ℕ → MessageVariant
input_message client_id input =
    client_input (record { hdr = new_header MessageType.client_input client_id; input = input })

-- `name` is what USER says, or "unknown".
unfoldable pub join_game : List ℕ → SnakeClient → Sent → Result SnakeClient
join_game name c r = do
  bytes ← send_to_server (serialise (join_message c.client_id name)) r
  ok (record c { sent = c.sent ++ bytes })

unfoldable pub handle_input : List ℕ → SnakeClient → Key → Sent → Result SnakeClient
handle_input name c no_key r = ok c
handle_input name c key_up r = ok (record c { player_input = b'^' })
handle_input name c key_down r = ok (record c { player_input = b'v' })
handle_input name c key_left r = ok (record c { player_input = b'<' })
handle_input name c key_right r = ok (record c { player_input = b'>' })
handle_input name c (char ch) r =
    let joined = join_game name c r in
    if ch == b'q' || ch == b'Q'
    then ok (record c { running = false })
    else if not c.playing && (ch == b'r' || ch == b'R')
    then joined
    else ok c

unfoldable pub send_player_input : SnakeClient → Sent → Result SnakeClient
send_player_input c r = do
  bytes ← send_to_server (serialise (input_message c.client_id c.player_input)) r
  ok (record c { sent = c.sent ++ bytes; player_input = 0 })

unfoldable pub handle_server_welcome : SnakeClient → Protocol.ServerWelcome → SnakeClient
handle_server_welcome c m = record c { client_id = m.hdr.client_id; playing = true }

unfoldable pub handle_game_state_message : SnakeClient → Protocol.GameState → SnakeClient
handle_game_state_message c m =
    let seen : SnakeClient = record c { game_state = from_protocol m } in
    if contains c.client_id seen.game_state.players
    then seen
    else record seen { playing = false; client_id = negsuc 0 }

-- The loop over the frames, with the latest state that it has met. What `deserialise` returns is
-- always of the type that its header names, so that the `switch` is a match.
unfoldable pub read_messages :
    SnakeClient
    → Option Protocol.GameState
    → List (List ℕ)
    → Result (SnakeClient × Option Protocol.GameState)
read_messages c latest [] = ok (c, latest)
read_messages c latest (bytes ∷ frames) = do
  msg ← deserialise bytes
  elim msg [
    | server_welcome m ↦ read_messages (handle_server_welcome c m) latest frames
    | game_state m ↦ read_messages c (some m) frames
    | _ ↦ err invalid_message_type
  ]

unfoldable pub handle_latest : SnakeClient → Option Protocol.GameState → SnakeClient
handle_latest c none = c
handle_latest c (some m) = handle_game_state_message c m

unfoldable pub receive_updates : SnakeClient → Received → Result SnakeClient
receive_updates c what = do
  r ← receive_from_server c.message_buffer what
  s ← read_messages (record c { message_buffer = r.1 }) none r.0
  ok (handle_latest s.0 s.1)

-- A round of `run`, where `sends` are the results of the two sends that it may make.
unfoldable pub run_once : List ℕ → SnakeClient → Key → Sent × Sent → Received → Result SnakeClient
run_once name c key sends what = do
  handled ← handle_input name c key sends.0
  answered ←
      (if handled.playing && not (handled.player_input == 0)
        then send_player_input handled sends.1
        else ok handled)
  receive_updates answered what
