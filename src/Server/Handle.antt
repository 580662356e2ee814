-- ===== src/Server/Handle.antt =====
-- The handlers that send, the dispatch of a message, and the body of the loop of `run`.
use snake_multiplayer.Base.{
  ℕ, ◌+◌, ◌%◌, Bool, true, false, ◌||◌, List, [], ◌∷◌, ◌-◌, ◌==◌, if◌then◌else◌, Result, ok, err,
  ◌>>=◌, out_of_range,
}
use snake_multiplayer.Base.Int.{ℤ, pos, negsuc, ◌+ℤ◌, ◌==ℤ◌}
use snake_multiplayer.Protocol.Types.{
  ClientJoin, MessageVariant, server_config, client_input, client_disconnect, server_welcome,
  client_join, game_state,
}
use snake_multiplayer.Protocol.Types.MessageType
use snake_multiplayer.Protocol.Write.{serialise}
use snake_multiplayer.MessageLog.{log}
use snake_multiplayer.Engine.State.{Draw}
use snake_multiplayer.Engine.Food.{replace_food, create_new_player}
use snake_multiplayer.Engine.Input.{handle_client_input, handle_client_disconnect}
use snake_multiplayer.Engine.Tick.{advance}
use snake_multiplayer.Server.State.{
  to_client, to_all, SnakeServer, until_nul, new_header, build_game_state, stamp_message,
}

-- `static_cast<Color>((clientId % 5) + 2)`, with the remainder of C++.
unfoldable pub color_of : ℤ → ℤ
color_of (pos n) = pos (n % 5) +ℤ pos 2
color_of (negsuc n) = (if (n + 1) % 5 == 0 then pos 0 else negsuc ((n + 1) % 5 - 1)) +ℤ pos 2

abbrev pub is_client : ℤ → List ℤ → Bool
is_client id [] = false
is_client id (c ∷ cs) = if c ==ℤ id then true else is_client id cs

module _ {G : Type 0} where
  -- A message is stamped, which takes a sequence number, and logged.
  unfoldable pub record_message : SnakeServer G → MessageVariant → SnakeServer G
  record_message s msg = record s {
    current_sequence = s.current_sequence +ℤ pos 1;
    message_log = log s.message_log (serialise (stamp_message s msg));
  }

  unfoldable pub send_to_client : SnakeServer G → ℤ → List ℕ → Result (SnakeServer G)
  send_to_client s id bytes =
      if is_client id s.client_ids
      then ok (record s { sent = to_client id bytes ∷ s.sent })
      else err out_of_range

  unfoldable pub broadcast_game_state : SnakeServer G → SnakeServer G
  broadcast_game_state s =
      let msg = game_state (build_game_state s.game) in
      let bytes = serialise (stamp_message s msg) in
      let s' : SnakeServer G = record_message s msg in
      if s.in_replay then s' else record s' { sent = to_all bytes ∷ s'.sent }

module _ {G : Type 0} (draw : Draw G) where
  -- The name is read as a C string: where none of its 16 bytes is 0 the code reads on, which C++
  -- leaves undefined, and the model stops.
  unfoldable pub handle_client_join : SnakeServer G → ClientJoin → Result (SnakeServer G)
  handle_client_join s msg =
      let id = msg.hdr.client_id in
      let joined : SnakeServer G = record s {
        game = create_new_player draw s.game id (color_of id) (until_nul msg.username);
      } in
      let welcome = server_welcome (record { hdr = new_header MessageType.server_welcome id }) in
      let bytes = serialise (stamp_message joined welcome) in
      let s' : SnakeServer G = record_message joined welcome in
      let live = send_to_client s' id bytes in if s.in_replay then ok s' else live

  -- The `switch`, and whether it changes the state. The types that it does not list only leave a
  -- line in the log of errors.
  unfoldable pub dispatch : SnakeServer G → MessageVariant → Result (SnakeServer G × Bool)
  dispatch s (client_join m) = do s' ← handle_client_join s m; ok (s', true)
  dispatch s (client_input m) =
      ok (record s { game = handle_client_input s.game m.hdr.client_id m.input }, false)
  dispatch s (client_disconnect m) =
      ok (record s { game = handle_client_disconnect s.game m.hdr.client_id }, true)
  dispatch s (server_config m) = ok (s, false)
  dispatch s (server_welcome m) = ok (s, false)
  dispatch s (game_state m) = ok (s, false)

  -- A message of the batch.
  unfoldable pub handle_message : SnakeServer G → MessageVariant → Result (SnakeServer G × Bool)
  handle_message s msg = dispatch (record_message s msg) (stamp_message s msg)

  unfoldable pub handle_messages :
      SnakeServer G → List MessageVariant → Bool → Result (SnakeServer G × Bool)
  handle_messages s [] changed = ok (s, changed)
  handle_messages s (m ∷ ms) changed = do
    r ← handle_message s m
    handle_messages r.0 ms (r.1 || changed)

  -- One round of the loop, on the messages that `pollMessages` returned.
  unfoldable pub run_once : ℕ → SnakeServer G → List MessageVariant → Result (SnakeServer G)
  run_once fuel s messages = do
    filled ← replace_food draw fuel s.game
    r ← handle_messages (record s { game = filled }) messages false
    t ← advance draw r.0.game
    let s' : SnakeServer G = record r.0 { game = t.0 }
    ok (if t.1 || r.1 then broadcast_game_state s' else s')
