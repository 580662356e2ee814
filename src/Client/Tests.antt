-- ===== src/Client/Tests.antt =====
-- The game of Meadow, as its clients see it.
mod Display
use snake_multiplayer.Base.{
  true, false, none, [], ◌∷◌, List, ℕ, ◌≡◌, refl, inl, inr, [], take, arith, ok, some,
}
use mathlib.Core.Option as Option
use snake_multiplayer.Base.Int.{negsuc, ℤ, pos, ◌+ℤ◌}
use snake_multiplayer.Base.Map.{lookup, int_key}
use snake_multiplayer.Snake.{head_cell, head_link}
use snake_multiplayer.Engine.State.{Player}
use snake_multiplayer.Engine.Move.{moved}
use snake_multiplayer.Engine.Input.{handle_client_input}
use snake_multiplayer.Server.State.{build_game_state}
use snake_multiplayer.Socket.{received}
use snake_multiplayer.Protocol.Types.{MessageVariant, server_welcome, game_state}
use snake_multiplayer.Protocol.Types.MessageType
use snake_multiplayer.Protocol.Write.{serialise}
use snake_multiplayer.Protocol.Layout.{length-serialise_header}
use snake_multiplayer.Frame.Stream.{stream}
use snake_multiplayer.Frame.Session.{serialised}
use snake_multiplayer.Server.State.{new_header, player_messages}
use snake_multiplayer.Base.Map.{contains, assign}
use snake_multiplayer.Client.GameState.{add_players, player_data}
use snake_multiplayer.Client.Play.{
  SnakeClient, handle_game_state_message, handle_latest, receive_updates,
}
use snake_multiplayer.Client.Latest.{informed, last_state, welcomed, receive_updates-latest}
use snake_multiplayer.Client.Meadow.{
  grazer, meadow, meadow-IsReady, meadow-IsLaid, a_header, nothing_seen, meadow_message-IsGameState,
  meadow_message_small,
}
use snake_multiplayer.Client.GameState.{from_protocol}
use snake_multiplayer.Client.Shown.{shown_game}
use snake_multiplayer.Client.Guided.{input_moves, broadcast-IsHunt}
use snake_multiplayer.Pathfinder.{Pathfinder, rebuild_map, calculate_next_move}
use snake_multiplayer.Pathfinder.Moves.{IsMove}
use snake_multiplayer.Pathfinder.Hunt.{IsHunt}

broadcast-IsHunt_example :
    (f : Pathfinder) × (rebuild_map
        (record { width = 4; height = 3; dijkstra_map = [] })
        (from_protocol (build_game_state meadow))
      ≡ ok f)
    × ((key : ℕ) × (calculate_next_move f (pos 7) (from_protocol (build_game_state meadow))
          ≡ ok key)
        × IsHunt 4 3 (shown_game meadow) b'^' (pos 2, pos 2) key)
unfolding lookup head_link
broadcast-IsHunt_example =
    broadcast-IsHunt 4 3 meadow meadow-IsReady [] (pos 7) grazer meadow-IsLaid (omega arith) refl

to_the_left : IsMove 4 3 b'^' (pos 2, pos 2) b'<' (pos 1, pos 2)
unfolding ◌+ℤ◌
to_the_left = record {
  turn = (inr (inr (inl refl)), λ e. absurd (omega (arith, e)));
  target = inr (inr (inl (refl, refl)));
  in_arena = (omega arith, omega arith, omega arith, omega arith);
}

input_moves_example :
    (q : Player) × (lookup (pos 7) (handle_client_input meadow (pos 7) b'<').players ≡ some q)
    × ((now : ℤ) → (q' : Player) × (moved now q ≡ ok q') × (head_cell q'.head ≡ (pos 1, pos 2)))
unfolding lookup head_link
input_moves_example =
    input_moves 4 3 meadow meadow-IsReady (pos 7) grazer b'<' (pos 1, pos 2) refl to_the_left

abbrev a_client : SnakeClient
a_client = record {
  running = true;
  playing = false;
  client_id = negsuc 0;
  player_input = 0;
  game_state = nothing_seen;
  message_buffer = [];
  sent = [];
}

-- The broadcast of a game without player 9, and the welcome of player 9 behind it.
abbrev state_then_welcome : List MessageVariant
state_then_welcome =
    game_state (record (build_game_state meadow) { hdr = a_header })
    ∷ server_welcome (record { hdr = new_header MessageType.server_welcome (pos 9) })
    ∷ []

receive_updates-latest_example :
    receive_updates a_client (received (stream (serialised state_then_welcome)))
    ≡ ok (
        informed
          (record (welcomed a_client state_then_welcome) { message_buffer = [] })
          (last_state none state_then_welcome))
unfolding serialise
receive_updates-latest_example = receive_updates-latest a_client state_then_welcome refl (
  (meadow_message-IsGameState, meadow_message_small),
  (
    (
      record {
        kind = refl;
        kind_fits = omega arith;
        client_id_fits = omega arith;
        sequence_fits = omega arith;
        transact_time_fits = omega arith;
      },
      omega (arith, length-serialise_header (new_header MessageType.server_welcome (pos 9))),
    ),
    tt,
  ),
)

-- The older state ends the game of player 9.
stale_state_run :
    (handle_latest
      (welcomed a_client state_then_welcome)
      (last_state none state_then_welcome)).playing
    ≡ false
unfolding handle_latest handle_game_state_message from_protocol add_players player_data
    build_game_state player_messages contains assign
stale_state_run = refl
