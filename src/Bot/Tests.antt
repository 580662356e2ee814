-- ===== src/Bot/Tests.antt =====
-- A bot in the game of Client/Meadow, when the broadcast comes.
use snake_multiplayer.Base.{ℕ, ◌≡◌, refl, false, [], ◌++◌, ok, arith}
use snake_multiplayer.Base.Int.{pos}
use snake_multiplayer.Base.Map.{lookup, int_key}
use snake_multiplayer.Snake.{head_link}
use snake_multiplayer.Socket.{received, taken, send_failed}
use snake_multiplayer.Protocol.Types.{game_state}
use snake_multiplayer.Protocol.Write.{serialise}
use snake_multiplayer.Frame.{frame}
use snake_multiplayer.Server.State.{build_game_state}
use snake_multiplayer.Client.GameState.{from_protocol}
use snake_multiplayer.Client.Play.{input_message}
use snake_multiplayer.Client.Meadow.{
  grazer, meadow, meadow-IsReady, meadow-IsLaid, a_header, nothing_seen, meadow_message-IsGameState,
  meadow_message_small,
}
use snake_multiplayer.Pathfinder.Hunt.{IsHunt}
use snake_multiplayer.Bot.{SnakeBot, run_once}
use snake_multiplayer.Bot.Round.{playing_bot, state_message, run_once-IsHunt}

run_once-IsHunt_example :
    (b : SnakeBot) × (key : ℕ) × (run_once
        (playing_bot 4 3 false false (pos 7) nothing_seen [] [])
        (send_failed, taken 29)
        (received (frame (serialise (game_state (state_message meadow a_header)))))
      ≡ ok b)
    × (b.sent ≡ [] ++ frame (serialise (input_message (pos 7) key)))
    × IsHunt 4 3 (from_protocol (build_game_state meadow)) b'^' (pos 2, pos 2) key
unfolding lookup head_link
run_once-IsHunt_example =
    run_once-IsHunt 4 3 meadow meadow-IsReady (pos 7) grazer refl refl a_header false false
      nothing_seen [] [] send_failed 29 meadow-IsLaid (omega arith) meadow_message-IsGameState
      meadow_message_small (omega arith)
