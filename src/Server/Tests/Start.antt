-- ===== src/Server/Tests/Start.antt =====
-- A live server with the seed 5, and one that is started on its log; the broadcast of a small game.
use snake_multiplayer.Base.{ℕ, ◌≡◌, [], ◌∷◌, ◌++◌, length, some, none, ok, arith}
use snake_multiplayer.Base.Int.{pos}
use snake_multiplayer.Snake.{get_segments}
use snake_multiplayer.Protocol.Types.{MessageVariant, game_state}
use snake_multiplayer.Protocol.Write.{serialise}
use snake_multiplayer.MessageLog.{open_log, first}
use snake_multiplayer.Frame.{frame, client_parse}
use snake_multiplayer.Server.State.{build_game_state}
use snake_multiplayer.Server.Start.{started, init_server_config, first-record_server_config}
use snake_multiplayer.Server.Size.{broadcast_size, broadcast-client_parse}
use snake_multiplayer.Client.Meadow.{meadow, a_header}

abbrev as_it_is : ℕ → ℕ
as_it_is seed = seed

first-record_server_config_example :
    (m : MessageVariant) × (first
        (open_log ((started as_it_is 5 (pos 100)).message_log ++ (1 ∷ 2 ∷ [])))
      ≡ ok (some m, open_log (1 ∷ 2 ∷ [])))
    × (init_server_config 77 (some m) ≡ init_server_config 5 none)
first-record_server_config_example =
    first-record_server_config as_it_is 5 (pos 100) (1 ∷ 2 ∷ []) 77 (omega arith) (omega arith)

broadcast-client_parse_example :
    (length (serialise (game_state (record (build_game_state meadow) { hdr = a_header })))
      ≡ broadcast_size meadow)
    × (client_parse []
          (frame (serialise (game_state (record (build_game_state meadow) { hdr = a_header }))))
        ≡ ok
            (serialise (game_state (record (build_game_state meadow) { hdr = a_header })) ∷ [], []))
unfolding get_segments
broadcast-client_parse_example = broadcast-client_parse meadow a_header (omega arith)
