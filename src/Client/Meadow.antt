-- ===== src/Client/Meadow.antt =====
-- A game for the tests, and its broadcast: one snake, one food and one boost on an arena of 4 by 3.
use snake_multiplayer.Base.{some, length, ◌≤◌, ℕ, refl, inl, [], ◌∷◌, replicate, arith, false}
use snake_multiplayer.Base.Int.{negsuc, pos}
use snake_multiplayer.Base.Map.{int_key}
use snake_multiplayer.Protocol.Types.{Header, game_state}
use snake_multiplayer.Protocol.Types.MessageType
use snake_multiplayer.Protocol.Valid.{IsGameState}
use snake_multiplayer.Protocol.Write.{serialise}
use snake_multiplayer.Frame.{client_recv_max_message_size}
use snake_multiplayer.Server.State.{
  new_header, strncpy_16, food_message, food_messages, player_messages, build_game_state,
}
use snake_multiplayer.Server.Size.{length-build_game_state}
use snake_multiplayer.Client.GameState.{GameState}
use snake_multiplayer.Snake.{end, node, get_segments, head_link}
use snake_multiplayer.Snake.Motion.{body, left_cell}
use snake_multiplayer.Engine.State.{Player, Game}
use snake_multiplayer.Engine.Update.{IsReady}
use snake_multiplayer.Client.Guided.{IsLaid}

abbrev pub grazer : Player
grazer = record {
  head =
      node (record { at = (pos 2, pos 2); prev = (pos 2, pos 3) })
        (end (record { at = (pos 2, pos 3); prev = (pos 2, pos 3) }));
  direction = b'^';
  next_direction = b'^';
  name = b'a' ∷ b'n' ∷ b'n' ∷ [];
  score = pos 2;
  color = pos 2;
  movement_frequency_ms = 200;
  next_move_time = pos 0;
  boosted = false;
  boost_expire_time = pos 0;
}

abbrev pub meadow : Game ℕ
meadow = record {
  width = pos 4;
  height = pos 3;
  movement_frequency_ms = 200;
  boosted_movement_frequency_ms = 133;
  boost_duration_ms = 8_000;
  current_tick = pos 0;
  gen = 0;
  high_score_name = [];
  high_score = pos 0;
  players = (pos 7, grazer) ∷ [];
  occupied = replicate 12 0;
  food = ((pos 4, pos 2), record { x = pos 4; y = pos 2; icon = b'@'; color = pos 1 }) ∷ [];
  speed_boosts = ((pos 1, pos 1), record { x = pos 1; y = pos 1; icon = b'%'; color = pos 1 }) ∷ [];
}

pub meadow-IsReady : IsReady 4 3 meadow
unfolding body left_cell get_segments head_link
meadow-IsReady = record {
  shape = record { width = refl; height = refl; size = refl };
  distinct = (tt, tt);
  settled = (
    record {
      steered = record {
        heads = inl refl;
        turns = inl refl;
        ahead = λ e. absurd (omega (arith, e));
      };
      inside = record {
        tracked = record {
          cells = ((omega arith, omega arith, omega arith, omega arith), tt);
          behind = (omega arith, omega arith, omega arith, omega arith);
        };
        head = (omega arith, omega arith, omega arith, omega arith);
      };
    },
    tt,
  );
}

pub meadow-IsLaid : IsLaid 4 3 meadow meadow-IsReady
meadow-IsLaid = record {
  food = ((omega arith, omega arith, omega arith, omega arith), tt);
  speed_boosts = ((omega arith, omega arith, omega arith, omega arith), tt);
}

abbrev pub a_header : Header
a_header = new_header MessageType.game_state (negsuc 0)

abbrev pub nothing_seen : GameState
nothing_seen = record {
  players = [];
  food = [];
  speed_boosts = [];
  server_high_score = (some [], pos 0);
}

pub meadow_message-IsGameState : IsGameState (record (build_game_state meadow) { hdr = a_header })
unfolding build_game_state strncpy_16 food_message food_messages player_messages get_segments
meadow_message-IsGameState = record {
  hdr = record {
    kind = refl;
    kind_fits = omega arith;
    client_id_fits = omega arith;
    sequence_fits = omega arith;
    transact_time_fits = omega arith;
  };
  high_score = omega arith;
  high_score_username = refl;
  food = (record { color = omega arith; x = omega arith; y = omega arith }, tt);
  food_count = omega arith;
  speed_boosts = (record { color = omega arith; x = omega arith; y = omega arith }, tt);
  speed_boost_count = omega arith;
  players = (
    record {
      client_id = omega arith;
      color = omega arith;
      score = omega arith;
      username = refl;
      segments = ((omega arith, omega arith), ((omega arith, omega arith), tt));
      segment_count = omega arith;
    },
    tt,
  );
  player_count = omega arith;
}

pub meadow_message_small :
    length (serialise (game_state (record (build_game_state meadow) { hdr = a_header })))
    ≤ client_recv_max_message_size
unfolding get_segments
meadow_message_small = omega (arith, length-build_game_state meadow a_header)
