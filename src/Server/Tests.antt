-- ===== src/Server/Tests.antt =====
-- A round in which a client joins a live server.
mod Connections
mod Start
use snake_multiplayer.Base.{
  ℕ, suc, zero, ◌≡◌, arith, refl, inr, false, List, [], ◌∷◌, replicate, Result, ok, err,
}
use snake_multiplayer.Base.Int.{pos, ◌+ℤ◌}
use snake_multiplayer.Base.Map.{contains, emplace, lookup, modify}
use snake_multiplayer.Snake.{Cell, get_segments}
use snake_multiplayer.Protocol.Types.{MessageVariant, header, with_header, client_join}
use snake_multiplayer.Protocol.Types.MessageType
use snake_multiplayer.Engine.State.{Item, Game, Draw, after_ms}
use snake_multiplayer.Engine.Move.{
  clear, expire_boost, player_at, set_player, update_occupied_cells, update_snake, update_loop,
  update_snakes, bump_all,
}
use snake_multiplayer.Engine.Food.{replace_food, create_new_player}
use snake_multiplayer.Engine.Tick.{advance}
use snake_multiplayer.Server.State.{SnakeServer, new_header, stamp_message}
use snake_multiplayer.Server.Handle.{
  record_message, send_to_client, handle_client_join, dispatch, handle_message, handle_messages,
  run_once,
}
use snake_multiplayer.Server.Records.{RoundRecorded, run_once-Recorded}
use snake_multiplayer.Engine.Update.{IsReady}
use snake_multiplayer.Engine.Reach.{InRange}
use snake_multiplayer.Server.Total.{Steady, run_once-Steady}
use snake_multiplayer.Server.Replay.{in_silence, run_once-in_silence}

abbrev lowest : Draw ℕ
lowest lo hi gen = (lo, gen)

lowest-InRange : InRange lowest
lowest-InRange lo hi gen le = (omega arith, le)

abbrev food_row : ℕ → List (Cell × Item)
food_row zero = []
food_row (suc n) =
    ((pos (suc n), pos 1), record { x = pos (suc n); y = pos 1; icon = b'@'; color = pos 1 })
    ∷ food_row n

abbrev a_game : Game ℕ
a_game = record {
  width = pos 12;
  height = pos 12;
  movement_frequency_ms = 200;
  boosted_movement_frequency_ms = 133;
  boost_duration_ms = 8_000;
  current_tick = pos 0;
  gen = 0;
  high_score_name = [];
  high_score = pos 0;
  players = [];
  occupied = replicate 144 0;
  food = food_row 6;
  speed_boosts = [];
}

abbrev a_server : SnakeServer ℕ
a_server = record {
  game = a_game;
  current_sequence = pos 1;
  message_log = [];
  in_replay = false;
  client_ids = pos 5 ∷ [];
  sent = [];
}

abbrev a_join : MessageVariant
a_join =
    client_join (record {
      hdr = new_header MessageType.client_join (pos 5);
      username = b'a' ∷ replicate 15 0;
    })

-- The server that comes out, or the one that went in.
abbrev outcome : Result (SnakeServer ℕ) → SnakeServer ℕ
outcome (ok s) = s
outcome (err e) = a_server

joined-ok :
    run_once lowest 0 a_server (a_join ∷ [])
    ≡ ok (outcome (run_once lowest 0 a_server (a_join ∷ [])))
unfolding run_once replace_food handle_messages handle_message dispatch stamp_message with_header
    header record_message handle_client_join send_to_client create_new_player emplace contains
    advance update_snakes update_loop update_snake clear expire_boost player_at lookup set_player
    modify update_occupied_cells get_segments bump_all after_ms ◌+ℤ◌
joined-ok = refl

run_once-Recorded_example :
    RoundRecorded a_server (outcome (run_once lowest 0 a_server (a_join ∷ []))) (a_join ∷ [])
run_once-Recorded_example =
    run_once-Recorded lowest 0 a_server (outcome (run_once lowest 0 a_server (a_join ∷ [])))
      (a_join ∷ []) joined-ok

run_once-in_silence_example :
    run_once lowest 0 (in_silence a_server) (a_join ∷ [])
    ≡ ok (in_silence (outcome (run_once lowest 0 a_server (a_join ∷ []))))
run_once-in_silence_example =
    run_once-in_silence lowest 0 a_server (outcome (run_once lowest 0 a_server (a_join ∷ [])))
      (a_join ∷ []) joined-ok

a_game-IsReady : IsReady 12 12 a_game
a_game-IsReady = record {
  shape = record { width = refl; height = refl; size = refl };
  distinct = tt;
  settled = tt;
}

full-ok : replace_food lowest 0 a_game ≡ ok a_game
unfolding replace_food
full-ok = refl

run_once-Steady_example :
    (t : SnakeServer ℕ) × (run_once lowest 0 a_server (a_join ∷ []) ≡ ok t)
    × Steady 12 12 a_server t
unfolding header
run_once-Steady_example =
    run_once-Steady 12 12 lowest lowest-InRange (omega arith) (omega arith) 0 a_server a_game
      (a_join ∷ []) full-ok (inr refl, tt) a_game-IsReady
