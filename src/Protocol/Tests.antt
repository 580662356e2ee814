-- ===== src/Protocol/Tests.antt =====
-- Messages as the game sends them, through the theorems on the codec.
use snake_multiplayer.Base.{ℕ, ◌≡◌, refl, List, [], ◌∷◌, arith, replicate, ok, err, truncated_frame}
use snake_multiplayer.Base.Int.{ℤ, pos, negsuc}
use snake_multiplayer.Protocol.Types.{
  Header, Food, Player, GameState, ClientInput, header, with_header, client_input, game_state,
}
use snake_multiplayer.Protocol.Valid.{IsHeaderOf, IsFood, IsGameState}
use snake_multiplayer.Protocol.Types.MessageType
use snake_multiplayer.Protocol.Write.{serialise}
use snake_multiplayer.Protocol.Read.{deserialise, deserialise_from}
use snake_multiplayer.Protocol.RoundTrip.{deserialise-serialise, deserialise_from-serialise}
use snake_multiplayer.Protocol.Kinds.{kind, deserialise_kind, deserialise_short}

abbrev a_header : ℤ → Header
a_header t = record {
  message_type = t;
  client_id = pos 7;
  sequence = negsuc 0;
  transact_time = pos 1_000_000;
}

abbrev a_name : List ℕ
a_name = 97 ∷ 108 ∷ replicate 14 0

abbrev an_input : ClientInput
an_input = record { hdr = a_header MessageType.client_input; input = b'v' }

an_input-IsHeaderOf : IsHeaderOf MessageType.client_input an_input.hdr
an_input-IsHeaderOf = record {
  kind = refl;
  kind_fits = omega arith;
  client_id_fits = omega arith;
  sequence_fits = omega arith;
  transact_time_fits = omega arith;
}

abbrev some_food : Food
some_food = record { color = pos 1; icon = b'@'; x = pos 3; y = pos 9 }

abbrev a_player : Player
a_player = record {
  client_id = pos 7;
  color = pos 4;
  direction = b'<';
  score = pos 2;
  username = a_name;
  segments = (pos 5, pos 5) ∷ (pos 6, pos 5) ∷ [];
}

abbrev a_state : GameState
a_state = record {
  hdr = a_header MessageType.game_state;
  high_score = pos 12;
  high_score_username = a_name;
  food = some_food ∷ some_food ∷ [];
  speed_boosts = [];
  players = a_player ∷ [];
}

a_state-IsGameState : IsGameState a_state
a_state-IsGameState = record {
  hdr = record {
    kind = refl;
    kind_fits = omega arith;
    client_id_fits = omega arith;
    sequence_fits = omega arith;
    transact_time_fits = omega arith;
  };
  high_score = omega arith;
  high_score_username = refl;
  food = (food, (food, tt));
  food_count = omega arith;
  speed_boosts = tt;
  speed_boost_count = omega arith;
  players = (
    record {
      client_id = omega arith;
      color = omega arith;
      score = omega arith;
      username = refl;
      segments = ((omega arith, omega arith), ((omega arith, omega arith), tt));
      segment_count = omega arith;
    },
    tt,
  );
  player_count = omega arith;
}
  where
    food : IsFood some_food
    food = record { color = omega arith; x = omega arith; y = omega arith }

deserialise-serialise_example :
    deserialise (serialise (game_state a_state)) ≡ ok (game_state a_state)
deserialise-serialise_example = deserialise-serialise (game_state a_state) a_state-IsGameState

deserialise_from-serialise_example :
    deserialise_from (serialise (client_input an_input)) (pos 9)
    ≡ ok (
        with_header
          (client_input an_input)
          (record (header (client_input an_input)) { client_id = pos 9 }))
deserialise_from-serialise_example =
    deserialise_from-serialise (client_input an_input) (pos 9) an_input-IsHeaderOf

deserialise_kind_example : (header (game_state a_state)).message_type ≡ kind (game_state a_state)
deserialise_kind_example =
    deserialise_kind (serialise (game_state a_state)) (game_state a_state)
      (deserialise-serialise (game_state a_state) a_state-IsGameState)

deserialise_short_example : deserialise (1 ∷ 0 ∷ 0 ∷ 0 ∷ []) ≡ err truncated_frame
deserialise_short_example = deserialise_short (1 ∷ 0 ∷ 0 ∷ 0 ∷ []) (omega arith)
