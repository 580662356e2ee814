-- ===== src/Client/GameState.antt =====
-- include/snake_client/GameState.h: what a client keeps of a GAME_STATE message.
use snake_multiplayer.Base.{ℕ, List, [], ◌∷◌, map, Option, none, some, ◌==◌, if◌then◌else◌}
use mathlib.Core.Option as Option
use snake_multiplayer.Base.Int.{ℤ}
use snake_multiplayer.Base.Map.{assign, int_key}
use snake_multiplayer.Snake.{Cell}
use snake_multiplayer.Protocol.Types as Protocol

pub record PlayerData : Type 0 where
  pub client_id : ℤ
  pub direction : ℕ
  pub name : Option (List ℕ)
  pub score : ℤ
  pub color : ℤ
  pub segments : List Cell

-- `FoodData`, and `SpeedBoostsData`, which has the same fields.
pub record FoodData : Type 0 where
  pub x : ℤ
  pub y : ℤ
  pub icon : ℕ
  pub color : ℤ

pub record GameState : Type 0 where
  pub players : List (ℤ × PlayerData)
  pub food : List FoodData
  pub speed_boosts : List FoodData
  pub server_high_score : Option (List ℕ) × ℤ

-- A `char[16]` is read as a C string, up to its first 0. `none` is what C++ leaves undefined: where no
-- byte of the array is 0, the code reads past its end.
unfoldable pub c_string : List ℕ → Option (List ℕ)
c_string [] = none
c_string (b ∷ bs) = if b == 0 then some [] else Option.map (λ (cs : List ℕ). b ∷ cs) (c_string bs)

unfoldable pub player_data : Protocol.Player → PlayerData
player_data p = record {
  client_id = p.client_id;
  direction = p.direction;
  name = c_string p.username;
  score = p.score;
  color = p.color;
  segments = p.segments;
}

unfoldable pub food_data : Protocol.Food → FoodData
food_data f = record { x = f.x; y = f.y; icon = f.icon; color = f.color }

-- The loop over `msg.players`, whose later entries overwrite earlier ones of the same id.
unfoldable pub add_players : List (ℤ × PlayerData) → List Protocol.Player → List (ℤ × PlayerData)
add_players players [] = players
add_players players (p ∷ ps) = add_players (assign p.client_id (player_data p) players) ps

unfoldable pub from_protocol : Protocol.GameState → GameState
from_protocol msg = record {
  players = add_players [] msg.players;
  food = map food_data msg.food;
  speed_boosts = map food_data msg.speed_boosts;
  server_high_score = (c_string msg.high_score_username, msg.high_score);
}
