-- ===== src/Server/State.antt =====
-- The fields of `SnakeServer` beside the game, `stampMessage`, and `buildGameState`.
use snake_multiplayer.Base.{ℕ, Bool, List, [], ◌∷◌, ◌++◌, ◌==◌, take, replicate, if◌then◌else◌}
use snake_multiplayer.Base.Int.{ℤ, negsuc}
use snake_multiplayer.Snake.{Cell, get_segments}
use snake_multiplayer.Protocol.Types.{Header, Food, GameState, MessageVariant, header, with_header}
use snake_multiplayer.Protocol.Types as Protocol
use snake_multiplayer.Protocol.Types.MessageType
use snake_multiplayer.Engine.State.{Player, Item, Game}

-- What the server gives to the network: a message to one client, or to all.
pub data Sending : Type 0 where
  to_client : ℤ → List ℕ → Sending
  to_all : List ℕ → Sending

pub record SnakeServer (G : Type 0) : Type 0 where
  pub game : Game G
  pub current_sequence : ℤ
  pub message_log : List ℕ
  pub in_replay : Bool
  pub client_ids : List ℤ
  pub sent : List Sending

-- The bytes of a C string.
abbrev pub until_nul : List ℕ → List ℕ
until_nul [] = []
until_nul (b ∷ bs) = if b == 0 then [] else b ∷ until_nul bs

-- `std::strncpy` into a `char[16]`: cut, or filled up with zeros.
unfoldable pub strncpy_16 : List ℕ → List ℕ
strncpy_16 name = take 16 (until_nul name ++ replicate 16 0)

unfoldable pub food_message : Item → Food
food_message f = record { color = f.color; icon = f.icon; x = f.x; y = f.y }

unfoldable pub food_messages : List (Cell × Item) → List Food
food_messages [] = []
food_messages ((c, f) ∷ fs) = food_message f ∷ food_messages fs

unfoldable pub player_messages : List (ℤ × Player) → List Protocol.Player
player_messages [] = []
player_messages ((client_id, p) ∷ ps) =
    record {
      client_id = client_id;
      color = p.color;
      direction = p.direction;
      score = p.score;
      username = strncpy_16 p.name;
      segments = get_segments p.head;
    }
    ∷ player_messages ps

-- A header as `Header`'s initialisers leave it.
abbrev pub new_header : ℤ → ℤ → Header
new_header message_type client_id = record {
  message_type = message_type;
  client_id = client_id;
  sequence = negsuc 0;
  transact_time = negsuc 0;
}

module _ {G : Type 0} where
  unfoldable pub build_game_state : Game G → GameState
  build_game_state g = record {
    hdr = new_header MessageType.game_state (negsuc 0);
    high_score = g.high_score;
    high_score_username = strncpy_16 g.high_score_name;
    food = food_messages g.food;
    speed_boosts = food_messages g.speed_boosts;
    players = player_messages g.players;
  }

  unfoldable pub stamp_message : SnakeServer G → MessageVariant → MessageVariant
  stamp_message s msg =
      with_header msg
        (record (header msg) { sequence = s.current_sequence; transact_time = s.game.current_tick })
