-- ===== src/Protocol/Valid.antt =====
-- The values that the C++ types of include/common/Protocol.h can hold.
use snake_multiplayer.Base.{ℕ, ◌≡◌, List, length, All}
use snake_multiplayer.Base.Int.{ℤ}
use snake_multiplayer.Protocol.Bytes.{IsI32, IsI64, IsU32}
use snake_multiplayer.Protocol.Types.{
  Header, ServerConfig, Food, Segment, Player, GameState, MessageVariant, server_config,
  client_input, client_disconnect, server_welcome, client_join, game_state,
}
use snake_multiplayer.Protocol.Types.MessageType

-- The four fields fit, and the type is the one that goes with the message.
pub record IsHeaderOf (message_type : ℤ) (h : Header) : Type 0 where
  pub kind : h.message_type ≡ message_type
  pub kind_fits : IsI32 h.message_type
  pub client_id_fits : IsI32 h.client_id
  pub sequence_fits : IsI64 h.sequence
  pub transact_time_fits : IsI64 h.transact_time

-- A `char[16]`.
abbrev pub IsName : List ℕ → Type 0
IsName name = length name ≡ 16

pub record IsServerConfig (m : ServerConfig) : Type 0 where
  pub hdr : IsHeaderOf MessageType.server_config m.hdr
  pub width : IsI32 m.width
  pub height : IsI32 m.height
  pub seed : IsU32 m.seed
  pub min_food : IsI32 m.min_food_in_arena
  pub spawn : IsI32 m.food_spawn_from_body_segment_probability
  pub boost : IsI32 m.speed_boost_probability
  pub ratio : IsU32 m.speed_boost_ratio
  pub frequency : IsI64 m.movement_frequency_ms
  pub boosted_frequency : IsI64 m.boosted_movement_frequency_ms
  pub duration : IsI64 m.boost_duration_ms

pub record IsFood (f : Food) : Type 0 where
  pub color : IsI32 f.color
  pub x : IsI32 f.x
  pub y : IsI32 f.y

abbrev pub IsSegment : Segment → Type 0
IsSegment (x, y) = IsI32 x × IsI32 y

pub record IsPlayer (p : Player) : Type 0 where
  pub client_id : IsI32 p.client_id
  pub color : IsI32 p.color
  pub score : IsI32 p.score
  pub username : IsName p.username
  pub segments : All IsSegment p.segments
  pub segment_count : IsU32 (length p.segments)

pub record IsGameState (m : GameState) : Type 0 where
  pub hdr : IsHeaderOf MessageType.game_state m.hdr
  pub high_score : IsI32 m.high_score
  pub high_score_username : IsName m.high_score_username
  pub food : All IsFood m.food
  pub food_count : IsU32 (length m.food)
  pub speed_boosts : All IsFood m.speed_boosts
  pub speed_boost_count : IsU32 (length m.speed_boosts)
  pub players : All IsPlayer m.players
  pub player_count : IsU32 (length m.players)

abbrev pub IsMessage : MessageVariant → Type 0
IsMessage (server_config m) = IsServerConfig m
IsMessage (client_input m) = IsHeaderOf MessageType.client_input m.hdr
IsMessage (client_disconnect m) = IsHeaderOf MessageType.client_disconnect m.hdr
IsMessage (server_welcome m) = IsHeaderOf MessageType.server_welcome m.hdr
IsMessage (client_join m) = IsHeaderOf MessageType.client_join m.hdr × IsName m.username
IsMessage (game_state m) = IsGameState m
