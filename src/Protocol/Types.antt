-- ===== src/Protocol/Types.antt =====
-- The message structs of include/common/Protocol.h. A `char` is a number below 256, a `char[16]` a
-- list of 16 of them, a `float` its 32 bits. `message_type` is an `int32_t`: a frame may hold any.
pub mod MessageType
use snake_multiplayer.Base.{ℕ, ◌+◌, ◌≡◌, List, length, All}
use snake_multiplayer.Base.Int.{ℤ}
use snake_multiplayer.Protocol.Bytes.{IsByte, IsI32, IsI64, IsU32}

pub record Header : Type 0 where
  pub message_type : ℤ
  pub client_id : ℤ
  pub sequence : ℤ
  pub transact_time : ℤ

pub record ServerConfig : Type 0 where
  pub hdr : Header
  pub width : ℤ
  pub height : ℤ
  pub seed : ℕ
  pub min_food_in_arena : ℤ
  pub food_spawn_from_body_segment_probability : ℤ
  pub speed_boost_probability : ℤ
  pub speed_boost_ratio : ℕ
  pub movement_frequency_ms : ℤ
  pub boosted_movement_frequency_ms : ℤ
  pub boost_duration_ms : ℤ

pub record ClientInput : Type 0 where
  pub hdr : Header
  pub input : ℕ

pub record ClientDisconnect : Type 0 where
  pub hdr : Header

pub record ServerWelcome : Type 0 where
  pub hdr : Header

pub record ClientJoin : Type 0 where
  pub hdr : Header
  pub username : List ℕ

-- `GameState::Food`, and `GameState::SpeedBoost`, which is the same type.
pub record Food : Type 0 where
  pub color : ℤ
  pub icon : ℕ
  pub x : ℤ
  pub y : ℤ

abbrev pub Segment : Type 0
Segment = ℤ × ℤ

-- `GameState::Player`.
pub record Player : Type 0 where
  pub client_id : ℤ
  pub color : ℤ
  pub direction : ℕ
  pub score : ℤ
  pub username : List ℕ
  pub segments : List Segment

pub record GameState : Type 0 where
  pub hdr : Header
  pub high_score : ℤ
  pub high_score_username : List ℕ
  pub food : List Food
  pub speed_boosts : List Food
  pub players : List Player

pub data MessageVariant : Type 0 where
  server_config : ServerConfig → MessageVariant
  client_input : ClientInput → MessageVariant
  client_disconnect : ClientDisconnect → MessageVariant
  server_welcome : ServerWelcome → MessageVariant
  client_join : ClientJoin → MessageVariant
  game_state : GameState → MessageVariant

-- `header(msg)`, to read; and the message with the header that is assigned through it.
unfoldable pub header : MessageVariant → Header
header (server_config m) = m.hdr
header (client_input m) = m.hdr
header (client_disconnect m) = m.hdr
header (server_welcome m) = m.hdr
header (client_join m) = m.hdr
header (game_state m) = m.hdr

unfoldable pub with_header : MessageVariant → Header → MessageVariant
with_header (server_config m) h = server_config (record m { hdr = h })
with_header (client_input m) h = client_input (record m { hdr = h })
with_header (client_disconnect m) h = client_disconnect (record m { hdr = h })
with_header (server_welcome m) h = server_welcome (record m { hdr = h })
with_header (client_join m) h = client_join (record m { hdr = h })
with_header (game_state m) h = game_state (record m { hdr = h })

-- The packed sizes.
abbrev pub header_packed_size : ℕ
header_packed_size = 24

abbrev pub server_config_packed_size : ℕ
server_config_packed_size = 76

abbrev pub client_input_packed_size : ℕ
client_input_packed_size = 25

abbrev pub client_disconnect_packed_size : ℕ
client_disconnect_packed_size = 24

abbrev pub server_welcome_packed_size : ℕ
server_welcome_packed_size = 24

abbrev pub client_join_packed_size : ℕ
client_join_packed_size = 40
