-- ===== src/Protocol/Read.antt =====
-- `deserialiseHeader` and `deserialise` of include/common/Protocol.h. `reserve` is not modelled: it
-- changes no value, and allocation is taken to succeed.
use snake_multiplayer.Base.{
  ℕ, zero, suc, List, [], ◌∷◌, length, drop, ◌==◌, if◌then◌else◌, Result, ok, err, unexpected_size,
  invalid_message_type,
}
use snake_multiplayer.Base.Int.{ℤ, ◌==ℤ◌}
use snake_multiplayer.Base.{◌>>=◌ as ◌then◌}
use snake_multiplayer.Protocol.Bytes.{
  Reader, ◌>>=◌, return, read_raw_bytes, read_i32, read_i64, read_u32, read_char,
}
use snake_multiplayer.Protocol.Types.{
  Header, Food, Segment, Player, MessageVariant, server_config, client_input, client_disconnect,
  server_welcome, client_join, game_state, header_packed_size, server_config_packed_size,
  client_input_packed_size, client_join_packed_size, client_disconnect_packed_size,
  server_welcome_packed_size, header, with_header,
}
use snake_multiplayer.Protocol.Types.MessageType

unfoldable pub read_header : Reader Header
read_header = do
  message_type ← read_i32
  client_id ← read_i32
  sequence ← read_i64
  transact_time ← read_i64
  return (record {
    message_type = message_type;
    client_id = client_id;
    sequence = sequence;
    transact_time = transact_time;
  })

unfoldable pub read_food : Reader Food
read_food = do
  color ← read_i32
  icon ← read_char
  x ← read_i32
  y ← read_i32
  return (record { color = color; icon = icon; x = x; y = y })

unfoldable pub read_segment : Reader Segment
read_segment = do x ← read_i32; y ← read_i32; return (x, y)

-- `for (uint32_t i = 0; i < count; i++)`, each round pushing what it read.
unfoldable pub read_times : {A : Type 0} → Reader A → ℕ → Reader (List A)
read_times p zero = return []
read_times p (suc n) = do x ← p; xs ← read_times p n; return (x ∷ xs)

unfoldable pub read_player : Reader Player
read_player = do
  client_id ← read_i32
  color ← read_i32
  direction ← read_char
  score ← read_i32
  username ← read_raw_bytes 16
  segment_count ← read_u32
  segments ← read_times read_segment segment_count
  return (record {
    client_id = client_id;
    color = color;
    direction = direction;
    score = score;
    username = username;
    segments = segments;
  })

unfoldable pub read_game_state : Header → Reader MessageVariant
read_game_state hdr = do
  high_score ← read_i32
  high_score_username ← read_raw_bytes 16
  food_count ← read_u32
  food ← read_times read_food food_count
  speed_boost_count ← read_u32
  speed_boosts ← read_times read_food speed_boost_count
  player_count ← read_u32
  players ← read_times read_player player_count
  return (
      game_state (record {
        hdr = hdr;
        high_score = high_score;
        high_score_username = high_score_username;
        food = food;
        speed_boosts = speed_boosts;
        players = players;
      }))

unfoldable pub read_server_config : Header → Reader MessageVariant
read_server_config hdr = do
  width ← read_i32
  height ← read_i32
  seed ← read_u32
  min_food_in_arena ← read_i32
  food_spawn_from_body_segment_probability ← read_i32
  speed_boost_probability ← read_i32
  speed_boost_ratio ← read_u32
  movement_frequency_ms ← read_i64
  boosted_movement_frequency_ms ← read_i64
  boost_duration_ms ← read_i64
  return (
      server_config (record {
        hdr = hdr;
        width = width;
        height = height;
        seed = seed;
        min_food_in_arena = min_food_in_arena;
        food_spawn_from_body_segment_probability = food_spawn_from_body_segment_probability;
        speed_boost_probability = speed_boost_probability;
        speed_boost_ratio = speed_boost_ratio;
        movement_frequency_ms = movement_frequency_ms;
        boosted_movement_frequency_ms = boosted_movement_frequency_ms;
        boost_duration_ms = boost_duration_ms;
      }))

unfoldable pub read_client_join : Header → Reader MessageVariant
read_client_join hdr = do
  username ← read_raw_bytes 16
  return (client_join (record { hdr = hdr; username = username }))

unfoldable pub read_client_input : Header → Reader MessageVariant
read_client_input hdr = do
  input ← read_char
  return (client_input (record { hdr = hdr; input = input }))

-- The message behind the header: its kind of read, and the size that its frame must have.
abbrev pub sized : List ℕ → ℕ → Reader MessageVariant → Reader MessageVariant
sized buf size p raw = if length buf == size then p raw else err unexpected_size

-- The `switch` on the message type.
unfoldable pub read_body : Header → List ℕ → Reader MessageVariant
read_body hdr buf raw =
    if hdr.message_type ==ℤ MessageType.client_join
    then sized buf client_join_packed_size (read_client_join hdr) raw
    else if hdr.message_type ==ℤ MessageType.client_disconnect
    then sized buf client_disconnect_packed_size (return (client_disconnect (record { hdr = hdr })))
        raw
    else if hdr.message_type ==ℤ MessageType.server_welcome
    then sized buf server_welcome_packed_size (return (server_welcome (record { hdr = hdr }))) raw
    else if hdr.message_type ==ℤ MessageType.client_input
    then sized buf client_input_packed_size (read_client_input hdr) raw
    else if hdr.message_type ==ℤ MessageType.server_config
    then sized buf server_config_packed_size (read_server_config hdr) raw
    else if hdr.message_type ==ℤ MessageType.game_state
    then read_game_state hdr raw
    else err invalid_message_type

-- What the reader leaves unread is ignored.
unfoldable pub deserialise : List ℕ → Result MessageVariant
deserialise buf = elim (read_header buf) [
  | err e ↦ err e
  | ok (hdr, _) ↦ elim (read_body hdr buf (drop header_packed_size buf)) [
    | err e ↦ err e
    | ok (msg, _) ↦ ok msg
  ]
]

-- The overload for frames of a client: the connection's id replaces the one in the frame.
unfoldable pub deserialise_from : List ℕ → ℤ → Result MessageVariant
deserialise_from buf client_id = elim (deserialise buf) [
  | err e ↦ err e
  | ok msg ↦ ok (with_header msg (record (header msg) { client_id = client_id }))
]
