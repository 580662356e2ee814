-- ===== src/Protocol/Write.antt =====
-- `serialiseHeader` and `serialise` of include/common/Protocol.h.
use snake_multiplayer.Base.{ℕ, ◌%◌, ◌^◌, List, [], ◌∷◌, length}
use snake_multiplayer.Protocol.Bytes.{
  i32_bytes, i64_bytes, u32_bytes, Cursor, write_raw_bytes, buffer, resize, append_raw_bytes,
  cursor_at,
}
use snake_multiplayer.Protocol.Types.{
  Header, ServerConfig, ClientInput, ClientJoin, Food, Segment, Player, GameState, MessageVariant,
  server_config, client_input, client_disconnect, server_welcome, client_join, game_state,
  header_packed_size, server_config_packed_size, client_input_packed_size, client_join_packed_size,
}

-- Writes in a row through one pointer.
abbrev pub write_all : List (List ℕ) → Cursor → Cursor
write_all [] raw = raw
write_all (s ∷ ss) raw = write_all ss (write_raw_bytes s raw)

unfoldable pub serialise_header : Header → List ℕ
serialise_header msg = buffer (write_all fields (cursor_at 0 (resize header_packed_size [])))
  where
    fields : List (List ℕ)
    fields =
        i32_bytes msg.message_type
        ∷ i32_bytes msg.client_id
        ∷ i64_bytes msg.sequence
        ∷ i64_bytes msg.transact_time
        ∷ []

-- The buffer behind the header is resized to `size`, and the fields are written there.
abbrev after_header : Header → ℕ → List (List ℕ) → List ℕ
after_header hdr size fields =
    buffer (write_all fields (cursor_at header_packed_size (resize size (serialise_header hdr))))

unfoldable pub serialise_client_join : ClientJoin → List ℕ
serialise_client_join msg = after_header msg.hdr client_join_packed_size (msg.username ∷ [])

unfoldable pub serialise_client_input : ClientInput → List ℕ
serialise_client_input msg = after_header msg.hdr client_input_packed_size ((msg.input ∷ []) ∷ [])

unfoldable pub serialise_server_config : ServerConfig → List ℕ
serialise_server_config msg = after_header msg.hdr server_config_packed_size (
    i32_bytes msg.width
    ∷ i32_bytes msg.height
    ∷ u32_bytes msg.seed
    ∷ i32_bytes msg.min_food_in_arena
    ∷ i32_bytes msg.food_spawn_from_body_segment_probability
    ∷ i32_bytes msg.speed_boost_probability
    ∷ u32_bytes msg.speed_boost_ratio
    ∷ i64_bytes msg.movement_frequency_ms
    ∷ i64_bytes msg.boosted_movement_frequency_ms
    ∷ i64_bytes msg.boost_duration_ms
    ∷ [])

-- `static_cast<uint32_t>(v.size())`, appended.
unfoldable pub append_count {ℓ} : {A : Type ℓ} → List A → List ℕ → List ℕ
append_count xs buf = append_raw_bytes (u32_bytes (length xs % 2 ^ 32)) buf

unfoldable pub append_food : Food → List ℕ → List ℕ
append_food f buf =
    let buf1 = append_raw_bytes (i32_bytes f.color) buf in
    let buf2 = append_raw_bytes (f.icon ∷ []) buf1 in
    append_raw_bytes (i32_bytes f.y) (append_raw_bytes (i32_bytes f.x) buf2)

unfoldable pub append_foods : List Food → List ℕ → List ℕ
append_foods [] buf = buf
append_foods (f ∷ fs) buf = append_foods fs (append_food f buf)

unfoldable pub append_segments : List Segment → List ℕ → List ℕ
append_segments [] buf = buf
append_segments ((x, y) ∷ ss) buf =
    append_segments ss (append_raw_bytes (i32_bytes y) (append_raw_bytes (i32_bytes x) buf))

unfoldable pub append_player : Player → List ℕ → List ℕ
append_player p buf =
    let buf1 = append_raw_bytes (i32_bytes p.client_id) buf in
    let buf2 = append_raw_bytes (i32_bytes p.color) buf1 in
    let buf3 = append_raw_bytes (p.direction ∷ []) buf2 in
    let buf4 = append_raw_bytes (i32_bytes p.score) buf3 in
    let buf5 = append_raw_bytes p.username buf4 in
    append_segments p.segments (append_count p.segments buf5)

unfoldable pub append_players : List Player → List ℕ → List ℕ
append_players [] buf = buf
append_players (p ∷ ps) buf = append_players ps (append_player p buf)

unfoldable pub serialise_game_state : GameState → List ℕ
serialise_game_state msg =
    let buf = serialise_header msg.hdr in
    let buf1 = append_raw_bytes (i32_bytes msg.high_score) buf in
    let buf2 = append_raw_bytes msg.high_score_username buf1 in
    let buf3 = append_foods msg.food (append_count msg.food buf2) in
    let buf4 = append_foods msg.speed_boosts (append_count msg.speed_boosts buf3) in
    append_players msg.players (append_count msg.players buf4)

unfoldable pub serialise : MessageVariant → List ℕ
serialise (server_config m) = serialise_server_config m
serialise (client_input m) = serialise_client_input m
serialise (client_disconnect m) = serialise_header m.hdr
serialise (server_welcome m) = serialise_header m.hdr
serialise (client_join m) = serialise_client_join m
serialise (game_state m) = serialise_game_state m
