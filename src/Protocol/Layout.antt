-- ===== src/Protocol/Layout.antt =====
-- The bytes of each message, field after field: what `serialise` leaves in the buffer, whether it
-- writes into a buffer of fixed size or appends.
use snake_multiplayer.Base.{
  ℕ, ◌%◌, ◌^◌, ◌≡◌, refl, sym, ◌∙◌, List, [], ◌∷◌, ◌++◌, length, drop, replicate, length-append,
  append_assoc, append-nil,
}
use snake_multiplayer.Protocol.Bytes.{
  i32_bytes, i64_bytes, u32_bytes, write_raw_bytes, cursor_at, resize,
}
use snake_multiplayer.Protocol.Bytes.Laws.{
  length-i32_bytes, length-i64_bytes, length-u32_bytes, cursor_at-resize, append_raw_bytes_lem,
}
use snake_multiplayer.Protocol.Types.{
  Header, ServerConfig, ClientInput, ClientJoin, Food, Segment, Player, GameState,
}
use snake_multiplayer.Protocol.Valid.{IsName}
use snake_multiplayer.Protocol.Write.{
  serialise_header, serialise_client_join, serialise_client_input, serialise_server_config,
  append_count, append_food, append_foods, append_segments, append_player, append_players,
  serialise_game_state,
}

ruleset lengths = (length-i32_bytes, length-i64_bytes, length-u32_bytes)

abbrev pub header_bytes : Header → List ℕ
header_bytes h =
    i32_bytes h.message_type
    ++ (i32_bytes h.client_id ++ (i64_bytes h.sequence ++ i64_bytes h.transact_time))

pub serialise_header_lem : (h : Header) → serialise_header h ≡ header_bytes h
unfolding serialise_header write_raw_bytes cursor_at resize
serialise_header_lem h = simp (lengths, append_assoc, append-nil)

pub length-serialise_header : (h : Header) → length (serialise_header h) ≡ 24
length-serialise_header h = rw (serialise_header_lem h) (simp (length-append, lengths))

pub client_join_layout :
    (m : ClientJoin)
    → IsName m.username
    → serialise_client_join m ≡ serialise_header m.hdr ++ m.username
unfolding serialise_client_join write_raw_bytes
client_join_layout m n =
    rw (cursor_at-resize 24 16 (serialise_header m.hdr) (length-serialise_header m.hdr), n)
      (rw append-nil)

pub client_input_layout :
    (m : ClientInput) → serialise_client_input m ≡ serialise_header m.hdr ++ (m.input ∷ [])
unfolding serialise_client_input write_raw_bytes
client_input_layout m =
    rw (cursor_at-resize 24 1 (serialise_header m.hdr) (length-serialise_header m.hdr))
      (rw append-nil)

abbrev pub server_config_bytes : ServerConfig → List ℕ
server_config_bytes m =
    i32_bytes m.width
    ++ (i32_bytes m.height
        ++ (u32_bytes m.seed
            ++ (i32_bytes m.min_food_in_arena
                ++ (i32_bytes m.food_spawn_from_body_segment_probability
                    ++ (i32_bytes m.speed_boost_probability
                        ++ (u32_bytes m.speed_boost_ratio
                            ++ (i64_bytes m.movement_frequency_ms
                                ++ (i64_bytes m.boosted_movement_frequency_ms
                                    ++ i64_bytes m.boost_duration_ms))))))))

-- The fields fill the packed size.
config_filled :
    drop {A = ℕ} 8 (
      drop 8
        (drop 8 (drop 4 (drop 4 (drop 4 (drop 4 (drop 4 (drop 4 (drop 4 (replicate 52 0))))))))))
    ≡ []
config_filled = refl

pub server_config_layout :
    (m : ServerConfig) → serialise_server_config m ≡ serialise_header m.hdr ++ server_config_bytes m
unfolding serialise_server_config write_raw_bytes
server_config_layout m =
    rw (cursor_at-resize 24 52 (serialise_header m.hdr) (length-serialise_header m.hdr))
      (simp (lengths, append_assoc, config_filled, append-nil))

abbrev pub count_bytes {ℓ} : {A : Type ℓ} → List A → List ℕ
count_bytes xs = u32_bytes (length xs % 2 ^ 32)

abbrev pub food_bytes : Food → List ℕ
food_bytes f = i32_bytes f.color ++ (f.icon ∷ (i32_bytes f.x ++ i32_bytes f.y))

abbrev pub segment_bytes : Segment → List ℕ
segment_bytes (x, y) = i32_bytes x ++ i32_bytes y

abbrev pub flat {ℓ} : {A : Type ℓ} → (A → List ℕ) → List A → List ℕ
flat f [] = []
flat f (x ∷ xs) = f x ++ flat f xs

abbrev pub player_bytes : Player → List ℕ
player_bytes p =
    i32_bytes p.client_id
    ++ (i32_bytes p.color
        ++ (p.direction
            ∷ (i32_bytes p.score
                ++ (p.username ++ (count_bytes p.segments ++ flat segment_bytes p.segments)))))

abbrev pub game_state_bytes : GameState → List ℕ
game_state_bytes m =
    i32_bytes m.high_score
    ++ (m.high_score_username
        ++ (count_bytes m.food
            ++ (flat food_bytes m.food
                ++ (count_bytes m.speed_boosts
                    ++ (flat food_bytes m.speed_boosts
                        ++ (count_bytes m.players ++ flat player_bytes m.players))))))

append_food_lem : (f : Food) (buf : List ℕ) → append_food f buf ≡ buf ++ food_bytes f
unfolding append_food
append_food_lem f buf = simp (append_raw_bytes_lem, append_assoc)

append_foods_lem : (fs : List Food) (buf : List ℕ) → append_foods fs buf ≡ buf ++ flat food_bytes fs
unfolding append_foods
append_foods_lem [] buf = sym (append-nil buf)
append_foods_lem (f ∷ fs) buf =
    append_foods_lem fs (append_food f buf) ∙ simp (append_food_lem, append_assoc)

append_segments_lem :
    (ss : List Segment) (buf : List ℕ) → append_segments ss buf ≡ buf ++ flat segment_bytes ss
unfolding append_segments
append_segments_lem [] buf = sym (append-nil buf)
append_segments_lem ((x, y) ∷ ss) buf =
    append_segments_lem ss _ ∙ simp (append_raw_bytes_lem, append_assoc)

append_player_lem : (p : Player) (buf : List ℕ) → append_player p buf ≡ buf ++ player_bytes p
unfolding append_player append_count
append_player_lem p buf = simp (append_segments_lem, append_raw_bytes_lem, append_assoc)

append_players_lem :
    (ps : List Player) (buf : List ℕ) → append_players ps buf ≡ buf ++ flat player_bytes ps
unfolding append_players
append_players_lem [] buf = sym (append-nil buf)
append_players_lem (p ∷ ps) buf =
    append_players_lem ps (append_player p buf) ∙ simp (append_player_lem, append_assoc)

pub game_state_layout :
    (m : GameState) → serialise_game_state m ≡ serialise_header m.hdr ++ game_state_bytes m
unfolding serialise_game_state append_count
game_state_layout m =
    simp (append_players_lem, append_foods_lem, append_raw_bytes_lem, append_assoc)
