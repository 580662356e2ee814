-- ===== src/Protocol/Reads.antt =====
-- Each reader takes back the bytes of its value and leaves what follows them.
use snake_multiplayer.Base.{
  ℕ, ◌%◌, ◌^◌, ◌≡◌, refl, ◌∙◌, List, [], ◌∷◌, ◌++◌, arith, length, All, ok, append_assoc,
}
use snake_multiplayer.Base.Int.{ℤ}
use snake_multiplayer.Protocol.Bytes.{IsU32, Reader, ◌>>=◌, read_u32}
use snake_multiplayer.Protocol.Bytes.Laws.{
  read_raw_bytes-append, read_i32-i32_bytes, read_i64-i64_bytes, read_u32-u32_bytes, read_char_lem,
  bind_ok,
}
use snake_multiplayer.Protocol.Types.{
  Header, ServerConfig, Food, Segment, Player, GameState, server_config, game_state,
}
use snake_multiplayer.Protocol.Valid.{
  IsHeaderOf, IsFood, IsSegment, IsPlayer, IsServerConfig, IsGameState,
}
use snake_multiplayer.Protocol.Read.{
  read_header, read_food, read_segment, read_times, read_player, read_game_state,
  read_server_config,
}
use snake_multiplayer.Protocol.Layout.{
  header_bytes, server_config_bytes, food_bytes, segment_bytes, flat, player_bytes, count_bytes,
  game_state_bytes,
}

abbrev pub Reads : {A : Type 0} → Reader A → List ℕ → A → Type 0
Reads p bs a = (rest : List ℕ) → p (bs ++ rest) ≡ ok (a, rest)

pub read_header-Reads : {t : ℤ} (h : Header) → IsHeaderOf t h → Reads read_header (header_bytes h) h
unfolding read_header
read_header-Reads h v rest = simp append_assoc (
    bind_ok _ _ (read_i32-i32_bytes h.message_type _ v.kind_fits)
    ∙ bind_ok _ _ (read_i32-i32_bytes h.client_id _ v.client_id_fits)
    ∙ bind_ok _ _ (read_i64-i64_bytes h.sequence _ v.sequence_fits)
    ∙ bind_ok _ _ (read_i64-i64_bytes h.transact_time _ v.transact_time_fits))

pub read_food-Reads : (f : Food) → IsFood f → Reads read_food (food_bytes f) f
unfolding read_food
read_food-Reads f v rest = simp append_assoc (
    bind_ok _ _ (read_i32-i32_bytes f.color _ v.color)
    ∙ bind_ok _ _ (read_char_lem f.icon _)
    ∙ bind_ok _ _ (read_i32-i32_bytes f.x _ v.x)
    ∙ bind_ok _ _ (read_i32-i32_bytes f.y _ v.y))

pub read_segment-Reads : (s : Segment) → IsSegment s → Reads read_segment (segment_bytes s) s
unfolding read_segment
read_segment-Reads (x, y) (hx, hy) rest =
    simp append_assoc
      (bind_ok _ _ (read_i32-i32_bytes x _ hx) ∙ bind_ok _ _ (read_i32-i32_bytes y _ hy))

-- A loop of reads, over as many values as were written.
pub read_times-Reads :
    {A : Type 0} (P : A → Type 0) (p : Reader A) (f : A → List ℕ)
    → ((a : A) → P a → Reads p (f a) a)
    → (xs : List A) → All P xs
    → Reads (read_times p (length xs)) (flat f xs) xs
unfolding read_times
read_times-Reads P p f each [] v rest = refl
read_times-Reads P p f each (x ∷ xs) v rest =
    simp append_assoc
      (bind_ok _ _ (each x v.0 _) ∙ bind_ok _ _ (read_times-Reads P p f each xs v.1 rest))

-- The count in front, which did not wrap, and the loop behind it.
counted-Reads :
    {A B : Type 0} (P : A → Type 0) (p : Reader A) (f : A → List ℕ) (k : List A → Reader B)
    → ((a : A) → P a → Reads p (f a) a)
    → (xs : List A) → All P xs
    → IsU32 (length xs)
    → (rest : List ℕ)
    → (do n ← read_u32; ys ← read_times p n; k ys) (count_bytes xs ++ (flat f xs ++ rest))
      ≡ k xs rest
counted-Reads P p f k each xs v fits rest =
    let small : length xs % 2 ^ 32 ≡ length xs = omega arith in
    rw small (
      bind_ok _ _ (read_u32-u32_bytes (length xs) _ fits)
      ∙ bind_ok _ _ (read_times-Reads P p f each xs v rest))

pub read_player-Reads : (p : Player) → IsPlayer p → Reads read_player (player_bytes p) p
unfolding read_player
read_player-Reads p v rest = simp append_assoc (
    bind_ok _ _ (read_i32-i32_bytes p.client_id _ v.client_id)
    ∙ bind_ok _ _ (read_i32-i32_bytes p.color _ v.color)
    ∙ bind_ok _ _ (read_char_lem p.direction _)
    ∙ bind_ok _ _ (read_i32-i32_bytes p.score _ v.score)
    ∙ bind_ok _ _ (read_raw_bytes-append 16 p.username _ v.username)
    ∙ counted-Reads IsSegment read_segment segment_bytes _ read_segment-Reads p.segments v.segments
        v.segment_count rest)

pub read_game_state-Reads :
    (m : GameState)
    → IsGameState m
    → Reads (read_game_state m.hdr) (game_state_bytes m) (game_state m)
unfolding read_game_state
read_game_state-Reads m v rest = simp append_assoc (
    bind_ok _ _ (read_i32-i32_bytes m.high_score _ v.high_score)
    ∙ bind_ok _ _ (read_raw_bytes-append 16 m.high_score_username _ v.high_score_username)
    ∙ counted-Reads IsFood read_food food_bytes _ read_food-Reads m.food v.food v.food_count _
    ∙ counted-Reads IsFood read_food food_bytes _ read_food-Reads m.speed_boosts v.speed_boosts
        v.speed_boost_count _
    ∙ counted-Reads IsPlayer read_player player_bytes _ read_player-Reads m.players v.players
        v.player_count rest)

pub read_server_config-Reads :
    (m : ServerConfig)
    → IsServerConfig m
    → Reads (read_server_config m.hdr) (server_config_bytes m) (server_config m)
unfolding read_server_config
read_server_config-Reads m v rest = simp append_assoc (
    bind_ok _ _ (read_i32-i32_bytes m.width _ v.width)
    ∙ bind_ok _ _ (read_i32-i32_bytes m.height _ v.height)
    ∙ bind_ok _ _ (read_u32-u32_bytes m.seed _ v.seed)
    ∙ bind_ok _ _ (read_i32-i32_bytes m.min_food_in_arena _ v.min_food)
    ∙ bind_ok _ _ (read_i32-i32_bytes m.food_spawn_from_body_segment_probability _ v.spawn)
    ∙ bind_ok _ _ (read_i32-i32_bytes m.speed_boost_probability _ v.boost)
    ∙ bind_ok _ _ (read_u32-u32_bytes m.speed_boost_ratio _ v.ratio)
    ∙ bind_ok _ _ (read_i64-i64_bytes m.movement_frequency_ms _ v.frequency)
    ∙ bind_ok _ _ (read_i64-i64_bytes m.boosted_movement_frequency_ms _ v.boosted_frequency)
    ∙ bind_ok _ _ (read_i64-i64_bytes m.boost_duration_ms _ v.duration))
