-- ===== src/Protocol/Size.antt =====
-- How long a GAME_STATE is.
use snake_multiplayer.Base.{ℕ, ◌+◌, ◌*◌, ◌≡◌, List, [], ◌∷◌, arith, length, All, length-append}
use snake_multiplayer.Protocol.Bytes.Laws.{length-i32_bytes, length-u32_bytes}
use snake_multiplayer.Protocol.Types.{Food, Segment, Player, GameState, game_state}
use snake_multiplayer.Protocol.Valid.{IsName}
use snake_multiplayer.Protocol.Write.{serialise}
use snake_multiplayer.Protocol.Layout.{
  length-serialise_header, food_bytes, segment_bytes, player_bytes, flat, game_state_layout,
}

ruleset sizes = (length-append, length-i32_bytes, length-u32_bytes)

length-foods : (fs : List Food) → length (flat food_bytes fs) ≡ 13 * length fs
length-foods [] = omega arith
length-foods (f ∷ fs) = simp sizes (omega (arith, length-foods fs))

length-segments : (ss : List Segment) → length (flat segment_bytes ss) ≡ 8 * length ss
length-segments [] = omega arith
length-segments ((x, y) ∷ ss) = simp sizes (omega (arith, length-segments ss))

-- The segments of all players.
abbrev pub segment_count : List Player → ℕ
segment_count [] = 0
segment_count (p ∷ ps) = length p.segments + segment_count ps

length-players :
    (ps : List Player)
    → All (λ (p : Player). IsName p.username) ps
    → length (flat player_bytes ps) ≡ 33 * length ps + 8 * segment_count ps
length-players [] v = omega arith
length-players (p ∷ ps) (v, vs) =
    simp sizes (omega (arith, v, length-segments p.segments, length-players ps vs))

pub length-game_state :
    (m : GameState)
    → IsName m.high_score_username
    → All (λ (p : Player). IsName p.username) m.players
    → length (serialise (game_state m))
      ≡ 56
        + 13 * (length m.food + length m.speed_boosts)
        + 33 * length m.players
        + 8 * segment_count m.players
unfolding serialise
length-game_state m v vs =
    simp (game_state_layout, sizes)
      (omega (
        arith,
        v,
        length-serialise_header m.hdr,
        length-foods m.food,
        length-foods m.speed_boosts,
        length-players m.players vs,
      ))
