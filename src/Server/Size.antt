-- ===== src/Server/Size.antt =====
-- How large the broadcast of a game is, against the limit of the clients.
use snake_multiplayer.Base.{
  ℕ, ◌+◌, ◌*◌, ◌≤◌, ◌≡◌, refl, List, [], ◌∷◌, ◌++◌, length, All, arith, replicate, length-append,
  length-take, length-replicate, ok,
}
use snake_multiplayer.Base.Int.{ℤ}
use snake_multiplayer.Snake.{Cell, get_segments}
use snake_multiplayer.Protocol.Types.{Header, game_state}
use snake_multiplayer.Protocol.Types as Protocol
use snake_multiplayer.Protocol.Valid.{IsName}
use snake_multiplayer.Protocol.Write.{serialise}
use snake_multiplayer.Protocol.Size.{segment_count, length-game_state}
use snake_multiplayer.Frame.Stream.{client_parse-frame}
use snake_multiplayer.Frame.{frame, client_parse, client_recv_max_message_size}
use snake_multiplayer.Engine.State.{Player, Item, Game}
use snake_multiplayer.Server.State.{
  until_nul, strncpy_16, food_messages, player_messages, build_game_state,
}

strncpy_16-IsName : (name : List ℕ) → IsName (strncpy_16 name)
unfolding strncpy_16
strncpy_16-IsName name = omega (
  arith,
  length-take 16 (until_nul name ++ replicate 16 0),
  length-append (until_nul name) (replicate 16 0),
  length-replicate {A = ℕ} 16 0,
)

names :
    (ps : List (ℤ × Player)) → All (λ (p : Protocol.Player). IsName p.username) (player_messages ps)
unfolding player_messages
names [] = tt
names ((id, p) ∷ ps) = (strncpy_16-IsName p.name, names ps)

length-food_messages : (fs : List (Cell × Item)) → length (food_messages fs) ≡ length fs
unfolding food_messages
length-food_messages [] = refl
length-food_messages ((c, f) ∷ fs) = omega (arith, length-food_messages fs)

length-player_messages : (ps : List (ℤ × Player)) → length (player_messages ps) ≡ length ps
unfolding player_messages
length-player_messages [] = refl
length-player_messages ((id, p) ∷ ps) = omega (arith, length-player_messages ps)

-- The segments of all snakes.
abbrev pub segments : List (ℤ × Player) → ℕ
segments [] = 0
segments ((id, p) ∷ ps) = length (get_segments p.head) + segments ps

segment_count-player_messages :
    (ps : List (ℤ × Player)) → segment_count (player_messages ps) ≡ segments ps
unfolding player_messages
segment_count-player_messages [] = refl
segment_count-player_messages ((id, p) ∷ ps) = omega (arith, segment_count-player_messages ps)

-- The bytes of the broadcast of a game, under any header.
abbrev pub broadcast_size : {G : Type 0} → Game G → ℕ
broadcast_size g =
    56
    + 13 * (length g.food + length g.speed_boosts)
    + 33 * length g.players
    + 8 * segments g.players

module _ {G : Type 0} (g : Game G) (header : Header) where
  pub length-build_game_state :
      length (serialise (game_state (record (build_game_state g) { hdr = header })))
      ≡ broadcast_size g
  unfolding build_game_state
  length-build_game_state = omega (
    arith,
    length-game_state (record (build_game_state g) { hdr = header })
        (strncpy_16-IsName g.high_score_name) (names g.players),
    length-food_messages g.food,
    length-food_messages g.speed_boosts,
    length-player_messages g.players,
    segment_count-player_messages g.players,
  )

  -- The broadcast of a game has 56 bytes, and 13 for each food and boost, 33 for each player and 8 for
  -- each segment of a snake. Where that is 32768 or less, the parser of a client with an empty buffer
  -- takes its frame whole, and nothing is left.
  pub broadcast-client_parse :
      broadcast_size g ≤ client_recv_max_message_size
      → (length (serialise (game_state (record (build_game_state g) { hdr = header })))
          ≡ broadcast_size g)
        × (client_parse []
              (frame (serialise (game_state (record (build_game_state g) { hdr = header }))))
            ≡ ok (serialise (game_state (record (build_game_state g) { hdr = header })) ∷ [], []))
  broadcast-client_parse small = (
    length-build_game_state,
    client_parse-frame (serialise (game_state (record (build_game_state g) { hdr = header })))
        (omega (arith, length-build_game_state)),
  )
