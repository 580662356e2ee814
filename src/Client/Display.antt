-- ===== src/Client/Display.antt =====
-- The screen of a client that was told a game by the server.
use snake_multiplayer.Base.{ℕ, ◌≡◌, refl, inl, inr, List, [], ◌∷◌, All, some, Bool-cases}
use snake_multiplayer.Base.Int.{ℤ, ◌==ℤ◌}
use snake_multiplayer.Base.Map.{contains, modify, assign, int_key}
use snake_multiplayer.Snake.{Cell, PlayerNode, end, node, get_segments}
use snake_multiplayer.Engine.State.{Player, Game}
use snake_multiplayer.Server.State.{player_messages, build_game_state}
use snake_multiplayer.Client.GameState.{PlayerData, player_data, add_players, from_protocol}
use snake_multiplayer.Client.Screen.{Drawn, render}
use snake_multiplayer.Client.Screen.Rendered.{HasHead, IsRendered, render-IsRendered}

get_segments_head :
    (n : PlayerNode) → (head : Cell) × (cells : List Cell) × (get_segments n ≡ head ∷ cells)
unfolding get_segments
get_segments_head (end l) = (l.at, [], refl)
get_segments_head (node l n) = (l.at, get_segments n, refl)

-- `HasHead` says nothing of the id.
modify-HasHead :
    (id : ℤ) (p : PlayerData) (m : List (ℤ × PlayerData))
    → HasHead (id, p)
    → All HasHead m
    → All HasHead (modify id (λ _. p) m)
unfolding modify
modify-HasHead id p [] h hs = tt
modify-HasHead id p ((k, v) ∷ m) h hs = elim (Bool-cases (k ==ℤ id)) [
  | inl hit ↦ rw hit (h, modify-HasHead id p m h hs.1)
  | inr miss ↦ rw miss (hs.0, modify-HasHead id p m h hs.1)
]

assign-HasHead :
    (id : ℤ) (p : PlayerData) (m : List (ℤ × PlayerData))
    → HasHead (id, p)
    → All HasHead m
    → All HasHead (assign id p m)
unfolding assign
assign-HasHead id p m h hs = elim (Bool-cases (contains id m)) [
  | inl there ↦ rw there (modify-HasHead id p m h hs)
  | inr new ↦ rw new (h, hs)
]

add_players-HasHead :
    (ps : List (ℤ × Player)) (m : List (ℤ × PlayerData))
    → All HasHead m
    → All HasHead (add_players m (player_messages ps))
unfolding add_players player_messages player_data
add_players-HasHead [] m h = h
add_players-HasHead ((id, p) ∷ ps) m h =
    add_players-HasHead ps _ (assign-HasHead id _ m (get_segments_head p.head) h)

-- The broadcast of any game can be drawn, on any arena: each cell that a snake covers shows one that
-- covers it, a body segment in its color or a head with its direction; each other cell with food or
-- a boost shows one that lies there; and all else is the frame around the arena, and nothing.
pub broadcast-IsRendered :
    {G : Type 0} (w h : ℕ) (g : Game G)
    → (ds : List Drawn) × (render w h (from_protocol (build_game_state g)) ≡ some ds)
      × IsRendered w h (from_protocol (build_game_state g)) ds
unfolding from_protocol build_game_state
broadcast-IsRendered w h g =
    render-IsRendered w h (from_protocol (build_game_state g)) (add_players-HasHead g.players [] tt)
