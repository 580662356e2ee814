-- ===== src/Client/Guided.antt =====
-- A bot plays on what the server broadcasts: its map is that of the server's game, and the move it
-- sends is the one that the server makes.
use snake_multiplayer.Base.{
  ℕ, suc, ◌*◌, ◌<◌, ◌≡◌, ◌≢◌, refl, ap, sym, ◌∙◌, subst, inl, inr, List, [], ◌∷◌, map, some, arith,
  All, All-append, ok,
}
use snake_multiplayer.Base.Int.{ℤ, pos, ◌+ℤ◌, eq_of_parts, +ℤ_parts}
use snake_multiplayer.Base.Map.{lookup, Values, int_key}
use snake_multiplayer.Base.Map.Laws.{All-mono, Values-mono, Values-lookup, lookup-modify_self}
use snake_multiplayer.Base.Map.Assign.{lookup-contains, Values-assign}
use snake_multiplayer.Snake.{
  Cell, PlayerNode, get_segments, head_cell, move, move_to, head_link, end, node,
}
use snake_multiplayer.Snake.Motion.{body, get_segments-body}
use mathlib.Core.Option as Option
use snake_multiplayer.Engine.State.{Player, Game}
use snake_multiplayer.Engine.Move.{moved}
use snake_multiplayer.Engine.Arena.{get_segments-cells}
use snake_multiplayer.Engine.Update.{IsReady, IsSettled}
use snake_multiplayer.Engine.Input.{
  turn, handle_client_input, IsDirection, opposite, step_of, stepped, turn-IsSteered,
  moved-IsSteered,
}
use snake_multiplayer.Server.State.{player_messages, build_game_state}
use snake_multiplayer.Client.GameState.{PlayerData, player_data, add_players, from_protocol}
use snake_multiplayer.Client.Shown.{
  shown, shown_item, shown_game, from_protocol-build_game_state, from_protocol-shown_game,
}
use snake_multiplayer.Pathfinder.{
  int_max, Grid, Pathfinder, item_cell, rebuild_map, calculate_next_move,
}
use snake_multiplayer.Pathfinder.Grid.{InMap}
use snake_multiplayer.Pathfinder.Walks.{bodies, IsDrawn}
use snake_multiplayer.Pathfinder.Visit.{InArena-InMap}
use snake_multiplayer.Pathfinder.Moves.{IsMove, Target}
use snake_multiplayer.Pathfinder.Hunt.{IsHunt, next_move-IsHunt}

turn_lem :
    (d key : ℕ) (p : Player)
    → p.direction ≡ d
    → IsDirection key
    → d ≢ opposite key
    → (turn key p).next_direction ≡ key
unfolding turn
turn_lem d key p e i ne = ground arith

add_zero : (x : ℤ) → (x +ℤ pos 0) ≡ x
add_zero x = eq_of_parts (x +ℤ pos 0) x (omega (arith, +ℤ_parts x (pos 0)))

head_cell-move :
    (n : PlayerNode) (dx dy : ℤ)
    → head_cell (move n dx dy) ≡ ((head_cell n).0 +ℤ dx, (head_cell n).1 +ℤ dy)
unfolding move move_to head_link
head_cell-move (end l) dx dy = refl
head_cell-move (node l next) dx dy = refl

-- The step of each key.
Target-step_of :
    (c d : Cell) (key : ℕ) → Target c key d → (c.0 +ℤ (step_of key).0, c.1 +ℤ (step_of key).1) ≡ d
Target-step_of (x, y) d key (inl (ek, ec)) = rw (ek, ec) (cc (add_zero x))
Target-step_of (x, y) d key (inr (inl (ek, ec))) = rw (ek, ec) (cc (add_zero x))
Target-step_of (x, y) d key (inr (inr (inl (ek, ec)))) = rw (ek, ec) (cc (add_zero y))
Target-step_of (x, y) d key (inr (inr (inr (ek, ec)))) = rw (ek, ec) (cc (add_zero y))

All-bodies :
    (w h : ℕ) (ps : List (ℤ × PlayerData))
    → Values (λ q. All (InMap w h) q.segments) ps
    → All (InMap w h) (bodies ps)
All-bodies w h [] v = tt
All-bodies w h ((id, p) ∷ ps) v =
    All-append (InMap w h) p.segments (bodies ps) v.0 (All-bodies w h ps v.1)

add_players-InMap :
    (w h : ℕ) (ps : List (ℤ × Player)) (m : List (ℤ × PlayerData))
    → Values (λ q. All (InMap w h) q.segments) m
    → Values (λ (p : Player). All (InMap w h) (get_segments p.head)) ps
    → Values (λ q. All (InMap w h) q.segments) (add_players m (player_messages ps))
unfolding add_players player_messages player_data
add_players-InMap w h [] m v vs = v
add_players-InMap w h ((id, p) ∷ ps) m v vs =
    add_players-InMap w h ps _ (Values-assign (λ q. All (InMap w h) q.segments) id _ m v vs.0) vs.1

module _ (w h : ℕ) {G : Type 0} (g : Game G) (ready : IsReady w h g) where
  -- An input that the rules allow, to the cell `c`: the server takes it, and the next step of the
  -- player, whenever it comes, does not throw and brings the head to `c`.
  pub input_moves :
      (id : ℤ) (p : Player) (key : ℕ) (c : Cell)
      → lookup id g.players ≡ some p
      → IsMove w h p.direction (head_cell p.head) key c
      → (q : Player) × (lookup id (handle_client_input g id key).players ≡ some q)
        × ((now : ℤ) → (q' : Player) × (moved now q ≡ ok q') × (head_cell q'.head ≡ c))
  unfolding handle_client_input
  input_moves id p key c known move =
      let settled = Values-lookup (IsSettled w h) id g.players p ready.settled known in
      let r = turn-IsSteered key p settled.steered in
      let head_same : (turn key p).head ≡ p.head = ap (λ (q : Player). q.head) r.1 in
      let aim = turn_lem p.direction key p refl move.turn.0 move.turn.1 in
      (
        turn key p,
        rw (lookup-contains id g.players p known)
            (lookup-modify_self id (turn key) g.players known),
        λ now. (
          stepped now (turn key p),
          (moved-IsSteered now (turn key p) r.0).0,
          rw (aim, head_same)
              (head_cell-move p.head (step_of key).0 (step_of key).1
                ∙ Target-step_of (head_cell p.head) c key move.target),
        ),
      )

  -- Where the food and the boosts of the game lie.
  pub record IsLaid : Type 0 where
    pub food : All (InMap w h) (map item_cell (map shown_item g.food))
    pub speed_boosts : All (InMap w h) (map item_cell (map shown_item g.speed_boosts))

  shown-IsDrawn : IsLaid → IsDrawn w h (from_protocol (build_game_state g))
  unfolding from_protocol build_game_state
  shown-IsDrawn laid =
      let same = from_protocol-build_game_state g ready.distinct in
      record {
        food = subst (λ fs. All (InMap w h) (map item_cell fs)) (sym same.1) laid.food;
        speed_boosts =
            subst (λ fs. All (InMap w h) (map item_cell fs)) (sym same.2) laid.speed_boosts;
        snakes = All-bodies w h _ (
            add_players-InMap w h g.players [] tt (
              Values-mono _ _
                (λ (p : Player) settled.
                  All-mono _ _ (InArena-InMap w h) (get_segments p.head)
                    (get_segments-cells w h p.head settled.inside))
                g.players ready.settled));
      }

  -- The move of a bot in the game, said of what the client keeps of the broadcast.
  pub broadcast-IsHunt_told :
      (old : Grid) (id : ℤ) (p : Player)
      → IsLaid
      → suc h * suc w < int_max
      → lookup id g.players ≡ some p
      → (f : Pathfinder) × (rebuild_map
            (record { width = w; height = h; dijkstra_map = old })
            (from_protocol (build_game_state g))
          ≡ ok f)
        × ((key : ℕ) × (calculate_next_move f id (from_protocol (build_game_state g)) ≡ ok key)
            × IsHunt w h (from_protocol (build_game_state g)) p.direction (head_cell p.head) key)
  broadcast-IsHunt_told old id p laid small known =
      let same = from_protocol-build_game_state g ready.distinct in
      let settled = Values-lookup (IsSettled w h) id g.players p ready.settled known in
      next_move-IsHunt w h (from_protocol (build_game_state g)) old id (shown id p)
        (head_cell p.head) (body p.head) (shown-IsDrawn laid) small
        (same.0 id ∙ ap (λ o. Option.map (shown id) o) known) (get_segments-body p.head)
        settled.inside.head

  -- A bot whose snake `p` is in a ready game, with the food and boosts on the map: when it gets the
  -- GAME_STATE that the server builds, it rebuilds its map without an exception and finds a move,
  -- which is '?' only where each move that the rules allow leads under a snake; and otherwise an
  -- allowed move off all snakes and nearest to food, as snakes, food and boosts lie in the server's
  -- game.
  pub broadcast-IsHunt :
      (old : Grid) (id : ℤ) (p : Player)
      → IsLaid
      → suc h * suc w < int_max
      → lookup id g.players ≡ some p
      → (f : Pathfinder) × (rebuild_map
            (record { width = w; height = h; dijkstra_map = old })
            (from_protocol (build_game_state g))
          ≡ ok f)
        × ((key : ℕ) × (calculate_next_move f id (from_protocol (build_game_state g)) ≡ ok key)
            × IsHunt w h (shown_game g) p.direction (head_cell p.head) key)
  broadcast-IsHunt old id p laid small known =
      let (f, rebuilt, (key, found, hunt)) = broadcast-IsHunt_told old id p laid small known in
      (
        f,
        rebuilt,
        (
          key,
          found,
          subst (λ s. IsHunt w h s p.direction (head_cell p.head) key)
              (from_protocol-shown_game g ready.distinct) hunt,
        ),
      )
