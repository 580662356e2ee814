-- ===== src/Pathfinder/Hunt.antt =====
-- The move that a bot makes on the map of `rebuildMap`.
use snake_multiplayer.Base.{ℕ, suc, ◌*◌, ◌≤◌, ◌<◌, ◌≡◌, subst, List, ◌∷◌, some, ok, arith}
use snake_multiplayer.Base.Int.{ℤ, pos, negsuc, pos_part}
use snake_multiplayer.Base.Map.{lookup, int_key}
use snake_multiplayer.Snake.{Cell}
use snake_multiplayer.Engine.Arena.{InArena}
use snake_multiplayer.Client.GameState.{PlayerData, GameState}
use snake_multiplayer.Pathfinder.{
  int_max, long_max, Grid, Pathfinder, cell, calculate_next_move, rebuild_map,
}
use snake_multiplayer.Pathfinder.Walks.{IsDrawn, IsBody, Walk}
use snake_multiplayer.Pathfinder.Visit.{InArena-InMap}
use snake_multiplayer.Pathfinder.Loop.{same_value}
use snake_multiplayer.Pathfinder.Shortest.{
  Walk-free, Distance, under_snake, at_distance, out_of_reach, rebuild_map-Distance,
}
use snake_multiplayer.Pathfinder.Moves.{IsMove, IsBest, blocked, best, calculate_next_move-IsBest}

module _ (w h : ℕ) (g : GameState) where
  -- How good a move is. `blocked_in`: every move that the rules allow leads under a snake. `heads_for`:
  -- the move is allowed, leads to a cell free of snakes, and no allowed move is nearer to food.
  pub data IsHunt (direction : ℕ) (head : Cell) : ℕ → Type 0 where
    blocked_in :
        ((key : ℕ) (c : Cell) → IsMove w h direction head key c → IsBody w h g c)
        → IsHunt direction head b'?'
    heads_for :
        (key : ℕ) (c : Cell)
        → IsMove w h direction head key c
        → (IsBody w h g c → ⊥)
        → ((key' n : ℕ) (c' : Cell)
            → IsMove w h direction head key' c'
            → Walk w h g n c'
            → (n' : ℕ) × Walk w h g n' c × (n' ≤ n))
        → IsHunt direction head key

  module _ (m : Grid) (small : suc h * suc w < int_max) where
    Distance-value :
        (c : Cell) → Distance w h g m c → (v : ℤ) × (cell m c ≡ ok v) × (pos_part v < long_max)
    Distance-value c (under_snake b e) = (negsuc 0, e, omega arith)
    Distance-value c (at_distance n nb e le walk f) = (pos n, e, omega arith)
    Distance-value c (out_of_reach nb e f) = (pos int_max, e, omega arith)

    -- Only a snake makes the value negative.
    Distance-IsBody :
        (c : Cell) → Distance w h g m c → ((v : ℕ) → cell m c ≡ ok (pos v) → ⊥) → IsBody w h g c
    Distance-IsBody c (under_snake b e) f = b
    Distance-IsBody c (at_distance n nb e le walk far) f = absurd (f n e)
    Distance-IsBody c (out_of_reach nb e far) f = absurd (f int_max e)

    Distance-free :
        (c : Cell) (v : ℕ) → Distance w h g m c → cell m c ≡ ok (pos v) → IsBody w h g c → ⊥
    Distance-free c v (under_snake b e) e' = cc (e, e')
    Distance-free c v (at_distance n nb e le walk far) e' = nb
    Distance-free c v (out_of_reach nb e far) e' = nb

    -- A cell with a walk has the length of one that is not longer.
    Walk-value :
        (c : Cell) (n : ℕ)
        → Distance w h g m c
        → Walk w h g n c
        → (v : ℕ) × (cell m c ≡ ok (pos v)) × (v ≤ n) × (v ≤ suc h * suc w)
    Walk-value c n (under_snake b e) walk = absurd (Walk-free w h g n c walk b)
    Walk-value c n (at_distance v nb e le walk' far) walk = (v, e, far n walk, le)
    Walk-value c n (out_of_reach nb e far) walk = absurd (far n walk)

    value-Walk :
        (c : Cell) (v : ℕ)
        → Distance w h g m c
        → cell m c ≡ ok (pos v)
        → v ≤ suc h * suc w
        → Walk w h g v c
    value-Walk c v (under_snake b e) e' le = cc (e, e')
    value-Walk c v (at_distance n nb e l walk far) e' le =
        subst (λ x. Walk w h g x c) (same_value m c n v e e') walk
    value-Walk c v (out_of_reach nb e far) e' le =
        absurd (omega (arith, same_value m c v int_max e' e))

    IsBest-IsHunt :
        (d : ℕ) (head : Cell) (key : ℕ)
        → ((c : Cell) → InArena w h c → Distance w h g m c)
        → IsBest w h m d head key
        → IsHunt d head key
    IsBest-IsHunt d head _ dist (blocked f) =
        blocked_in
          (λ key c move. Distance-IsBody c (dist c move.in_arena) (λ v e. f key c v move e))
    IsBest-IsHunt d head _ dist (best key c v move e f) =
        heads_for key c move (Distance-free c v (dist c move.in_arena) e) (λ key' n c' move' walk.
          let (v', e', le, small_v) = Walk-value c' n (dist c' move'.in_arena) walk in
          let lower = f key' c' v' move' e' in
          (v, value-Walk c v (dist c move.in_arena) e (omega (arith, lower)), omega (arith, lower)))

  -- A bot that rebuilds its map and then asks for the next move of a snake whose head is in the
  -- arena gets one without an exception. It is '?' only where every move that the rules allow leads
  -- under a snake. Otherwise it is a move that the rules allow, in the arena and not straight back,
  -- to a cell that no snake lies on; and if an allowed move leads to a cell from which food can be
  -- walked to in n steps, then from the chosen cell it can be in n steps or fewer.
  pub next_move-IsHunt :
      (old : Grid) (id : ℤ) (p : PlayerData) (head : Cell) (rest : List Cell)
      → IsDrawn w h g
      → suc h * suc w < int_max
      → lookup id g.players ≡ some p
      → p.segments ≡ head ∷ rest
      → InArena w h head
      → (f : Pathfinder) × (rebuild_map (record { width = w; height = h; dijkstra_map = old }) g
          ≡ ok f)
        × ((key : ℕ) × (calculate_next_move f id g ≡ ok key) × IsHunt p.direction head key)
  next_move-IsHunt old id p head rest d small known segments a =
      let (m, e, shape, dist) = rebuild_map-Distance w h g old d small in
      let in_arena : (c : Cell) → InArena w h c → Distance w h g m c =
        λ c b. dist c (InArena-InMap w h c b) in
      let (key, ek, move) =
        calculate_next_move-IsBest w h m id g p head rest
          (λ c b. Distance-value m small c (in_arena c b)) known segments a in
      (
        record { width = w; height = h; dijkstra_map = m },
        e,
        (key, ek, IsBest-IsHunt m small p.direction head key in_arena move),
      )
