-- ===== src/Engine/Food.antt =====
-- The functions of src/snake_server/SnakeServer.cpp that draw from the generator. `draw` is the
-- distribution of the standard library, whose results the C++ standard leaves to the library.
-- The order in which the two arguments of `placeFood(distX(gen), distY(gen))` are evaluated is left
-- to the compiler: here the first is drawn first.
use snake_multiplayer.Base.{
  is_empty, ℕ, zero, suc, false, List, [], ◌∷◌, length, drop, ltb, if◌then◌else◌, Result, ok, err,
  ◌>>=◌, stuck,
}
use snake_multiplayer.Base.Int.{ℤ, pos, negsuc, ◌+ℤ◌, ◌==ℤ◌}
use snake_multiplayer.Base.Map.{erase, emplace, assign, keys, int_key, cell_key}
use snake_multiplayer.Snake.{Cell, new_node, get_segments}
use snake_multiplayer.Engine.State.{
  Item, Game, Draw, after_ms, min_food_in_arena, food_spawn_from_body_segment_probability,
  speed_boost_probability, white,
}
use snake_multiplayer.Engine.Move.{player_at}
use snake_multiplayer.Engine.Collide.{check_loop}

module _ {G : Type 0} where
  unfoldable pub place_food_at : Game G → Cell → ℤ → Game G
  place_food_at g (x, y) color = record g {
    food = assign (x, y) (record { x = x; y = y; icon = b'@'; color = color }) g.food;
  }

module _ {G : Type 0} (draw : Draw G) where
  -- A pair of draws, x first.
  abbrev pub draw_cell : ℤ × ℤ → ℤ × ℤ → G → Cell × G
  draw_cell (x_lo, x_hi) (y_lo, y_hi) gen =
      let x = draw x_lo x_hi gen in let y = draw y_lo y_hi x.1 in ((x.0, y.0), y.1)

  unfoldable pub place_food : Game G → Game G
  place_food g =
      let c = draw_cell (pos 1, g.width +ℤ negsuc 0) (pos 1, g.height +ℤ negsuc 0) g.gen in
      place_food_at (record g { gen = c.1 }) c.0 white

  -- The `while` loop. Each round draws a cell, which may hold food already, so that only the
  -- generator bounds the rounds.
  unfoldable pub replace_food : ℕ → Game G → Result (Game G)
  replace_food zero g = if ltb (length g.food) min_food_in_arena then err stuck else ok g
  replace_food (suc fuel) g =
      let rest = replace_food fuel (place_food g) in
      if ltb (length g.food) min_food_in_arena then rest else ok g

  unfoldable pub place_speed_boost : Game G → Game G
  place_speed_boost g =
      let chance = draw (pos 1) speed_boost_probability g.gen in
      let c = draw_cell (pos 1, g.width +ℤ negsuc 0) (pos 1, g.height +ℤ negsuc 0) chance.1 in
      let boost : Item = record { x = c.0.0; y = c.0.1; icon = b'*'; color = white } in
      if is_empty g.speed_boosts
      then if chance.0 ==ℤ pos 1
        then record g { gen = c.1; speed_boosts = assign c.0 boost g.speed_boosts }
        else record g { gen = chance.1 }
      else g

  -- Each body segment of a dead player may become food.
  unfoldable pub spawn_food : List Cell → ℤ → Game G → Game G
  spawn_food [] color g = g
  spawn_food (c ∷ cs) color g =
      let chance = draw (pos 1) food_spawn_from_body_segment_probability g.gen in
      let g' : Game G = record g { gen = chance.1 } in
      spawn_food cs color (if chance.0 ==ℤ pos 1 then place_food_at g' c color else g')

  unfoldable pub destroy_players : List ℤ → Game G → Result (Game G)
  destroy_players [] g = ok g
  destroy_players (id ∷ ids) g = do
    p ← player_at g id
    let g' = spawn_food (drop 1 (get_segments p.head)) p.color g
    destroy_players ids (record g' { players = erase id g'.players })

  -- `destroyPlayers` of an empty list, which the code skips, changes nothing.
  unfoldable pub check_collisions : Game G → Result (Game G)
  check_collisions g = do r ← check_loop (keys g.players) g []; destroy_players r.1 r.0

  unfoldable pub create_new_player : Game G → ℤ → ℤ → List ℕ → Game G
  create_new_player g id color name =
      let c = draw_cell (pos 6, g.width +ℤ negsuc 5) (pos 6, g.height +ℤ negsuc 5) g.gen in
      record g {
        gen = c.1;
        players =
            emplace id
              (record {
                head = new_node c.0;
                direction = b'^';
                next_direction = b'^';
                name = name;
                score = pos 1;
                color = color;
                movement_frequency_ms = g.movement_frequency_ms;
                next_move_time = after_ms g.current_tick g.movement_frequency_ms;
                boosted = false;
                boost_expire_time = g.current_tick;
              })
              g.players;
      }
