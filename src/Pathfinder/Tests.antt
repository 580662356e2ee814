-- ===== src/Pathfinder/Tests.antt =====
-- A snake at (2, 2) and (2, 3) of an arena of 4 by 3, food at (4, 2), and a boost at (1, 1).
use snake_multiplayer.Base.{some, ℕ, ◌≡◌, refl, List, [], ◌∷◌, arith, ok}
use snake_multiplayer.Base.Int.{ℤ, pos, negsuc, ◌+ℤ◌}
use snake_multiplayer.Base.Map.{lookup, int_key}
use snake_multiplayer.Snake.{Cell}
use snake_multiplayer.Client.GameState.{PlayerData, GameState}
use snake_multiplayer.Pathfinder.{
  int_max, Pathfinder, row_at, cell, put, put_all, put_players, populate_food_and_players, seed,
  reach_cell, check_neighbour, visit, search, compute_paths, rebuild_map, consider, first_segment,
  calculate_next_move,
}
use snake_multiplayer.Pathfinder.Grid.{InMap, IsShape}
use snake_multiplayer.Pathfinder.Walks.{IsDrawn}
use snake_multiplayer.Pathfinder.Shortest.{Distance, rebuild_map-Distance}
use snake_multiplayer.Pathfinder.Hunt.{IsHunt, next_move-IsHunt}

abbrev grazer : PlayerData
grazer = record {
  client_id = pos 7;
  direction = b'^';
  name = some [];
  score = pos 2;
  color = pos 2;
  segments = (pos 2, pos 2) ∷ (pos 2, pos 3) ∷ [];
}

abbrev meadow : GameState
meadow = record {
  players = (pos 7, grazer) ∷ [];
  food = record { x = pos 4; y = pos 2; icon = b'@'; color = pos 1 } ∷ [];
  speed_boosts = record { x = pos 1; y = pos 1; icon = b'%'; color = pos 1 } ∷ [];
  server_high_score = (some [], pos 0);
}

abbrev blank : Pathfinder
blank = record { width = 4; height = 3; dijkstra_map = [] }

-- Column 0 and row 0 are never reached; M stands for INT_MAX.
abbrev M : ℤ
M = pos int_max

abbrev filled : Pathfinder
filled = record {
  width = 4;
  height = 3;
  dijkstra_map =
      (M ∷ M ∷ M ∷ M ∷ M ∷ [])
      ∷ (M ∷ pos 0 ∷ pos 1 ∷ pos 2 ∷ pos 1 ∷ [])
      ∷ (M ∷ pos 1 ∷ negsuc 0 ∷ pos 1 ∷ pos 0 ∷ [])
      ∷ (M ∷ pos 2 ∷ negsuc 0 ∷ pos 2 ∷ pos 1 ∷ [])
      ∷ [];
}

rebuild_map_run : rebuild_map blank meadow ≡ ok filled
unfolding row_at cell put put_all put_players populate_food_and_players seed reach_cell
    check_neighbour visit search compute_paths rebuild_map ◌+ℤ◌
rebuild_map_run = refl

calculate_next_move_run : calculate_next_move filled (pos 7) meadow ≡ ok b'^'
unfolding row_at cell consider first_segment calculate_next_move lookup ◌+ℤ◌
calculate_next_move_run = refl

meadow-IsDrawn : IsDrawn 4 3 meadow
meadow-IsDrawn = record {
  food = ((omega arith, omega arith, omega arith, omega arith), tt);
  speed_boosts = ((omega arith, omega arith, omega arith, omega arith), tt);
  snakes = (
    (omega arith, omega arith, omega arith, omega arith),
    ((omega arith, omega arith, omega arith, omega arith), tt),
  );
}

rebuild_map-Distance_example :
    (m : List (List ℤ)) × (rebuild_map blank meadow
      ≡ ok (record { width = 4; height = 3; dijkstra_map = m }))
    × IsShape 4 3 m
    × ((c : Cell) → InMap 4 3 c → Distance 4 3 meadow m c)
rebuild_map-Distance_example = rebuild_map-Distance 4 3 meadow [] meadow-IsDrawn (omega arith)

next_move-IsHunt_example :
    (f : Pathfinder) × (rebuild_map blank meadow ≡ ok f)
    × ((key : ℕ) × (calculate_next_move f (pos 7) meadow ≡ ok key)
        × IsHunt 4 3 meadow b'^' (pos 2, pos 2) key)
unfolding lookup
next_move-IsHunt_example =
    next_move-IsHunt 4 3 meadow [] (pos 7) grazer (pos 2, pos 2) ((pos 2, pos 3) ∷ [])
      meadow-IsDrawn (omega arith) refl refl (omega arith, omega arith, omega arith, omega arith)
