-- ===== src/Pathfinder.antt =====
-- src/snake_bot/Pathfinder.cpp: the map of distances to food, and the move that the bot makes on it.
-- Sizes are numbers, as the program only passes positive ones.
pub mod Grid
pub mod Walks
pub mod Populate
pub mod Visit
pub mod Seeds
pub mod Loop
pub mod Shortest
pub mod Choice
pub mod Moves
pub mod Hunt
mod Tests
use snake_multiplayer.Base.{
  ℕ, zero, suc, ◌+◌, ◌*◌, Bool, true, false, not, ◌&&◌, ◌||◌, List, [], ◌∷◌, ◌++◌, map, replicate,
  length, get_elem?, set, ◌==◌, if◌then◌else◌, Result, ok, err, ◌>>=◌, or_throw, out_of_range,
  stuck,
}
use snake_multiplayer.Base.Int.{ℤ, pos, negsuc, ◌+ℤ◌, ◌==ℤ◌, leb_ℤ, ltb_ℤ}
use snake_multiplayer.Base.Map.{lookup, int_key}
use snake_multiplayer.Snake.{Cell}
use snake_multiplayer.Client.GameState.{PlayerData, FoodData, GameState}

abbrev pub int_max : ℕ
int_max = 2147483647

abbrev pub long_max : ℕ
long_max = 9223372036854775807

abbrev pub Grid : Type 0
Grid = List (List ℤ)

pub record Pathfinder : Type 0 where
  pub width : ℕ
  pub height : ℕ
  pub dijkstra_map : Grid

-- `at` of a vector. A negative `int` is far out of range as a `size_t`.
unfoldable pub row_at : {A : Type 0} → List A → ℤ → Result A
row_at xs (pos i) = or_throw (get_elem? xs i) out_of_range
row_at xs (negsuc i) = err out_of_range

-- `cell(x, y)`, to read.
unfoldable pub cell : Grid → Cell → Result ℤ
cell m (x, y) = do row ← row_at m y; row_at row x

abbrev pub put_at : {A : Type 0} → List A → ℤ → A → List A
put_at xs (pos i) v = set xs i v
put_at xs (negsuc i) v = xs

-- `cell(x, y) = v`.
unfoldable pub put : ℤ → Grid → Cell → Result Grid
put v m (x, y) = do row ← row_at m y; old ← row_at row x; ok (put_at m y (put_at row x v))

-- A loop that writes one value to cells.
unfoldable pub put_all : ℤ → Grid → List Cell → Result Grid
put_all v m [] = ok m
put_all v m (c ∷ cs) = do m' ← put v m c; put_all v m' cs

abbrev pub item_cell : FoodData → Cell
item_cell f = (f.x, f.y)

unfoldable pub put_players : Grid → List (ℤ × PlayerData) → Result Grid
put_players m [] = ok m
put_players m ((client_id, player) ∷ ps) = do
  m' ← put_all (negsuc 0) m player.segments
  put_players m' ps

unfoldable pub populate_food_and_players : Grid → GameState → Result Grid
populate_food_and_players m game_state = do
  fed ← put_all (pos 0) m (map item_cell game_state.food)
  boosted ← put_all (pos 0) fed (map item_cell game_state.speed_boosts)
  put_players boosted game_state.players

-- The cells of items that no body lies on, put behind those of `to_visit`.
unfoldable pub seed : Grid → List Cell → List FoodData → Result (List Cell)
seed m to_visit [] = ok to_visit
seed m to_visit (f ∷ fs) = do
  v ← cell m (item_cell f)
  seed m (if v ==ℤ pos 0 then to_visit ++ (item_cell f ∷ []) else to_visit) fs

-- The map and the queue of a search.
abbrev pub Search : Type 0
Search = Grid × List Cell

-- The end of `checkNeighbour`.
unfoldable pub reach_cell : ℤ → Cell → Search → Result Search
reach_cell next_val c (m, to_visit) = do m' ← put next_val m c; ok (m', to_visit ++ (c ∷ []))

-- The cells around a cell.
abbrev pub up : Cell → Cell
up (x, y) = (x, y +ℤ negsuc 0)

abbrev pub down : Cell → Cell
down (x, y) = (x, y +ℤ pos 1)

abbrev pub left : Cell → Cell
left (x, y) = (x +ℤ negsuc 0, y)

abbrev pub right : Cell → Cell
right (x, y) = (x +ℤ pos 1, y)

module _ (w h : ℕ) where
  abbrev pub is_outside : Cell → Bool
  is_outside (x, y) = leb_ℤ x (pos 0) || ltb_ℤ (pos w) x || leb_ℤ y (pos 0) || ltb_ℤ (pos h) y

  unfoldable pub check_neighbour : ℤ → Cell → Search → Result Search
  check_neighbour next_val c (m, to_visit) =
      let look = (do
        v ← cell m c
        if v ==ℤ pos int_max then reach_cell next_val c (m, to_visit) else ok (m, to_visit)) in
      if is_outside c then ok (m, to_visit) else look

  -- A round of the loop, on the cell that was in front.
  unfoldable pub visit : Grid → Cell → List Cell → Result Search
  visit m current to_visit = do
    v ← cell m current
    s₁ ← check_neighbour (v +ℤ pos 1) (up current) (m, to_visit)
    s₂ ← check_neighbour (v +ℤ pos 1) (down current) s₁
    s₃ ← check_neighbour (v +ℤ pos 1) (left current) s₂
    check_neighbour (v +ℤ pos 1) (right current) s₃

  -- The `while` loop.
  unfoldable pub search : ℕ → Grid → List Cell → Result Grid
  search fuel m [] = ok m
  search zero m (c ∷ to_visit) = err stuck
  search (suc fuel) m (c ∷ to_visit) = do s ← visit m c to_visit; search fuel s.0 s.1

  -- Each round takes a cell off the queue, and a cell comes on it by an item or by its first value.
  abbrev pub search_fuel : GameState → ℕ
  search_fuel g = suc h * suc w + (length g.food + length g.speed_boosts)

  unfoldable pub compute_paths : Grid → GameState → Result Grid
  compute_paths m game_state = do
    food ← seed m [] game_state.food
    to_visit ← seed m food game_state.speed_boosts
    search (search_fuel game_state) m to_visit

  abbrev pub cleared : Grid
  cleared = replicate (suc h) (replicate (suc w) (pos int_max))

unfoldable pub rebuild_map : Pathfinder → GameState → Result Pathfinder
rebuild_map p game_state = do
  populated ← populate_food_and_players (cleared p.width p.height) game_state
  m ← compute_paths p.width p.height populated game_state
  ok (record p { dijkstra_map = m })

-- One of the four `if`s of `calculateNextMove`.
unfoldable pub consider : Grid → Bool → Cell → ℕ → ℤ × ℕ → Result (ℤ × ℕ)
consider m guard c key lowest =
    let look = (do
      v ← cell m c
      ok (if leb_ℤ (pos 0) v && ltb_ℤ v lowest.0 then (v, key) else lowest)) in
    if guard then look else ok lowest

-- `segments[0]`. On a player without segments C++ leaves it undefined, and the model stops.
unfoldable pub first_segment : PlayerData → Result Cell
first_segment p = or_throw (get_elem? p.segments 0) out_of_range

unfoldable pub calculate_next_move : Pathfinder → ℤ → GameState → Result ℕ
calculate_next_move p client_id game_state = do
  player ← or_throw (lookup client_id game_state.players) out_of_range
  head ← first_segment player
  let d = player.direction
  l₁ ←
      consider p.dijkstra_map (not (d == b'v') && ltb_ℤ (pos 1) head.1) (up head) b'^'
        (pos long_max, b'?')
  l₂ ← consider p.dijkstra_map (not (d == b'^') && ltb_ℤ head.1 (pos p.height)) (down head) b'v' l₁
  l₃ ← consider p.dijkstra_map (not (d == b'>') && ltb_ℤ (pos 1) head.0) (left head) b'<' l₂
  l₄ ← consider p.dijkstra_map (not (d == b'<') && ltb_ℤ head.0 (pos p.width)) (right head) b'>' l₃
  ok l₄.1
