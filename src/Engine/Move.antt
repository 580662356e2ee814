-- ===== src/Engine/Move.antt =====
-- `updateSnakes`, `moveSnake` and `updateOccupiedCells` of src/snake_server/SnakeServer.cpp.
use snake_multiplayer.Base.{
  ℕ, ◌+◌, ◌%◌, ◌^◌, Bool, false, ◌&&◌, ◌||◌, List, [], ◌∷◌, length, drop, ◌==◌, get_elem?, set,
  replicate, if◌then◌else◌, Result, ok, err, ◌>>=◌, or_throw, out_of_range, invalid_direction,
}
use snake_multiplayer.Base.Int.{ℤ, pos, negsuc, ◌+ℤ◌, ◌*ℤ◌, leb_ℤ}
use snake_multiplayer.Base.Map.{lookup, modify, keys, int_key}
use snake_multiplayer.Snake.{Cell, PlayerNode, move, get_segments}
use snake_multiplayer.Engine.State.{Player, Game, after_ms}

-- The step of a direction, or the exception.
unfoldable pub head_move : ℕ → PlayerNode → Result PlayerNode
head_move direction n =
    if direction == b'^'
    then ok (move n (pos 0) (negsuc 0))
    else if direction == b'v'
    then ok (move n (pos 0) (pos 1))
    else if direction == b'<'
    then ok (move n (negsuc 0) (pos 0))
    else if direction == b'>'
    then ok (move n (pos 1) (pos 0))
    else err invalid_direction

-- `occupiedCellsBodies.at(static_cast<size_t>(i))`: a negative index becomes a huge one.
unfoldable pub occupied_at : List ℕ → ℤ → Result ℕ
occupied_at cells (pos i) = or_throw (get_elem? cells i) out_of_range
occupied_at cells (negsuc i) = err out_of_range

-- `(y - 1) * width + x - 1`.
unfoldable pub cell_index : ℤ → Cell → ℤ
cell_index width (x, y) = (y +ℤ negsuc 0) *ℤ width +ℤ x +ℤ negsuc 0

-- `occupiedCellsBodies.at(i)++`, on a `uint16_t`.
unfoldable pub bump : List ℕ → ℤ → Result (List ℕ)
bump cells (pos i) = do
  n ← or_throw (get_elem? cells i) out_of_range
  ok (set cells i ((n + 1) % 2 ^ 16))
bump cells (negsuc i) = err out_of_range

unfoldable pub bump_all : ℤ → List Cell → List ℕ → Result (List ℕ)
bump_all width [] cells = ok cells
bump_all width (c ∷ cs) cells = do
  cells' ← bump cells (cell_index width c)
  bump_all width cs cells'

-- The reset of `std::fill`.
unfoldable pub clear : List ℕ → List ℕ
clear cells = replicate (length cells) 0

-- The speed boost runs out.
unfoldable pub expire_boost : ℕ → ℤ → Player → Player
expire_boost movement_frequency_ms now p =
    if p.boosted && leb_ℤ p.boost_expire_time now
    then record p { boosted = false; movement_frequency_ms = movement_frequency_ms }
    else p

-- The body of `moveSnake` on the player.
unfoldable pub moved : ℤ → Player → Result Player
moved now p = do
  head ← head_move p.next_direction p.head
  ok (record p {
    head = head;
    direction = p.next_direction;
    next_move_time = after_ms now p.movement_frequency_ms;
  })

module _ {G : Type 0} where
  -- `clientIdToPlayerMap.at(id)`.
  unfoldable pub player_at : Game G → ℤ → Result Player
  player_at g id = or_throw (lookup id g.players) out_of_range

  unfoldable pub set_player : Game G → ℤ → Player → Game G
  set_player g id p = record g { players = modify id (λ _. p) g.players }

  unfoldable pub move_snake : Game G → ℤ → Result (Game G)
  move_snake g id = do p ← player_at g id; q ← moved g.current_tick p; ok (set_player g id q)

  unfoldable pub update_occupied_cells : Game G → ℤ → Result (Game G)
  update_occupied_cells g id = do
    p ← player_at g id
    cells ← bump_all g.width (drop 1 (get_segments p.head)) g.occupied
    ok (record g { occupied = cells })

  -- One round of the loop of `updateSnakes`.
  unfoldable pub update_snake : Game G → ℤ → Result (Game G × Bool)
  update_snake g id = do
    p ← player_at g id
    let p' = expire_boost g.movement_frequency_ms g.current_tick p
    let g' = set_player g id p'
    let due = leb_ℤ p'.next_move_time g'.current_tick
    let step = move_snake g' id
    g'' ← if due then step else ok g'
    g3 ← update_occupied_cells g'' id
    ok (g3, due)

  unfoldable pub update_loop : List ℤ → Game G → Bool → Result (Game G × Bool)
  update_loop [] g updates = ok (g, updates)
  update_loop (id ∷ ids) g updates = do r ← update_snake g id; update_loop ids r.0 (r.1 || updates)

  unfoldable pub update_snakes : Game G → Result (Game G × Bool)
  update_snakes g = update_loop (keys g.players) (record g { occupied = clear g.occupied }) false
