-- ===== src/Engine/Collide.antt =====
-- `checkCollisions` of src/snake_server/SnakeServer.cpp and what it calls, but for the food that a
-- dead player leaves (Engine/Food.antt).
use snake_multiplayer.Base.{
  Bool, true, false, not, List, [], ◌∷◌, ◌++◌, length, ltb, if◌then◌else◌, Result, ok, err, ◌>>=◌,
  out_of_range,
}
use snake_multiplayer.Base.Int.{ℤ, pos, ◌+ℤ◌, leb_ℤ, ltb_ℤ, ◌==ℤ◌}
use snake_multiplayer.Base.Map.{contains, erase, int_key, cell_key, cell_beq}
use snake_multiplayer.Snake.{Cell, head_cell, grow}
use snake_multiplayer.Engine.State.{Player, Game, after_ms}
use snake_multiplayer.Engine.Move.{player_at, set_player, occupied_at, cell_index}

unfoldable pub heads_in_cell : List (ℤ × Player) → Cell → List ℤ
heads_in_cell [] c = []
heads_in_cell ((id, p) ∷ ps) c =
    let rest = heads_in_cell ps c in if cell_beq (head_cell p.head) c then id ∷ rest else rest

-- The order of `std::min_element`: who is due first, then the lower id.
unfoldable pub goes_first : ℤ → ℤ → ℤ → ℤ → Bool
goes_first time_a a time_b b = if not (time_a ==ℤ time_b) then ltb_ℤ time_a time_b else ltb_ℤ a b

module _ {G : Type 0} where
  unfoldable pub get_player_heads_in_cell : Game G → Cell → List ℤ
  get_player_heads_in_cell g c = heads_in_cell g.players c

  -- The first id of the list than which no later one is smaller, from the smallest so far.
  unfoldable pub min_element : Game G → ℤ → List ℤ → Result ℤ
  min_element g best [] = ok best
  min_element g best (a ∷ rest) = do
    p ← player_at g a
    q ← player_at g best
    min_element g (if goes_first p.next_move_time a q.next_move_time best then a else best) rest

  unfoldable pub first_player_in_cell : Game G → List ℤ → Result ℤ
  first_player_in_cell g [] = err out_of_range
  first_player_in_cell g (a ∷ rest) = min_element g a rest

  unfoldable pub feed_player : Game G → Cell → ℤ → Result (Game G)
  feed_player g c id = do
    p ← player_at g id
    ok (record (set_player g id (record p { head = grow p.head; score = p.score +ℤ pos 1 })) {
      food = erase c g.food;
    })

  unfoldable pub boost_player : Game G → Cell → ℤ → Result (Game G)
  boost_player g c id = do
    p ← player_at g id
    ok
        (record (set_player g id (record p {
          boosted = true;
          movement_frequency_ms = g.boosted_movement_frequency_ms;
          boost_expire_time = after_ms g.current_tick g.boost_duration_ms;
        })) { speed_boosts = erase c g.speed_boosts })

  -- What becomes of a player whose head is inside the arena.
  unfoldable pub check_inside : Game G → ℤ → Cell → Result (Game G × Bool)
  check_inside g id c = do
    bodies ← occupied_at g.occupied (cell_index g.width c)
    let heads = get_player_heads_in_cell g c
    let head_on = do first ← first_player_in_cell g heads; ok (g, not (id ==ℤ first))
    let fed = do g' ← feed_player g c id; ok (g', false)
    let boosted = do g' ← boost_player g c id; ok (g', false)
    if ltb 0 bodies
        then ok (g, true)
        else if ltb 1 (length heads)
        then head_on
        else if contains c g.food
        then fed
        else if contains c g.speed_boosts
        then boosted
        else ok (g, false)

  -- The chain of tests: the game after it, and whether the player is to be destroyed.
  unfoldable pub check_player : Game G → ℤ → Cell → Result (Game G × Bool)
  check_player g id (x, y) =
      let inside = check_inside g id (x, y) in
      if leb_ℤ y (pos 0)
      then ok (g, true)
      else if leb_ℤ (g.height +ℤ pos 1) y
      then ok (g, true)
      else if leb_ℤ x (pos 0)
      then ok (g, true)
      else if leb_ℤ (g.width +ℤ pos 1) x
      then ok (g, true)
      else inside

  unfoldable pub track_score : Game G → Player → Game G
  track_score g p =
      if ltb_ℤ g.high_score p.score
      then record g { high_score_name = p.name; high_score = p.score }
      else g

  -- The loop, over the ids still to come, with the list of those to destroy.
  unfoldable pub check_loop : List ℤ → Game G → List ℤ → Result (Game G × List ℤ)
  check_loop [] g doomed = ok (g, doomed)
  check_loop (id ∷ ids) g doomed = do
    p ← player_at g id
    r ← check_player g id (head_cell p.head)
    q ← player_at r.0 id
    check_loop ids (track_score r.0 q) (if r.1 then doomed ++ (id ∷ []) else doomed)
