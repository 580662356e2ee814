-- ===== src/Engine/Tests.antt =====
-- Two players whose heads are in one cell, and a game that starts and takes a turn.
mod Refill
use snake_multiplayer.Base.{
  ◌+◌, ◌%◌, ◌^◌, length, ℕ, ◌*◌, ◌≡◌, ◌≢◌, refl, inl, inr, ◌⊎◌, Bool, true, false, List, [], ◌∷◌,
  arith, ok, replicate,
}
use snake_multiplayer.Base.Int.{ℤ, pos, ◌+ℤ◌, ◌*ℤ◌}
use snake_multiplayer.Base.Map.{lookup, contains, erase, keys, int_key}
use snake_multiplayer.Snake.{Cell, end, head_link, get_segments}
use snake_multiplayer.Snake.Motion.{body, left_cell}
use snake_multiplayer.Engine.State.{Player, Game, Draw}
use snake_multiplayer.Engine.Move.{
  bump_all, update_snakes, moved, occupied_at, cell_index, player_at,
}
use snake_multiplayer.Engine.Collide.{
  heads_in_cell, goes_first, get_player_heads_in_cell, min_element, first_player_in_cell,
  check_inside, check_player, track_score, check_loop,
}
use snake_multiplayer.Engine.Food.{spawn_food, check_collisions, destroy_players, create_new_player}
use snake_multiplayer.Engine.Input.{
  handle_client_input, turn, IsSteered, opposite, stepped, turn-IsSteered, moved-IsSteered,
}
use snake_multiplayer.Engine.Arena.{Bodies, InArena}
use snake_multiplayer.Engine.Counts.{count, bump_all-count}
use snake_multiplayer.Engine.Update.{
  IsMoved, IsReady, update_snakes-IsMoved, bodies_in, update_snakes-Bodies,
}
use snake_multiplayer.Engine.Standing.{standing}
use snake_multiplayer.Engine.Verdict.{Winner, min_element-Winner}
use snake_multiplayer.Engine.Destroyed.{SameArena, erase_all, destroy_players-erase_all}
use snake_multiplayer.Engine.Tick.{advance, survivors_apart}
use snake_multiplayer.Engine.Reach.{
  InRange, Reached, started, joined, steered, Reached-IsReady, Reached-advance,
}

-- A generator that always gives the lower bound.
abbrev lowest : Draw ℕ
lowest lo hi gen = (lo, gen)

lowest-InRange : InRange lowest
lowest-InRange lo hi gen le = (omega arith, le)

abbrev a_player : Cell → Cell → ℕ → ℤ → Player
a_player at prev direction time = record {
  head = end (record { at = at; prev = prev });
  direction = direction;
  next_direction = direction;
  name = [];
  score = pos 1;
  color = pos 2;
  movement_frequency_ms = 200;
  next_move_time = time;
  boosted = false;
  boost_expire_time = pos 0;
}

abbrev a_game : ℕ → List (ℤ × Player) → Game ℕ
a_game n players = record {
  width = pos n;
  height = pos n;
  movement_frequency_ms = 200;
  boosted_movement_frequency_ms = 133;
  boost_duration_ms = 8_000;
  current_tick = pos 0;
  gen = 0;
  high_score_name = [];
  high_score = pos 0;
  players = players;
  occupied = replicate (n * n) 0;
  food = [];
  speed_boosts = [];
}

-- Player 5 came to (2, 1) from the left, player 6 from the right, both due at 200.
abbrev east : Player
east = a_player (pos 2, pos 1) (pos 1, pos 1) b'>' (pos 200)

abbrev west : Player
west = a_player (pos 2, pos 1) (pos 3, pos 1) b'<' (pos 200)

abbrev duel : Game ℕ
duel = a_game 3 ((pos 6, west) ∷ (pos 5, east) ∷ [])

east-IsSteered : IsSteered east
east-IsSteered = record {
  heads = inr (inr (inr refl));
  turns = inr (inr (inr refl));
  ahead = λ e. absurd (omega (arith, e));
}

west-IsSteered : IsSteered west
west-IsSteered = record {
  heads = inr (inr (inl refl));
  turns = inr (inr (inl refl));
  ahead = λ e. absurd (omega (arith, e));
}

duel-IsMoved : IsMoved 3 3 duel
unfolding body left_cell
duel-IsMoved = record {
  shape = record { width = refl; height = refl; size = refl };
  distinct = ((λ e. cc, tt), (tt, tt));
  running = (
    record {
      steered = west-IsSteered;
      tracked = record {
        cells = tt;
        behind = (omega arith, omega arith, omega arith, omega arith);
      };
    },
    (
      record {
        steered = east-IsSteered;
        tracked = record {
          cells = tt;
          behind = (omega arith, omega arith, omega arith, omega arith);
        };
      },
      tt,
    ),
  );
}

min_element-Winner_example :
    (m : ℤ) × (min_element duel (pos 6) (pos 5 ∷ []) ≡ ok m)
    × Winner (standing duel.players) (pos 2, pos 1) (pos 6 ∷ pos 5 ∷ []) m
unfolding lookup head_link
min_element-Winner_example =
    min_element-Winner duel (pos 2, pos 1) (pos 6) (pos 5 ∷ []) (pos 200, refl)
      ((pos 200, refl), tt)

destroy_players-erase_all_example :
    (g' : Game ℕ) × (destroy_players lowest (pos 6 ∷ []) duel ≡ ok g')
    × SameArena duel g'
    × (g'.players ≡ erase_all (pos 6 ∷ []) duel.players)
unfolding lookup
destroy_players-erase_all_example =
    destroy_players-erase_all lowest (pos 6 ∷ []) duel (tt, tt) ((west, refl), tt)

turn-IsSteered_example :
    IsSteered (turn b'^' east)
    × (turn b'^' east ≡ record east { next_direction = (turn b'^' east).next_direction })
turn-IsSteered_example = turn-IsSteered b'^' east east-IsSteered

moved-IsSteered_example :
    (moved (pos 200) east ≡ ok (stepped (pos 200) east))
    × IsSteered (stepped (pos 200) east)
    × ((stepped (pos 200) east).direction ≢ opposite east.direction)
moved-IsSteered_example = moved-IsSteered (pos 200) east east-IsSteered

-- A player joins an arena of 12 by 12 and turns right.
abbrev opening : Game ℕ
opening =
    handle_client_input (create_new_player lowest (a_game 12 []) (pos 5) (pos 2) []) (pos 5) b'>'

opening-Reached : Reached 12 12 lowest opening
opening-Reached =
    steered _ (pos 5) b'>'
      (joined _ (pos 5) (pos 2) [] (started (a_game 12 []) refl refl refl refl))

Reached-advance_example :
    IsReady 12 12 opening
    × ((g' : Game ℕ) × (b : Bool) × (advance lowest opening ≡ ok (g', b)) × IsReady 12 12 g')
Reached-advance_example =
    Reached-advance 12 12 lowest lowest-InRange (omega arith) (omega arith) opening opening-Reached

opening-IsReady : IsReady 12 12 opening
opening-IsReady =
    Reached-IsReady 12 12 lowest lowest-InRange (omega arith) (omega arith) opening opening-Reached

update_snakes-IsMoved_example :
    (g' : Game ℕ) × (b : Bool) × (update_snakes opening ≡ ok (g', b))
    × IsMoved 12 12 g'
    × (keys g'.players ≡ keys opening.players)
    × ((b ≡ true) ⊎ IsReady 12 12 g')
update_snakes-IsMoved_example = update_snakes-IsMoved 12 12 opening opening-IsReady

update_snakes-Bodies_example :
    (g' : Game ℕ) × (b : Bool) × (update_snakes opening ≡ ok (g', b))
    × Bodies 12 g'.occupied (pos 6, pos 6) (bodies_in (pos 6, pos 6) g'.players % 2 ^ 16)
update_snakes-Bodies_example =
    update_snakes-Bodies 12 12 opening (pos 6, pos 6) opening-IsReady
      (omega arith, omega arith, omega arith, omega arith)

-- Of the two in the duel player 5 is left: both were due at once, and 5 is the lower id.
abbrev duel_won : Game ℕ
duel_won = record (a_game 3 ((pos 5, east) ∷ [])) { high_score = pos 1 }

duel_after : check_collisions lowest duel ≡ ok duel_won
unfolding check_collisions check_loop check_player check_inside occupied_at cell_index
    get_player_heads_in_cell heads_in_cell first_player_in_cell min_element goes_first player_at
    lookup contains erase track_score destroy_players spawn_food get_segments head_link ◌+ℤ◌ ◌*ℤ◌
duel_after = refl

survivors_apart_example : pos 5 ≡ pos 5
unfolding lookup head_link
survivors_apart_example =
    survivors_apart 3 3 lowest duel duel_won (pos 5) (pos 5) (pos 2, pos 1) (pos 200) (pos 200)
      duel-IsMoved duel_after refl refl

-- A body that is in (2, 1) twice and in (1, 3) once, in an arena of 3 by 3.
abbrev twice_there : List Cell
twice_there = (pos 2, pos 1) ∷ (pos 1, pos 3) ∷ (pos 2, pos 1) ∷ []

bump_all-count_example :
    (cells' : List ℕ) × (bump_all (pos 3) twice_there (replicate 9 0) ≡ ok cells')
    × (length cells' ≡ 3 * 3)
    × Bodies 3 cells' (pos 2, pos 1) ((0 + count (pos 2, pos 1) twice_there) % 2 ^ 16)
unfolding occupied_at cell_index ◌+ℤ◌ ◌*ℤ◌
bump_all-count_example =
    bump_all-count 3 3 twice_there (replicate 9 0) (pos 2, pos 1) 0 refl there
      (there, (corner, (there, tt))) (omega arith) refl
  where
    there : InArena 3 3 (pos 2, pos 1)
    there = (omega arith, omega arith, omega arith, omega arith)

    corner : InArena 3 3 (pos 1, pos 3)
    corner = (omega arith, omega arith, omega arith, omega arith)
