-- ===== src/Engine/State.antt =====
-- include/snake_server/Player.h, and the fields of `SnakeServer` that hold the game. Times are the
-- nanoseconds of the steady clock, durations milliseconds. `gen` is the state of the generator.
use snake_multiplayer.Base.{ℕ, ◌*◌, Bool, List}
use snake_multiplayer.Base.Int.{ℤ, pos, ◌+ℤ◌}
use snake_multiplayer.Snake.{Cell, PlayerNode}

pub record Player : Type 0 where
  pub head : PlayerNode
  pub direction : ℕ
  pub next_direction : ℕ
  pub name : List ℕ
  pub score : ℤ
  pub color : ℤ
  pub movement_frequency_ms : ℕ
  pub next_move_time : ℤ
  pub boosted : Bool
  pub boost_expire_time : ℤ

-- `Food` and `SpeedBoost`, which have the same fields.
pub record Item : Type 0 where
  pub x : ℤ
  pub y : ℤ
  pub icon : ℕ
  pub color : ℤ

pub record Game (G : Type 0) : Type 0 where
  pub width : ℤ
  pub height : ℤ
  pub movement_frequency_ms : ℕ
  pub boosted_movement_frequency_ms : ℕ
  pub boost_duration_ms : ℕ
  pub current_tick : ℤ
  pub gen : G
  pub high_score_name : List ℕ
  pub high_score : ℤ
  pub players : List (ℤ × Player)
  pub occupied : List ℕ
  pub food : List (Cell × Item)
  pub speed_boosts : List (Cell × Item)

-- A time point and a duration added.
unfoldable pub after_ms : ℤ → ℕ → ℤ
after_ms t ms = t +ℤ pos (1_000_000 * ms)

-- `std::uniform_int_distribution<>(lo, hi)(gen)`.
abbrev pub Draw : Type 0 → Type 0
Draw G = ℤ → ℤ → G → ℤ × G

-- include/common/Constants.h.
abbrev pub min_food_in_arena : ℕ
min_food_in_arena = 6

abbrev pub food_spawn_from_body_segment_probability : ℤ
food_spawn_from_body_segment_probability = pos 3

abbrev pub speed_boost_probability : ℤ
speed_boost_probability = pos 80

abbrev pub white : ℤ
white = pos 1
