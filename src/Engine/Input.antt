-- ===== src/Engine/Input.antt =====
-- `handleClientInput` and `handleClientDisconnect` of src/snake_server/SnakeServer.cpp, and what the
-- rules of steering guarantee.
use snake_multiplayer.Base.{ℕ, ◌≡◌, ◌≢◌, ◌⊎◌, not, arith, ◌==◌, if◌then◌else◌, ok}
use snake_multiplayer.Base.Int.{ℤ, pos, negsuc}
use snake_multiplayer.Base.Map.{contains, erase, modify, int_key}
use snake_multiplayer.Snake.{PlayerNode, move}
use snake_multiplayer.Engine.State.{Player, Game, after_ms}
use snake_multiplayer.Engine.Move.{head_move, moved}

-- The ladder of keys. A turn straight back is refused.
unfoldable pub turn : ℕ → Player → Player
turn input p =
    if input == b'^'
    then (if p.direction == b'v' then p else record p { next_direction = b'^' })
    else if input == b'v'
    then (if p.direction == b'^' then p else record p { next_direction = b'v' })
    else if input == b'<'
    then (if p.direction == b'>' then p else record p { next_direction = b'<' })
    else if input == b'>'
    then (if p.direction == b'<' then p else record p { next_direction = b'>' })
    else p

module _ {G : Type 0} where
  unfoldable pub handle_client_input : Game G → ℤ → ℕ → Game G
  handle_client_input g id input =
      if not (contains id g.players)
      then g
      else record g { players = modify id (turn input) g.players }

  unfoldable pub handle_client_disconnect : Game G → ℤ → Game G
  handle_client_disconnect g id =
      if contains id g.players then record g { players = erase id g.players } else g

abbrev pub IsDirection : ℕ → Type 0
IsDirection d = (d ≡ b'^') ⊎ (d ≡ b'v') ⊎ (d ≡ b'<') ⊎ (d ≡ b'>')

abbrev pub opposite : ℕ → ℕ
opposite d =
    if d == b'^' then b'v' else if d == b'v' then b'^' else if d == b'<' then b'>' else b'<'

self_ahead : (d : ℕ) → IsDirection d → d ≢ opposite d
self_ahead d v = ground arith

-- A snake heads in one of the four directions, and is not about to turn straight back.
pub record IsSteered (p : Player) : Type 0 where
  pub heads : IsDirection p.direction
  pub turns : IsDirection p.next_direction
  pub ahead : p.next_direction ≢ opposite p.direction

-- No input, of whatever byte, makes a snake turn straight back or lose its direction, and the input
-- changes nothing but the direction of the next step.
pub turn-IsSteered :
    (input : ℕ) (p : Player)
    → IsSteered p
    → IsSteered (turn input p)
      × (turn input p ≡ record p { next_direction = (turn input p).next_direction })
unfolding turn
turn-IsSteered input p v = ground arith

-- The step of each direction; y grows downwards.
abbrev pub step_of : ℕ → ℤ × ℤ
step_of d =
    if d == b'^'
    then (pos 0, negsuc 0)
    else if d == b'v'
    then (pos 0, pos 1)
    else if d == b'<'
    then (negsuc 0, pos 0)
    else (pos 1, pos 0)

pub head_move_lem :
    (d : ℕ) (n : PlayerNode)
    → IsDirection d
    → head_move d n ≡ ok (move n (step_of d).0 (step_of d).1)
unfolding head_move
head_move_lem d n v = ground arith

-- The player after `moveSnake`.
abbrev pub stepped : ℤ → Player → Player
stepped now p = record p {
  head = move p.head (step_of p.next_direction).0 (step_of p.next_direction).1;
  direction = p.next_direction;
  next_move_time = after_ms now p.movement_frequency_ms;
}

-- A step of a steered snake does not throw: it goes one cell in the direction last accepted, which
-- is not straight back, is due again after the player's interval, and leaves the snake steered.
pub moved-IsSteered :
    (now : ℤ) (p : Player)
    → IsSteered p
    → (moved now p ≡ ok (stepped now p))
      × IsSteered (stepped now p)
      × ((stepped now p).direction ≢ opposite p.direction)
unfolding moved
moved-IsSteered now p v = (
  rw (head_move_lem p.next_direction p.head v.turns, moved),
  record { heads = v.turns; turns = v.turns; ahead = self_ahead p.next_direction v.turns },
  v.ahead,
)
