-- ===== src/Snake.antt =====
-- `PlayerNode` of include/snake_server/Player.h: the chain of a snake's segments, head first.
pub mod Motion
mod Tests
use snake_multiplayer.Base.{ℕ, List, [], ◌∷◌, ◌++◌}
use snake_multiplayer.Base.Int.{ℤ, ◌+ℤ◌}

abbrev pub Cell : Type 0
Cell = ℤ × ℤ

-- `xPos`, `yPos`, `prevX` and `prevY` of one node.
pub record Link : Type 0 where
  pub at : Cell
  pub prev : Cell

-- A node whose `next` is null, and one that owns the rest of the chain.
pub data PlayerNode : Type 0 where
  end : Link → PlayerNode
  node : Link → PlayerNode → PlayerNode

-- The constructor.
abbrev pub new_node : Cell → PlayerNode
new_node c = end (record { at = c; prev = c })

unfoldable pub head_link : PlayerNode → Link
head_link (end l) = l
head_link (node l next) = l

unfoldable pub move_to : PlayerNode → Cell → PlayerNode
move_to (end l) c = end (record { at = c; prev = l.at })
move_to (node l next) c = node (record { at = c; prev = l.at }) (move_to next l.at)

-- `x()` and `y()`.
abbrev pub head_cell : PlayerNode → Cell
head_cell n = (head_link n).at

unfoldable pub move : PlayerNode → ℤ → ℤ → PlayerNode
move n dx dy = move_to n ((head_cell n).0 +ℤ dx, (head_cell n).1 +ℤ dy)

unfoldable pub grow : PlayerNode → PlayerNode
grow (end l) = node l (new_node l.prev)
grow (node l next) = node l (grow next)

unfoldable pub get_segments : PlayerNode → List Cell
get_segments (end l) = l.at ∷ []
get_segments (node l next) = l.at ∷ get_segments next
