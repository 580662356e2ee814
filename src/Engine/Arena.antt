-- ===== src/Engine/Arena.antt =====
-- The arena, and the cells of a snake in it.
use snake_multiplayer.Base.{List, ok, ℕ, zero, suc, ◌+◌, ◌*◌, ◌<◌, ◌≡◌, refl, arith, All}
use snake_multiplayer.Base.Int.{pos, negsuc, ◌+ℤ◌, ◌*ℤ◌, ◌≤ℤ◌}
use snake_multiplayer.Snake.{
  Cell, PlayerNode, end, node, head_cell, head_link, move_to, get_segments, grow,
}
use snake_multiplayer.Snake.Motion.{body, left_cell}
use snake_multiplayer.Engine.Move.{occupied_at, cell_index}

-- The number of body segments in a cell of an arena of width `w`.
abbrev pub Bodies : ℕ → List ℕ → Cell → ℕ → Type 0
Bodies w cells c n = occupied_at cells (cell_index (pos w) c) ≡ ok n

module _ (w h : ℕ) where
  abbrev pub InArena : Cell → Type 0
  InArena (x, y) = (pos 1 ≤ℤ x) × (x ≤ℤ pos w) × (pos 1 ≤ℤ y) × (y ≤ℤ pos h)

  pub cell_index-lt :
      (c : Cell) → InArena c → (i : ℕ) × (cell_index (pos w) c ≡ pos i) × (i < h * w)
  unfolding cell_index ◌+ℤ◌ ◌*ℤ◌
  cell_index-lt (pos (suc a), pos (suc b)) v = (b * w + a, ground arith, grind arith)
  cell_index-lt (pos zero, y) v = absurd (omega arith)
  cell_index-lt (pos (suc a), pos zero) v = absurd (omega arith)
  cell_index-lt (pos (suc a), negsuc b) v = absurd (omega arith)
  cell_index-lt (negsuc a, y) v = absurd (omega arith)

  -- The body and the cell behind the tail lie in the arena, the head may have left it.
  pub record IsTracked (n : PlayerNode) : Type 0 where
    pub cells : All InArena (body n)
    pub behind : InArena (left_cell n)

  -- The whole snake lies in the arena.
  pub record IsInside (n : PlayerNode) : Type 0 where
    pub tracked : IsTracked n
    pub head : InArena (head_cell n)

  move_to-cells :
      (n : PlayerNode) (c : Cell)
      → All InArena (get_segments n)
      → All InArena (body (move_to n c)) × InArena (left_cell (move_to n c))
  unfolding get_segments body move_to left_cell
  move_to-cells (end l) c v = (tt, v.0)
  move_to-cells (node l next) c v = go next v (move_to-cells next l.at v.1)
    where
      go :
          (m : PlayerNode)
          → InArena l.at × All InArena (get_segments m)
          → All InArena (body (move_to m l.at)) × InArena (left_cell (move_to m l.at))
          → All InArena (get_segments (move_to m l.at)) × InArena (left_cell (move_to m l.at))
      go (end k) v r = ((v.0, tt), r.1)
      go (node k m) v r = ((v.0, r.0), r.1)

  pub get_segments-cells : (n : PlayerNode) → IsInside n → All InArena (get_segments n)
  unfolding get_segments body head_link
  get_segments-cells (end l) v = (v.head, tt)
  get_segments-cells (node l next) v = (v.head, v.tracked.cells)

  -- A step from inside the arena, to any cell, keeps the body in it.
  pub move_to-IsTracked : (n : PlayerNode) (c : Cell) → IsInside n → IsTracked (move_to n c)
  move_to-IsTracked n c v =
      let r = move_to-cells n c (get_segments-cells n v) in record { cells = r.0; behind = r.1 }

  get_segments-grow_cells :
      (n : PlayerNode)
      → All InArena (get_segments n)
      → InArena (left_cell n)
      → All InArena (get_segments (grow n)) × InArena (left_cell (grow n))
  unfolding get_segments grow left_cell
  get_segments-grow_cells (end l) v b = ((v.0, (b, tt)), b)
  get_segments-grow_cells (node l next) v b =
      let r = get_segments-grow_cells next v.1 b in ((v.0, r.0), r.1)

  pub grow-IsTracked : (n : PlayerNode) → IsTracked n → IsTracked (grow n)
  unfolding grow body left_cell get_segments
  grow-IsTracked (end l) v = record { cells = (v.behind, tt); behind = v.behind }
  grow-IsTracked (node l next) v =
      let r = get_segments-grow_cells next v.cells v.behind in record { cells = r.0; behind = r.1 }

pub head_cell-grow : (n : PlayerNode) → head_cell (grow n) ≡ head_cell n
unfolding grow head_link
head_cell-grow (end l) = refl
head_cell-grow (node l next) = refl
