-- ===== src/Snake/Motion.antt =====
-- How a snake moves and grows.
use snake_multiplayer.Base.{◌≡◌, refl, ap, ◌∙◌, List, [], ◌∷◌, ◌++◌, arith, length}
use snake_multiplayer.Base.Int.{ℤ, ◌+ℤ◌}
use snake_multiplayer.Snake.{
  Cell, PlayerNode, end, node, head_link, head_cell, move_to, move, grow, get_segments,
}

-- All cells but the last.
abbrev pub front {ℓ} : {A : Type ℓ} → List A → List A
front [] = []
front (x ∷ []) = []
front (x ∷ y ∷ ys) = x ∷ front (y ∷ ys)

-- The cells of the body, without the head.
unfoldable pub body : PlayerNode → List Cell
body (end l) = []
body (node l next) = get_segments next

pub get_segments-body : (n : PlayerNode) → get_segments n ≡ head_cell n ∷ body n
unfolding get_segments body head_link
get_segments-body (end l) = refl
get_segments-body (node l next) = refl

-- The cell that the last segment left when the snake last moved.
unfoldable pub left_cell : PlayerNode → Cell
left_cell (end l) = l.prev
left_cell (node l next) = left_cell next

pub get_segments-move_to :
    (n : PlayerNode) (c : Cell) → get_segments (move_to n c) ≡ c ∷ front (get_segments n)
unfolding get_segments move_to
get_segments-move_to (end l) c = refl
get_segments-move_to (node l next) c =
    ap (λ (s : List Cell). c ∷ s) (get_segments-move_to next l.at ∙ cover l.at next)
  where
    cover : (a : Cell) (m : PlayerNode) → a ∷ front (get_segments m) ≡ front (a ∷ get_segments m)
    cover a (end k) = refl
    cover a (node k m) = refl

pub get_segments-grow :
    (n : PlayerNode) → get_segments (grow n) ≡ get_segments n ++ (left_cell n ∷ [])
unfolding get_segments grow left_cell
get_segments-grow (end l) = refl
get_segments-grow (node l next) = ap (λ (s : List Cell). l.at ∷ s) (get_segments-grow next)

front-left_cell :
    (n : PlayerNode) (c : Cell)
    → front (get_segments n) ++ (left_cell (move_to n c) ∷ []) ≡ get_segments n
unfolding get_segments move_to left_cell
front-left_cell (end l) c = refl
front-left_cell (node l next) c = cover next (front-left_cell next l.at)
  where
    cover :
        (m : PlayerNode)
        → front (get_segments m) ++ (left_cell (move_to m l.at) ∷ []) ≡ get_segments m
        → front (l.at ∷ get_segments m) ++ (left_cell (move_to m l.at) ∷ []) ≡ l.at ∷ get_segments m
    cover (end k) e = refl
    cover (node k m) e = ap (λ (s : List Cell). l.at ∷ s) e

-- A step puts the head on the next cell, and each other segment where the one before it was.
pub get_segments-move :
    (n : PlayerNode) (dx dy : ℤ)
    → get_segments (move n dx dy)
      ≡ ((head_cell n).0 +ℤ dx, (head_cell n).1 +ℤ dy) ∷ front (get_segments n)
unfolding move
get_segments-move n dx dy = get_segments-move_to n _

-- A snake that grows after a step covers the new cell and all cells that it covered before.
pub get_segments-grow-move :
    (n : PlayerNode) (dx dy : ℤ)
    → get_segments (grow (move n dx dy))
      ≡ ((head_cell n).0 +ℤ dx, (head_cell n).1 +ℤ dy) ∷ get_segments n
unfolding move
get_segments-grow-move n dx dy =
    let c : Cell = ((head_cell n).0 +ℤ dx, (head_cell n).1 +ℤ dy) in
    get_segments-grow (move_to n c)
    ∙ rw (get_segments-move_to n c) (ap (λ (s : List Cell). c ∷ s) (front-left_cell n c))

length-front : (a : Cell) (xs : List Cell) → length (front (a ∷ xs)) ≡ length xs
length-front a [] = refl
length-front a (x ∷ xs) = omega (arith, length-front x xs)
