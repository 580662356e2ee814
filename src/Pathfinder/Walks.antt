-- ===== src/Pathfinder/Walks.antt =====
-- What the distances are distances of: walks from food through free cells of the arena.
use snake_multiplayer.Base.{ℕ, suc, ◌≡◌, ◌⊎◌, ◌∈◌, List, [], ◌∷◌, ◌++◌, map, All}
use snake_multiplayer.Base.Int.{ℤ}
use snake_multiplayer.Snake.{Cell}
use snake_multiplayer.Engine.Arena.{InArena}
use snake_multiplayer.Client.GameState.{PlayerData, GameState}
use snake_multiplayer.Pathfinder.{item_cell, up, down, left, right}
use snake_multiplayer.Pathfinder.Grid.{InMap}

-- The cells that snakes lie on, heads included.
abbrev pub bodies : List (ℤ × PlayerData) → List Cell
bodies [] = []
bodies ((client_id, p) ∷ ps) = p.segments ++ bodies ps

abbrev pub items : GameState → List Cell
items g = map item_cell g.food ++ map item_cell g.speed_boosts

-- One of the four cells around.
abbrev pub Next : Cell → Cell → Type 0
Next c d = (d ≡ up c) ⊎ (d ≡ down c) ⊎ (d ≡ left c) ⊎ (d ≡ right c)

-- Where everything lies on the map.
pub record IsDrawn (w h : ℕ) (g : GameState) : Type 0 where
  pub food : All (InMap w h) (map item_cell g.food)
  pub speed_boosts : All (InMap w h) (map item_cell g.speed_boosts)
  pub snakes : All (InMap w h) (bodies g.players)

module _ (w h : ℕ) (g : GameState) where
  abbrev pub IsBody : Cell → Type 0
  IsBody c = c ∈ bodies g.players

  -- Food or a speed boost that no snake lies on.
  abbrev pub IsGoal : Cell → Type 0
  IsGoal c = (c ∈ items g) × (IsBody c → ⊥)

  -- A walk of so many steps from a goal, through cells of the arena that no snake lies on.
  pub data Walk : ℕ → Cell → Type 0 where
    start : (c : Cell) → IsGoal c → Walk 0 c
    step :
        (n : ℕ) (c d : Cell) → Walk n c → Next c d → InArena w h d → (IsBody d → ⊥) → Walk (suc n) d
