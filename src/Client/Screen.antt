-- ===== src/Client/Screen.antt =====
-- What src/snake_client/SnakeClient.cpp draws of the game: the calls of mvaddch, in their order.
pub mod Seen
pub mod Layers
pub mod Rendered
use snake_multiplayer.Base.{ℕ, zero, suc, List, [], ◌∷◌, ◌++◌, map, Option, none, some}
use snake_multiplayer.Base.Int.{ℤ, pos, ◌*ℤ◌}
use snake_multiplayer.Snake.{Cell}
use snake_multiplayer.Client.GameState.{PlayerData, FoodData, GameState}

abbrev pub client_horizontal_scaling : ℤ
client_horizontal_scaling = pos 2

-- A call of mvaddch.
pub record Drawn : Type 0 where
  pub row : ℤ
  pub column : ℤ
  pub character : ℕ
  pub color : ℤ

unfoldable pub render_char_to_screen : ℤ → ℤ → ℕ → ℤ → Drawn
render_char_to_screen x y character color = record {
  row = y;
  column = x *ℤ client_horizontal_scaling;
  character = character;
  color = color;
}

-- The color where `renderCharToScreen` is given none.
abbrev pub white : ℤ
white = pos 1

-- The first loop of `renderArena`, from `x` on for `n` rounds.
unfoldable pub top_and_bottom : ℕ → ℕ → ℕ → List Drawn
top_and_bottom height x zero = []
top_and_bottom height x (suc n) =
    render_char_to_screen (pos x) (pos 0) b'-' white
    ∷ render_char_to_screen (pos x) (pos (suc height)) b'-' white
    ∷ top_and_bottom height (suc x) n

-- The second loop, from `y` on.
unfoldable pub left_and_right : ℕ → ℕ → ℕ → List Drawn
left_and_right width y zero = []
left_and_right width y (suc n) =
    render_char_to_screen (pos 0) (pos y) b'|' white
    ∷ render_char_to_screen (pos (suc width)) (pos y) b'|' white
    ∷ left_and_right width (suc y) n

unfoldable pub corners : ℕ → ℕ → List Drawn
corners width height =
    render_char_to_screen (pos 0) (pos 0) b'+' white
    ∷ render_char_to_screen (pos (suc width)) (pos 0) b'+' white
    ∷ render_char_to_screen (pos 0) (pos (suc height)) b'+' white
    ∷ render_char_to_screen (pos (suc width)) (pos (suc height)) b'+' white
    ∷ []

unfoldable pub render_arena : ℕ → ℕ → List Drawn
render_arena width height =
    top_and_bottom height 1 width ++ left_and_right width 1 height ++ corners width height

unfoldable pub render_body : ℤ → List Cell → List Drawn
render_body color [] = []
render_body color ((x, y) ∷ cells) = render_char_to_screen x y b'c' color ∷ render_body color cells

-- `none` is `segments[0]` of an empty vector, of which C++ says nothing.
unfoldable pub render_player : PlayerData → List Cell → Option (List Drawn)
render_player p [] = none
render_player p ((x, y) ∷ cells) =
    some (render_char_to_screen x y p.direction white ∷ render_body p.color cells)

unfoldable pub render_players : List (ℤ × PlayerData) → Option (List Drawn)
render_players [] = some []
render_players ((id, p) ∷ players) = elim (render_player p p.segments) [
  | none ↦ none
  | some drawn ↦ elim (render_players players) [ none ↦ none | some rest ↦ some (drawn ++ rest) ]
]

unfoldable pub render_object : FoodData → Drawn
render_object f = render_char_to_screen f.x f.y f.icon f.color

unfoldable pub render_objects : GameState → List Drawn
render_objects s = map render_object s.food ++ map render_object s.speed_boosts

-- `render` after `erase`, without the score.
unfoldable pub render : ℕ → ℕ → GameState → Option (List Drawn)
render width height s = elim (render_players s.players) [
  | none ↦ none
  | some drawn ↦ some (render_arena width height ++ render_objects s ++ drawn)
]
