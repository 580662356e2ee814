-- ===== src/Client/Screen/Rendered.antt =====
-- What is seen of snakes, food and boosts: `render` against a description that has no order of drawing.
use snake_multiplayer.Base.{
  ℕ, ◌≡◌, ◌≢◌, refl, ap, sym, ◌∙◌, subst, ◌⊎◌, inl, inr, ◌∈◌, List, [], ◌∷◌, ◌++◌, map, All, Option,
  none, some,
}
use snake_multiplayer.Base.Int.{ℤ}
use snake_multiplayer.Snake.{Cell}
use snake_multiplayer.Client.GameState.{PlayerData, FoodData, GameState}
use snake_multiplayer.Client.Screen.{
  Drawn, render_char_to_screen, white, render_arena, render_body, render_player, render_players,
  render_object, render_objects, render,
}
use snake_multiplayer.Client.Screen.Layers.{Single, Layer, cons-Layer, append-Layer, dot-cases}
use snake_multiplayer.Client.Screen.Seen.{
  over, seen_at, seen_at-append, seen_at-render_char_to_screen, frame, render_arena-seen_at,
}

-- The places of things, and what they look like.
abbrev pub place : FoodData → Cell
place f = (f.x, f.y)

abbrev pub IsSnake : Cell → ℤ × PlayerData → Type 0
IsSnake c (id, p) = c ∈ p.segments

-- A body segment has the color of the player, and a head shows the direction.
abbrev pub SnakeLook : Cell → ℤ × PlayerData → ℕ × ℤ → Type 0
SnakeLook c (id, p) look =
    (look ≡ (b'c', p.color))
    ⊎ ((look ≡ (p.direction, white)) × (cells : List Cell) × (p.segments ≡ c ∷ cells))

abbrev pub ObjectLook : FoodData → ℕ × ℤ → Type 0
ObjectLook f look = look ≡ (f.icon, f.color)

map-Layer :
    (c : Cell) (fs : List FoodData)
    → Layer (λ f. c ≡ place f) ObjectLook fs (seen_at c (map render_object fs))
unfolding render_object
map-Layer c [] = inl (refl, λ a h. absurd h)
map-Layer c (f ∷ fs) =
    rw (seen_at-render_char_to_screen f.x f.y f.icon f.color c (map render_object fs)) (
      cons-Layer (λ g. c ≡ place g) ObjectLook f fs _ _ (map-Layer c fs)
        (elim (dot-cases f.x f.y f.icon f.color c) [
          | inl (e, away) ↦ inl (e, away)
          | inr (here, e) ↦ inr ((f.icon, f.color), here, refl, e)
        ]))

body-Layer :
    (c : Cell) (color : ℤ) (cells : List Cell)
    → Layer
        (λ b. c ≡ b)
        (λ b look. look ≡ (b'c', color))
        cells
        (seen_at c (render_body color cells))
unfolding render_body
body-Layer c color [] = inl (refl, λ a h. absurd h)
body-Layer c color ((x, y) ∷ cells) =
    rw (seen_at-render_char_to_screen x y b'c' color c (render_body color cells)) (
      cons-Layer (λ b. c ≡ b) (λ b look. look ≡ (b'c', color)) (x, y) cells _ _
        (body-Layer c color cells)
        (elim (dot-cases x y b'c' color c) [
          | inl (e, away) ↦ inl (e, away)
          | inr (here, e) ↦ inr ((b'c', color), here, refl, e)
        ]))

-- A snake that has a head, as every snake of a game does.
abbrev pub HasHead : ℤ × PlayerData → Type 0
HasHead (id, p) = (head : Cell) × (cells : List Cell) × (p.segments ≡ head ∷ cells)

-- The drawing of one snake.
DrawnAs : ℤ × PlayerData → List Drawn → Type 0
DrawnAs q ds = (c : Cell) → Single (IsSnake c) (SnakeLook c) q (seen_at c ds)

-- A body over the head before it.
body_over_head :
    (c head : Cell) (id : ℤ) (p : PlayerData) (cells : List Cell) (v u : Option (ℕ × ℤ))
    → p.segments ≡ head ∷ cells
    → Layer (λ b. c ≡ b) (λ b look. look ≡ (b'c', p.color)) cells v
    → ((u ≡ none) × (c ≢ head)) ⊎ ((c ≡ head) × (u ≡ some (p.direction, white)))
    → Single (IsSnake c) (SnakeLook c) (id, p) (over v u)
unfolding over
body_over_head c head id p cells v u e (inr (b, look, there, here, looks, shown)) d =
    inr (look, rw e (inr (subst (λ z. z ∈ cells) (sym here) there)), inl looks, rw shown refl)
body_over_head c head id p cells v u e (inl (shown, away)) (inl (nothing, off)) =
    inl (rw shown nothing, λ m. on (subst (λ z. c ∈ z) e m))
  where
    on : c ∈ (head ∷ cells) → ⊥
    on (inl same) = off same
    on (inr there) = away c there refl
body_over_head c head id p cells v u e (inl (shown, away)) (inr (here, drawn)) =
    inr ((p.direction, white), rw e (inl here), inr (refl, cells, rw here e), rw shown drawn)

render_player-Single :
    (id : ℤ) (p : PlayerData)
    → HasHead (id, p)
    → (ds : List Drawn) × (render_player p p.segments ≡ some ds) × DrawnAs (id, p) ds
unfolding render_player DrawnAs
render_player-Single id p ((x, y), cells, e) = (
  render_char_to_screen x y p.direction white ∷ render_body p.color cells,
  rw (e, render_player) refl,
  λ c. rw (seen_at-render_char_to_screen x y p.direction white c (render_body p.color cells)) (
      body_over_head c (x, y) id p cells _ _ e (body-Layer c p.color cells)
        (dot-cases x y p.direction white c)),
)

render_players-Layer :
    (players : List (ℤ × PlayerData))
    → All HasHead players
    → (ds : List Drawn) × (render_players players ≡ some ds)
      × ((c : Cell) → Layer (IsSnake c) (SnakeLook c) players (seen_at c ds))
unfolding render_players DrawnAs
render_players-Layer [] h = ([], refl, λ c. inl (refl, λ a m. absurd m))
render_players-Layer ((id, p) ∷ players) (h, hs) =
    let (ds, e, single) = render_player-Single id p h in
    let (rest, es, layer) = render_players-Layer players hs in
    (
      ds ++ rest,
      rw (e, render_players) (rw (es, render_players) refl),
      λ c.
          rw (seen_at-append c ds rest)
            (cons-Layer (IsSnake c) (SnakeLook c) (id, p) players _ _ (layer c) (single c)),
    )

-- What the screen shows: snakes above food and boosts, and these above the frame and the empty arena.
pub record IsRendered (w h : ℕ) (s : GameState) (ds : List Drawn) : Type 0 where
  pub snake :
      (c : Cell) (q : ℤ × PlayerData)
      → q ∈ s.players
      → IsSnake c q
      → (r : ℤ × PlayerData) × (look : ℕ × ℤ) × (r ∈ s.players)
        × IsSnake c r
        × SnakeLook c r look
        × (seen_at c ds ≡ some look)
  pub object :
      (c : Cell) (f : FoodData)
      → ((q : ℤ × PlayerData) → q ∈ s.players → ¬ IsSnake c q)
      → f ∈ (s.food ++ s.speed_boosts)
      → c ≡ place f
      → (g : FoodData) × (g ∈ (s.food ++ s.speed_boosts))
        × (c ≡ place g)
        × (seen_at c ds ≡ some (g.icon, g.color))
  pub free :
      (c : Cell)
      → ((q : ℤ × PlayerData) → q ∈ s.players → ¬ IsSnake c q)
      → ((f : FoodData) → f ∈ (s.food ++ s.speed_boosts) → c ≢ place f)
      → seen_at c ds ≡ frame w h c

render_objects-Layer :
    (s : GameState) (c : Cell)
    → Layer (λ f. c ≡ place f) ObjectLook (s.food ++ s.speed_boosts) (seen_at c (render_objects s))
unfolding render_objects
render_objects-Layer s c =
    rw (seen_at-append c (map render_object s.food) (map render_object s.speed_boosts)) (
      append-Layer (λ f. c ≡ place f) ObjectLook s.food s.speed_boosts _ _ (map-Layer c s.food)
        (map-Layer c s.speed_boosts))

module _ (w h : ℕ) (s : GameState) (ds : List Drawn)
    (snakes : (c : Cell) → Layer (IsSnake c) (SnakeLook c) s.players (seen_at c ds)) where
  abbrev whole : List Drawn
  whole = render_arena w h ++ render_objects s ++ ds

  seen_at-whole :
      (c : Cell)
      → seen_at c whole ≡ over (seen_at c ds) (over (seen_at c (render_objects s)) (frame w h c))
  seen_at-whole c = rw (seen_at-append c (render_arena w h ++ render_objects s) ds) (
      rw (seen_at-append c (render_arena w h) (render_objects s))
        (rw (render_arena-seen_at w h c) refl))

  whole-IsRendered : IsRendered w h s whole
  unfolding over
  whole-IsRendered = record {
    snake = λ c q there covers. elim (snakes c) [
      | inl (e, away) ↦ absurd (away q there covers)
      | inr (r, look, m, on, looks, e) ↦ (r, look, m, on, looks, seen_at-whole c ∙ rw e refl)
    ];
    object = λ c f off there here. elim (snakes c) [
      | inr (r, look, m, on, looks, e) ↦ absurd (off r m on)
      | inl (e, away) ↦ elim (render_objects-Layer s c) [
        | inl (e', none_here) ↦ absurd (none_here f there here)
        | inr (g, look, m, on, looks, e') ↦
            (g, m, on, seen_at-whole c ∙ rw e (rw e' (ap some looks)))
      ]
    ];
    free = λ c off nothing. elim (snakes c) [
      | inr (r, look, m, on, looks, e) ↦ absurd (off r m on)
      | inl (e, away) ↦ elim (render_objects-Layer s c) [
        | inl (e', none_here) ↦ seen_at-whole c ∙ rw e (rw e' refl)
        | inr (g, look, m, on, looks, e') ↦ absurd (nothing g m on)
      ]
    ];
  }

pub render-IsRendered :
    (w h : ℕ) (s : GameState)
    → All HasHead s.players
    → (ds : List Drawn) × (render w h s ≡ some ds) × IsRendered w h s ds
unfolding render
render-IsRendered w h s heads =
    let (ds, e, snakes) = render_players-Layer s.players heads in
    (whole w h s ds snakes, rw (e, render) refl, whole-IsRendered w h s ds snakes)
