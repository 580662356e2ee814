-- ===== src/Pathfinder/Populate.antt =====
-- `populateFoodAndPlayers`: snakes are -1, food and boosts that they do not cover 0, and all else
-- is unvisited.
use snake_multiplayer.Base.{
  ∈-append, append-∈_left, append-∈_right, ℕ, zero, suc, ◌<◌, ◌≡◌, refl, ap, sym, ◌∙◌, inl, inr,
  ◌∈◌, List, [], ◌∷◌, ◌++◌, map, replicate, length, get_elem?, All, ok, ◌>>=◌, bind_cong,
  bind_assoc, length-replicate, arith, some,
}
use snake_multiplayer.Base.Int.{ℤ, pos, negsuc}
use snake_multiplayer.Base.Map.{cell_key}
use snake_multiplayer.Base.Map.Assign.{member}
use snake_multiplayer.Snake.{Cell}
use snake_multiplayer.Client.GameState.{PlayerData, GameState}
use snake_multiplayer.Pathfinder.{
  int_max, Grid, row_at, cell, put, put_all, put_players, populate_food_and_players, item_cell,
  cleared,
}
use snake_multiplayer.Pathfinder.Grid.{InMap, IsShape, put-InMap}
use snake_multiplayer.Pathfinder.Walks.{bodies, items, IsDrawn, IsBody, IsGoal}

put_all-append :
    (v : ℤ) (m : Grid) (xs ys : List Cell)
    → put_all v m (xs ++ ys) ≡ (put_all v m xs >>= λ m'. put_all v m' ys)
unfolding put_all
put_all-append v m [] ys = refl
put_all-append v m (x ∷ xs) ys =
    bind_cong (put v m x) _ _ (λ m'. put_all-append v m' xs ys) ∙ bind_assoc (put v m x) _ _

put_players-bodies :
    (m : Grid) (ps : List (ℤ × PlayerData)) → put_players m ps ≡ put_all (negsuc 0) m (bodies ps)
unfolding put_players put_all
put_players-bodies m [] = refl
put_players-bodies m ((id, p) ∷ ps) =
    bind_cong (put_all (negsuc 0) m p.segments) _ _ (λ m'. put_players-bodies m' ps)
    ∙ sym (put_all-append (negsuc 0) m p.segments (bodies ps))

module _ (w h : ℕ) where
  -- The cells of the list hold the value, the others what they held.
  pub record IsFilled (v : ℤ) (cs : List Cell) (m m' : Grid) : Type 0 where
    pub shape : IsShape w h m'
    pub inside : (c : Cell) → c ∈ cs → cell m' c ≡ ok v
    pub outside : (c : Cell) → (c ∈ cs → ⊥) → cell m' c ≡ cell m c

  put_all-IsFilled :
      (v : ℤ) (m : Grid) (cs : List Cell)
      → IsShape w h m
      → All (InMap w h) cs
      → (m' : Grid) × (put_all v m cs ≡ ok m') × IsFilled v cs m m'
  unfolding put_all
  put_all-IsFilled v m [] s i =
      (m, refl, record { shape = s; inside = λ c x. absurd x; outside = λ c x. refl })
  put_all-IsFilled v m (c ∷ cs) s i =
      let (m₁, e₁, p) = put-InMap w h v m c s i.0 in
      let (m₂, e₂, f) = put_all-IsFilled v m₁ cs p.shape i.1 in
      (
        m₂,
        rw e₁ e₂,
        record {
          shape = f.shape;
          inside = λ d x. elim (member d cs) [
            | inl later ↦ f.inside d later
            | inr away ↦ elim x [
              | inl e ↦ f.outside d away ∙ ap (cell m₁) e ∙ p.here
              | inr later ↦ absurd (away later)
            ]
          ];
          outside = λ d x. f.outside d (λ y. x (inr y)) ∙ p.there d (λ e. x (inl e));
        },
      )

  cleared-IsShape : IsShape w h (cleared w h)
  cleared-IsShape = record {
    rows = length-replicate (suc h) (replicate (suc w) (pos int_max));
    columns = go (suc h);
  }
    where
      go : (n : ℕ) → All (λ r. length r ≡ suc w) (replicate n (replicate (suc w) (pos int_max)))
      go zero = tt
      go (suc n) = (length-replicate (suc w) (pos int_max), go n)

  get_elem?-replicate :
      {A : Type 0} (n : ℕ) (a : A) (i : ℕ) → i < n → get_elem? (replicate n a) i ≡ some a
  get_elem?-replicate zero a i l = absurd (omega arith)
  get_elem?-replicate (suc n) a zero l = refl
  get_elem?-replicate (suc n) a (suc i) l = get_elem?-replicate n a i (omega arith)

  cell-cleared : (c : Cell) → InMap w h c → cell (cleared w h) c ≡ ok (pos int_max)
  unfolding cell row_at
  cell-cleared (pos a, pos b) i =
      rw (get_elem?-replicate (suc h) (replicate (suc w) (pos int_max)) b (omega arith))
        (rw (get_elem?-replicate (suc w) (pos int_max) a (omega arith)))
  cell-cleared (pos a, negsuc b) i = absurd (omega arith)
  cell-cleared (negsuc a, y) i = absurd (omega arith)

  module _ (g : GameState) where
    pub record IsPopulated (m : Grid) : Type 0 where
      pub shape : IsShape w h m
      pub body : (c : Cell) → IsBody w h g c → cell m c ≡ ok (negsuc 0)
      pub goal : (c : Cell) → IsGoal w h g c → cell m c ≡ ok (pos 0)
      pub free :
          (c : Cell)
          → InMap w h c
          → (IsBody w h g c → ⊥)
          → (IsGoal w h g c → ⊥)
          → cell m c ≡ ok (pos int_max)

    pub populate-IsPopulated :
        IsDrawn w h g
        → (m : Grid) × (populate_food_and_players (cleared w h) g ≡ ok m) × IsPopulated m
    unfolding populate_food_and_players
    populate-IsPopulated d =
        let (m₁, e₁, f₁) =
          put_all-IsFilled (pos 0) (cleared w h) (map item_cell g.food) cleared-IsShape d.food in
        let (m₂, e₂, f₂) =
          put_all-IsFilled (pos 0) m₁ (map item_cell g.speed_boosts) f₁.shape d.speed_boosts in
        let (m₃, e₃, f₃) = put_all-IsFilled (negsuc 0) m₂ (bodies g.players) f₂.shape d.snakes in
        let fed : (c : Cell) → c ∈ items g → cell m₂ c ≡ ok (pos 0) = λ c x.
          elim (member c (map item_cell g.speed_boosts)) [
            | inl boost ↦ f₂.inside c boost
            | inr away ↦ elim (∈-append c (map item_cell g.food) (map item_cell g.speed_boosts) x) [
              | inl food ↦ f₂.outside c away ∙ f₁.inside c food
              | inr boost ↦ absurd (away boost)
            ]
          ] in
        (
          m₃,
          rw e₁ (rw e₂ (put_players-bodies m₂ g.players ∙ e₃)),
          record {
            shape = f₃.shape;
            body = f₃.inside;
            goal = λ c x. f₃.outside c x.1 ∙ fed c x.0;
            free = λ c i nb ng.
                let no : (c ∈ items g) → ⊥ = λ x. ng (x, nb) in
                f₃.outside c nb
                ∙ f₂.outside c (λ x. no (append-∈_right c (map item_cell g.food) _ x))
                ∙ f₁.outside c (λ x. no (append-∈_left c _ (map item_cell g.speed_boosts) x))
                ∙ cell-cleared c i;
          },
        )
