-- ===== src/Pathfinder/Moves.antt =====
-- `calculateNextMove`: of the moves that the rules allow, one to a cell of the lowest value, and with
-- the map of `rebuildMap` one on a shortest way to food.
use snake_multiplayer.Base.{
  ℕ, ◌≤◌, ◌<◌, ◌≡◌, ◌≢◌, refl, sym, subst, ◌⊎◌, inl, inr, List, ◌∷◌, some, ok, arith, true, not,
  ◌&&◌, ◌==◌,
}
use snake_multiplayer.Base.Int.{pos_part, ℤ, pos, ltb_ℤ, ◌+ℤ◌}
use snake_multiplayer.Base.Map.{lookup, int_key}
use snake_multiplayer.Snake.{Cell}
use snake_multiplayer.Engine.Arena.{InArena}
use snake_multiplayer.Engine.Input.{IsDirection, opposite}
use snake_multiplayer.Client.GameState.{PlayerData, GameState}
use snake_multiplayer.Pathfinder.{
  long_max, Grid, cell, first_segment, calculate_next_move, up, down, left, right,
}
use snake_multiplayer.Pathfinder.Choice.{IsLowest, nothing, lowest, Or, consider-IsLowest}

abbrev pub Target : Cell → ℕ → Cell → Type 0
Target head key c =
    ((key ≡ b'^') × (c ≡ up head))
    ⊎ ((key ≡ b'v') × (c ≡ down head))
    ⊎ ((key ≡ b'<') × (c ≡ left head))
    ⊎ ((key ≡ b'>') × (c ≡ right head))

-- A move that the rules allow to a snake with this direction and head: not straight back, and to a
-- cell of the arena.
pub record IsMove (w h direction : ℕ) (head : Cell) (key : ℕ) (c : Cell) : Type 0 where
  pub turn : IsDirection key × (direction ≢ opposite key)
  pub target : Target head key c
  pub in_arena : InArena w h c

module _ (w h d : ℕ) (x y : ℤ) (v : InArena w h (x, y)) where
  up_guard : (not (d == b'v') && ltb_ℤ (pos 1) y) ≡ true → (d ≢ b'v') × InArena w h (up (x, y))
  unfolding ◌+ℤ◌
  up_guard e = ground arith

  down_guard : (not (d == b'^') && ltb_ℤ y (pos h)) ≡ true → (d ≢ b'^') × InArena w h (down (x, y))
  unfolding ◌+ℤ◌
  down_guard e = ground arith

  left_guard : (not (d == b'>') && ltb_ℤ (pos 1) x) ≡ true → (d ≢ b'>') × InArena w h (left (x, y))
  unfolding ◌+ℤ◌
  left_guard e = ground arith

  right_guard :
      (not (d == b'<') && ltb_ℤ x (pos w)) ≡ true → (d ≢ b'<') × InArena w h (right (x, y))
  unfolding ◌+ℤ◌
  right_guard e = ground arith

  guard_up : d ≢ b'v' → InArena w h (up (x, y)) → (not (d == b'v') && ltb_ℤ (pos 1) y) ≡ true
  unfolding ◌+ℤ◌
  guard_up ne a = ground arith

  guard_down : d ≢ b'^' → InArena w h (down (x, y)) → (not (d == b'^') && ltb_ℤ y (pos h)) ≡ true
  unfolding ◌+ℤ◌
  guard_down ne a = ground arith

  guard_left : d ≢ b'>' → InArena w h (left (x, y)) → (not (d == b'>') && ltb_ℤ (pos 1) x) ≡ true
  unfolding ◌+ℤ◌
  guard_left ne a = ground arith

  guard_right : d ≢ b'<' → InArena w h (right (x, y)) → (not (d == b'<') && ltb_ℤ x (pos w)) ≡ true
  unfolding ◌+ℤ◌
  guard_right ne a = ground arith

module _ (w h : ℕ) (m : Grid) where
  -- What the pathfinder answers: '?' only where every move leads under a snake.
  pub data IsBest (direction : ℕ) (head : Cell) : ℕ → Type 0 where
    blocked :
        ((key : ℕ) (c : Cell) (v : ℕ) → IsMove w h direction head key c → cell m c ≡ ok (pos v) → ⊥)
        → IsBest direction head b'?'
    best :
        (key : ℕ) (c : Cell) (v : ℕ)
        → IsMove w h direction head key c
        → cell m c ≡ ok (pos v)
        → ((key' : ℕ) (c' : Cell) (v' : ℕ)
            → IsMove w h direction head key' c'
            → cell m c' ≡ ok (pos v')
            → v ≤ v')
        → IsBest direction head key

  module _ (d : ℕ) (x y : ℤ) (a : InArena w h (x, y)) where
    -- The moves that pass the conditions of the code.
    abbrev Seen : ℕ → Cell → Type 0
    Seen =
        Or
          (Or
            (Or (Or (λ _ _. ⊥) (not (d == b'v') && ltb_ℤ (pos 1) y) b'^' (up (x, y)))
              (not (d == b'^') && ltb_ℤ y (pos h)) b'v' (down (x, y)))
            (not (d == b'>') && ltb_ℤ (pos 1) x) b'<' (left (x, y)))
          (not (d == b'<') && ltb_ℤ x (pos w)) b'>' (right (x, y))

    turn_to :
        (key : ℕ)
        → IsDirection key
        → d ≢ opposite key
        → (c : Cell) → Target (x, y) key c
        → InArena w h c
        → IsMove w h d (x, y) key c
    turn_to key i ne c t b = record { turn = (i, ne); target = t; in_arena = b }

    Seen-IsMove : (key : ℕ) (c : Cell) → Seen key c → IsMove w h d (x, y) key c
    Seen-IsMove key c (inl (e, ek, ec)) =
        let (ne, b) = right_guard w h d x y a e in
        turn_to key (ground arith) (ground arith) c (inr (inr (inr (ek, ec))))
          (subst (InArena w h) (sym ec) b)
    Seen-IsMove key c (inr (inl (e, ek, ec))) =
        let (ne, b) = left_guard w h d x y a e in
        turn_to key (ground arith) (ground arith) c (inr (inr (inl (ek, ec))))
          (subst (InArena w h) (sym ec) b)
    Seen-IsMove key c (inr (inr (inl (e, ek, ec)))) =
        let (ne, b) = down_guard w h d x y a e in
        turn_to key (ground arith) (ground arith) c (inr (inl (ek, ec)))
          (subst (InArena w h) (sym ec) b)
    Seen-IsMove key c (inr (inr (inr (inl (e, ek, ec))))) =
        let (ne, b) = up_guard w h d x y a e in
        turn_to key (ground arith) (ground arith) c (inl (ek, ec)) (subst (InArena w h) (sym ec) b)
    Seen-IsMove key c (inr (inr (inr (inr never)))) = absurd never

    IsMove-Seen : (key : ℕ) (c : Cell) → IsMove w h d (x, y) key c → Seen key c
    IsMove-Seen key c v = elim v.target [
      | inl (ek, ec) ↦
          let e = guard_up w h d x y a (rw ek at v.turn.1) (subst (InArena w h) ec v.in_arena) in
          inr (inr (inr (inl (e, ek, ec))))
      | inr (inl (ek, ec)) ↦
          let e = guard_down w h d x y a (rw ek at v.turn.1) (subst (InArena w h) ec v.in_arena) in
          inr (inr (inl (e, ek, ec)))
      | inr (inr (inl (ek, ec))) ↦
          let e = guard_left w h d x y a (rw ek at v.turn.1) (subst (InArena w h) ec v.in_arena) in
          inr (inl (e, ek, ec))
      | inr (inr (inr (ek, ec))) ↦
          let e = guard_right w h d x y a (rw ek at v.turn.1) (subst (InArena w h) ec v.in_arena) in
          inl (e, ek, ec)
    ]

    IsLowest-IsBest : (low : ℤ × ℕ) → IsLowest m Seen low → IsBest d (x, y) low.1
    IsLowest-IsBest _ (nothing f) = blocked (λ key c v move e. f key c v (IsMove-Seen key c move) e)
    IsLowest-IsBest _ (lowest key c v s e f) =
        best key c v (Seen-IsMove key c s) e
          (λ key' c' v' move e'. f key' c' v' (IsMove-Seen key' c' move) e')

  -- The numbers of the arena are below LONG_MAX.
  abbrev pub IsShort : Type 0
  IsShort = (c : Cell) → InArena w h c → (v : ℤ) × (cell m c ≡ ok v) × (pos_part v < long_max)

  pub calculate_next_move-IsBest :
      (id : ℤ) (g : GameState) (p : PlayerData) (head : Cell) (rest : List Cell)
      → IsShort
      → lookup id g.players ≡ some p
      → p.segments ≡ head ∷ rest
      → InArena w h head
      → (key : ℕ) × (calculate_next_move (record { width = w; height = h; dijkstra_map = m }) id g
          ≡ ok key)
        × IsBest p.direction head key
  unfolding calculate_next_move first_segment
  calculate_next_move-IsBest id g p (x, y) rest short known segments a =
      let d = p.direction in
      let (l₁, e₁, s₁) =
        consider-IsLowest m (λ _ _. ⊥) b'^' (up (x, y)) (not (d == b'v') && ltb_ℤ (pos 1) y)
          (pos long_max, b'?') (nothing (λ _ _ _ never _. never))
          (λ e. short (up (x, y)) (up_guard w h d x y a e).1) in
      let (l₂, e₂, s₂) =
        consider-IsLowest m _ b'v' (down (x, y)) (not (d == b'^') && ltb_ℤ y (pos h)) l₁ s₁
          (λ e. short (down (x, y)) (down_guard w h d x y a e).1) in
      let (l₃, e₃, s₃) =
        consider-IsLowest m _ b'<' (left (x, y)) (not (d == b'>') && ltb_ℤ (pos 1) x) l₂ s₂
          (λ e. short (left (x, y)) (left_guard w h d x y a e).1) in
      let (l₄, e₄, s₄) =
        consider-IsLowest m _ b'>' (right (x, y)) (not (d == b'<') && ltb_ℤ x (pos w)) l₃ s₃
          (λ e. short (right (x, y)) (right_guard w h d x y a e).1) in
      (
        l₄.1,
        rw known (rw segments (rw e₁ (rw e₂ (rw e₃ (rw e₄ refl))))),
        IsLowest-IsBest d x y a l₄ s₄,
      )
