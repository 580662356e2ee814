-- ===== src/Pathfinder/Seeds.antt =====
-- The cells that the search of `computePaths` starts from: the goals, and no others.
use snake_multiplayer.Base.{
  append-∈_left, append-∈_right, ℕ, ◌+◌, ◌≤◌, ◌≡◌, refl, ap, sym, ◌∙◌, inl, inr, ◌∈◌, List, [], ◌∷◌,
  ◌++◌, map, length, length-append, ok, ok_inj, arith, All, All-append, Bool-cases,
}
use snake_multiplayer.Base.Int.{pos, ◌==ℤ◌, ==ℤ→eq, ==ℤ→ne}
use snake_multiplayer.Snake.{Cell}
use snake_multiplayer.Client.GameState.{FoodData, GameState}
use snake_multiplayer.Pathfinder.{Grid, cell, item_cell, seed}
use snake_multiplayer.Pathfinder.Grid.{InMap, cell-InMap, IsShape}
use snake_multiplayer.Pathfinder.Visit.{At}

module _ (w h : ℕ) (g : GameState) where
  -- What the queue starts with.
  pub record IsSeeded (m : Grid) (to_visit : List Cell) (fs : List FoodData) (out : List Cell)
      : Type 0 where
    pub at : All (At w h g m 0) to_visit → All (At w h g m 0) out
    pub old : (c : Cell) → c ∈ to_visit → c ∈ out
    pub new : (c : Cell) → c ∈ map item_cell fs → cell m c ≡ ok (pos 0) → c ∈ out
    pub size : length out ≤ length to_visit + length fs

  pub seed-IsSeeded :
      (m : Grid) (to_visit : List Cell) (fs : List FoodData)
      → IsShape w h m
      → All (InMap w h) (map item_cell fs)
      → (out : List Cell) × (seed m to_visit fs ≡ ok out) × IsSeeded m to_visit fs out
  unfolding seed
  seed-IsSeeded m to_visit [] s i = (
    to_visit,
    refl,
    record { at = λ a. a; old = λ c x. x; new = λ c x e. absurd x; size = omega arith },
  )
  seed-IsSeeded m to_visit (f ∷ fs) s i =
      let (v, ev) = cell-InMap w h m (item_cell f) s i.0 in
      elim (Bool-cases (v ==ℤ pos 0)) [
        | inl zero_there ↦
            let (out, e, r) = seed-IsSeeded m (to_visit ++ (item_cell f ∷ [])) fs s i.1 in
            let here : cell m (item_cell f) ≡ ok (pos 0) =
              ev ∙ ap ok (==ℤ→eq v (pos 0) zero_there) in
            (
              out,
              rw ev (rw zero_there e),
              record {
                at = λ a.
                    r.at
                      (All-append _ to_visit (item_cell f ∷ []) a ((i.0, (here, omega arith)), tt));
                old = λ c x. r.old c (append-∈_left c to_visit _ x);
                new = λ c x ec. elim x [
                  | inl same ↦ r.old c (append-∈_right c to_visit _ (inl same))
                  | inr later ↦ r.new c later ec
                ];
                size = omega (arith, r.size, length-append to_visit (item_cell f ∷ []));
              },
            )
        | inr other ↦
            let (out, e, r) = seed-IsSeeded m to_visit fs s i.1 in
            (
              out,
              rw ev (rw other e),
              record {
                at = r.at;
                old = r.old;
                new = λ c x ec. elim x [
                  | inl same ↦ absurd (
                      ==ℤ→ne v (pos 0) other
                        (ok_inj v (pos 0) (sym ev ∙ ap (cell m) (sym same) ∙ ec)))
                  | inr later ↦ r.new c later ec
                ];
                size = omega (arith, r.size);
              },
            )
      ]
