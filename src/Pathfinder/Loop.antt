-- ===== src/Pathfinder/Loop.antt =====
-- The loop of `computePaths`, round by round: it ends, and then every cell of the map is covered by
-- a snake, at its distance, or out of reach.
use snake_multiplayer.Base.{
  ℕ, suc, ◌+◌, ◌≤◌, ◌<◌, ◌≡◌, refl, ap, sym, ◌∙◌, subst, inl, inr, List, [], ◌∷◌, ◌++◌, length,
  length-append, ok, ok_inj, ◌>>=◌, Result, if◌then◌else◌, arith, Bool-cases,
}
use snake_multiplayer.Base.Int.{pos_part, pos, ◌==ℤ◌}
use snake_multiplayer.Snake.{Cell}
use snake_multiplayer.Engine.Arena.{InArena}
use snake_multiplayer.Client.GameState.{GameState}
use snake_multiplayer.Pathfinder.{
  Search, reach_cell, int_max, Grid, cell, is_outside, check_neighbour, visit, up, down, left,
  right,
}
use snake_multiplayer.Pathfinder.Grid.{unseen}
use snake_multiplayer.Pathfinder.Walks.{Next, IsBody, Walk}
use snake_multiplayer.Pathfinder.Visit.{
  suc_lem, outside_not, inside, InArena-InMap, Known, known_not, Grows, Grows-refl, Grows-trans,
  below_max, size, IsClosed, Place, covered, unvisited, reached, IsSearched, below,
  reach_cell-IsSearched,
}

pub same_value :
    (m : Grid) (c : Cell) (a b : ℕ) → cell m c ≡ ok (pos a) → cell m c ≡ ok (pos b) → a ≡ b
same_value m c a b e e' = ap pos_part (ok_inj (pos a) (pos b) (sym e ∙ e'))

module _ (w h : ℕ) (g : GameState) (small : size w h g < int_max) where
  -- What looking at a neighbour `d` does to the search.
  record IsChecked (k : ℕ) (m : Grid) (near far : List Cell) (current : Cell → Type 0) (d : Cell)
      (m' : Grid) (far' : List Cell) : Type 0 where
    searched : IsSearched w h g k m' near far' current
    grows : Grows m m'
    known : InArena w h d → (IsBody w h g d → ⊥) → (v : ℕ) × Known m' d v × (v ≤ suc k)
    work : unseen m' + length far' ≡ unseen m + length far

  unchanged :
      (k : ℕ) (m : Grid) (near far : List Cell) (current : Cell → Type 0) (d : Cell)
      → IsSearched w h g k m near far current
      → (InArena w h d → (IsBody w h g d → ⊥) → (v : ℕ) × Known m d v × (v ≤ suc k))
      → IsChecked k m near far current d m far
  unchanged k m near far current d s f = record {
    searched = s;
    grows = Grows-refl m;
    known = f;
    work = refl;
  }

  check_neighbour-IsChecked :
      (k : ℕ) (m : Grid) (near far : List Cell) (current : Cell → Type 0) (c d : Cell)
      → IsSearched w h g k m near far current
      → Walk w h g k c
      → k + unseen m ≤ size w h g
      → Next c d
      → (m' : Grid) × (far' : List Cell) × (check_neighbour w h (pos (suc k)) d (m, near ++ far)
          ≡ ok (m', near ++ far'))
        × IsChecked k m near far current d m' far'
  unfolding check_neighbour
  check_neighbour-IsChecked k m near far current c d s walk room next =
      elim (Bool-cases (is_outside w h d)) [
        | inl out ↦ (
          m,
          far,
          rw out refl,
          unchanged k m near far current d s (λ a. absurd (outside_not w h d out a)),
        )
        | inr in_arena ↦
            rw in_arena
              (go (inside w h d in_arena) (s.each d (InArena-InMap w h d (inside w h d in_arena))))
      ]
    where
      look : Result Search
      look = do
        v ← cell m d
        if v ==ℤ pos int_max
            then reach_cell (pos (suc k)) d (m, near ++ far)
            else ok (m, near ++ far)

      go :
          InArena w h d
          → Place w h g k m near far current d
          → (m' : Grid) × (far' : List Cell) × (look ≡ ok (m', near ++ far'))
            × IsChecked k m near far current d m' far'
      go a (covered b e) =
          (m, far, rw e refl, unchanged k m near far current d s (λ _ nb. absurd (nb b)))
      go a (reached n e walk' le room' how) =
          let fits = below w h g small n m room' in
          (
            m,
            far,
            rw e (rw (known_not n fits)),
            unchanged k m near far current d s (λ _ _. (n, (e, fits), le)),
          )
      go a (unvisited nb e) =
          let (m', em, s', grow, here, one) =
            reach_cell-IsSearched w h g small k m near far current c d s walk room next a nb e in
          (
            m',
            far ++ (d ∷ []),
            rw e em,
            record {
              searched = s';
              grows = grow;
              known = λ _ _. (suc k, here, omega arith);
              work = omega (arith, one, length-append far (d ∷ []));
            },
          )

  -- What was found about a neighbour is still so later in the round.
  IsChecked-later :
      (k : ℕ) (m m' m'' : Grid) (near far far' : List Cell) (current : Cell → Type 0) (d d' : Cell)
      → IsChecked k m near far current d' m' far'
      → Grows m' m''
      → d ≡ d'
      → InArena w h d
      → (IsBody w h g d → ⊥)
      → (v : ℕ) × Known m'' d v × (v ≤ suc k)
  IsChecked-later k m m' m'' near far far' current d d' r grow e a nb =
      let (v, (ev, l), le) =
        r.known (subst (InArena w h) e a) (λ b. nb (subst (IsBody w h g) (sym e) b)) in
      (v, (ap (cell m'') e ∙ grow.keeps d' (pos v) ev (below_max v l), l), le)

  -- A cell on the queue has a walk, and there is room for more distances.
  queued :
      (k : ℕ) (m : Grid) (near far : List Cell) (current : Cell → Type 0) (c : Cell) (n : ℕ)
      → n < int_max
      → cell m c ≡ ok (pos n)
      → Place w h g k m near far current c
      → Walk w h g n c × (n + unseen m ≤ size w h g)
  queued k m near far current c n l e (covered b e') = cc (e, e')
  queued k m near far current c n l e (unvisited b e') =
      absurd (omega (arith, same_value m c n int_max e e'))
  queued k m near far current c n l e (reached n' e' walk le room how) =
      let same = same_value m c n' n e' e in
      (subst (λ x. Walk w h g x c) same walk, subst (λ x. x + unseen m ≤ size w h g) same room)

  -- The front cell comes off the queue.
  taken :
      (k : ℕ) (m : Grid) (near far : List Cell) (c x : Cell)
      → Place w h g k m (c ∷ near) far (λ _. ⊥) x
      → Place w h g k m near far (λ y. y ≡ c) x
  taken k m near far c x (covered b e) = covered b e
  taken k m near far c x (unvisited b e) = unvisited b e
  taken k m near far c x (reached n e walk le room how) = reached n e walk le room (elim how [
    | inl (inl front) ↦ inr (inr (inl front))
    | inl (inr on) ↦ inl on
    | inr (inl on) ↦ inr (inl on)
    | inr (inr (inl never)) ↦ absurd never
    | inr (inr (inr off)) ↦ inr (inr (inr off))
  ])

  -- Its neighbours are reached, so it is done.
  released :
      (k : ℕ) (m : Grid) (near far : List Cell) (c x : Cell)
      → cell m c ≡ ok (pos k)
      → IsClosed w h g m k c
      → Place w h g k m near far (λ y. y ≡ c) x
      → Place w h g k m near far (λ _. ⊥) x
  released k m near far c x ec closed (covered b e) = covered b e
  released k m near far c x ec closed (unvisited b e) = unvisited b e
  released k m near far c x ec closed (reached n e walk le room how) =
      reached n e walk le room (elim how [
        | inl on ↦ inl on
        | inr (inl on) ↦ inr (inl on)
        | inr (inr (inl here)) ↦
            let same = same_value m c n k (ap (cell m) (sym here) ∙ e) ec in
            let closed_x : IsClosed w h g m n x =
              subst (λ y. IsClosed w h g m n y) (sym here)
                (subst (λ y. IsClosed w h g m y c) (sym same) closed) in
            inr (inr (inr closed_x))
        | inr (inr (inr off)) ↦ inr (inr (inr off))
      ])

  -- The cell in front, with its neighbours looked at.
  pub visit-IsSearched :
      (k : ℕ) (m : Grid) (c : Cell) (near far : List Cell)
      → IsSearched w h g k m (c ∷ near) far (λ _. ⊥)
      → (m' : Grid) × (far' : List Cell) × (visit w h m c (near ++ far) ≡ ok (m', near ++ far'))
        × IsSearched w h g k m' near far' (λ _. ⊥)
        × (unseen m' + length far' ≡ unseen m + length far)
  unfolding visit
  visit-IsSearched k m c near far s =
      let (ic, (ec, l)) = s.near_at.0 in
      let (walk, room) = queued k m (c ∷ near) far _ c k l ec (s.each c ic) in
      let s₀ : IsSearched w h g k m near far (λ x. x ≡ c) = record {
        shape = s.shape;
        near_at = s.near_at.1;
        far_at = s.far_at;
        goal = s.goal;
        each = λ x ix. taken k m near far c x (s.each x ix);
      } in
      let (m₁, f₁, e₁, r₁) =
        check_neighbour-IsChecked k m near far _ c (up c) s₀ walk room (inl refl) in
      let (m₂, f₂, e₂, r₂) =
        check_neighbour-IsChecked k m₁ near f₁ _ c (down c) r₁.searched walk
          (omega (arith, r₁.grows.fewer)) (inr (inl refl)) in
      let (m₃, f₃, e₃, r₃) =
        check_neighbour-IsChecked k m₂ near f₂ _ c (left c) r₂.searched walk
          (omega (arith, r₁.grows.fewer, r₂.grows.fewer)) (inr (inr (inl refl))) in
      let (m₄, f₄, e₄, r₄) =
        check_neighbour-IsChecked k m₃ near f₃ _ c (right c) r₃.searched walk
          (omega (arith, r₁.grows.fewer, r₂.grows.fewer, r₃.grows.fewer)) (inr (inr (inr refl))) in
      let grow₃ = Grows-trans m₂ m₃ m₄ r₃.grows r₄.grows in
      let grow₂ = Grows-trans m₁ m₂ m₄ r₂.grows grow₃ in
      let grow₁ = Grows-trans m m₁ m₄ r₁.grows grow₂ in
      let closed : IsClosed w h g m₄ k c = λ d next a nb. elim next [
        | inl e ↦ IsChecked-later k m m₁ m₄ near far f₁ _ d (up c) r₁ grow₂ e a nb
        | inr (inl e) ↦ IsChecked-later k m₁ m₂ m₄ near f₁ f₂ _ d (down c) r₂ grow₃ e a nb
        | inr (inr (inl e)) ↦ IsChecked-later k m₂ m₃ m₄ near f₂ f₃ _ d (left c) r₃ r₄.grows e a nb
        | inr (inr (inr e)) ↦
            IsChecked-later k m₃ m₄ m₄ near f₃ f₄ _ d (right c) r₄ (Grows-refl m₄) e a nb
      ] in
      let done = r₄.searched in
      let ec₄ = grow₁.keeps c (pos k) ec (below_max k l) in
      (
        m₄,
        f₄,
        rw ec (rw (suc_lem k) (rw e₁ (rw e₂ (rw e₃ e₄)))),
        record {
          shape = done.shape;
          near_at = done.near_at;
          far_at = done.far_at;
          goal = done.goal;
          each = λ x ix. released k m₄ near f₄ c x ec₄ closed (done.each x ix);
        },
        omega (arith, r₁.work, r₂.work, r₃.work, r₄.work),
      )
