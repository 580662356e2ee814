-- ===== src/Pathfinder/Visit.antt =====
-- A round of the loop of `computePaths`: the queue holds the cells of one distance and then those
-- of the next, and whatever is off the queue has its neighbours reached.
use snake_multiplayer.Base.{
  append-∈_left, append-∈_right, ℕ, suc, ◌+◌, ◌*◌, ◌≤◌, ◌<◌, ◌≡◌, ◌≢◌, ap, sym, ◌∙◌, subst, ◌⊎◌,
  inl, inr, ◌∈◌, List, [], ◌∷◌, ◌++◌, append_assoc, All, All-append, ok, ok_inj, arith, true, false,
  Bool-cases,
}
use snake_multiplayer.Base.Int.{pos_part, ==ℤ→eq, ℤ, pos, negsuc, ◌+ℤ◌, ◌==ℤ◌}
use snake_multiplayer.Base.Map.Laws.{All-mono}
use snake_multiplayer.Base.Map.{cell_key}
use snake_multiplayer.Base.Map.Assign.{key_cases}
use snake_multiplayer.Snake.{Cell}
use snake_multiplayer.Engine.Arena.{InArena}
use snake_multiplayer.Client.GameState.{GameState}
use snake_multiplayer.Pathfinder.{int_max, Grid, cell, is_outside, reach_cell}
use snake_multiplayer.Pathfinder.Grid.{InMap, IsShape, IsPut, put-InMap, unseen}
use snake_multiplayer.Pathfinder.Walks.{Next, IsBody, IsGoal, Walk, step}

pub suc_lem : (k : ℕ) → (pos k +ℤ pos 1) ≡ pos (suc k)
unfolding ◌+ℤ◌
suc_lem k = ground arith

pub outside_not : (w h : ℕ) (c : Cell) → is_outside w h c ≡ true → InArena w h c → ⊥
outside_not w h c e v = ground arith

pub inside : (w h : ℕ) (c : Cell) → is_outside w h c ≡ false → InArena w h c
inside w h c e = ground arith

pub InArena-InMap : (w h : ℕ) (c : Cell) → InArena w h c → InMap w h c
InArena-InMap w h c v = (omega arith, omega arith, omega arith, omega arith)

-- A cell whose distance is known.
abbrev pub Known : Grid → Cell → ℕ → Type 0
Known m c v = (cell m c ≡ ok (pos v)) × (v < int_max)

pub known_not : (v : ℕ) → v < int_max → (pos v ==ℤ pos int_max) ≡ false
known_not v l = ground arith

-- No value that is known changes.
pub record Grows (m m' : Grid) : Type 0 where
  pub keeps : (c : Cell) (v : ℤ) → cell m c ≡ ok v → v ≢ pos int_max → cell m' c ≡ ok v
  pub fewer : unseen m' ≤ unseen m

pub Grows-refl : (m : Grid) → Grows m m
Grows-refl m = record { keeps = λ c v e ne. e; fewer = omega arith }

pub Grows-trans : (m₁ m₂ m₃ : Grid) → Grows m₁ m₂ → Grows m₂ m₃ → Grows m₁ m₃
Grows-trans m₁ m₂ m₃ a b = record {
  keeps = λ c v e ne. b.keeps c v (a.keeps c v e ne) ne;
  fewer = omega (arith, a.fewer, b.fewer);
}

pub below_max : (v : ℕ) → v < int_max → pos v ≢ pos int_max
below_max v l = λ e. absurd (omega (arith, ap pos_part e))

module _ (w h : ℕ) (g : GameState) where
  abbrev pub size : ℕ
  size = suc h * suc w

  -- Every neighbour that a snake can go to is reached with one step more at most.
  abbrev pub IsClosed : Grid → ℕ → Cell → Type 0
  IsClosed m n c =
      (d : Cell)
      → Next c d
      → InArena w h d
      → (IsBody w h g d → ⊥)
      → (v : ℕ) × Known m d v × (v ≤ suc n)

  -- What a cell of the map may be, in a round where the cells of `near` are `k` steps away, and
  -- those of `far` one more.
  pub data Place (k : ℕ) (m : Grid) (near far : List Cell) (current : Cell → Type 0) (c : Cell)
      : Type 0 where
    covered : IsBody w h g c → cell m c ≡ ok (negsuc 0) → Place k m near far current c
    unvisited : (IsBody w h g c → ⊥) → cell m c ≡ ok (pos int_max) → Place k m near far current c
    reached :
        (n : ℕ)
        → cell m c ≡ ok (pos n)
        → Walk w h g n c
        → n ≤ suc k
        → n + unseen m ≤ size
        → (c ∈ near) ⊎ (c ∈ far) ⊎ current c ⊎ IsClosed m n c
        → Place k m near far current c

  abbrev pub At : Grid → ℕ → Cell → Type 0
  At m k c = InMap w h c × Known m c k

  pub record IsSearched (k : ℕ) (m : Grid) (near far : List Cell) (current : Cell → Type 0)
      : Type 0 where
    pub shape : IsShape w h m
    pub near_at : All (At m k) near
    pub far_at : All (At m (suc k)) far
    pub goal : (c : Cell) → IsGoal w h g c → cell m c ≡ ok (pos 0)
    pub each : (c : Cell) → InMap w h c → Place k m near far current c

  pub IsClosed-Grows :
      (m m' : Grid) (n : ℕ) (c : Cell) → Grows m m' → IsClosed m n c → IsClosed m' n c
  IsClosed-Grows m m' n c grow f = λ d next a b.
      let (v, (e, l), le) = f d next a b in (v, (grow.keeps d (pos v) e (below_max v l), l), le)

  module _ (small : size < int_max) where
    pub below : (n : ℕ) (m : Grid) → n + unseen m ≤ size → n < int_max
    below n m r = omega (arith, small)

    -- There is an unvisited place, which is one less after a distance is written.
    put-unseen :
        (n : ℕ) (m m' : Grid) (d : Cell)
        → IsShape w h m
        → InMap w h d
        → n + unseen m ≤ size
        → cell m d ≡ ok (pos int_max)
        → IsPut w h (pos (suc n)) m d m'
        → (suc (unseen m') ≡ unseen m) × (suc n < int_max)
    put-unseen n m m' d s i r e p =
        let (zeroed, ez, pz) = put-InMap w h (pos 0) m d s i in
        let some_left = pz.counts (pos int_max) e in
        let fits : suc n < int_max = omega (arith, small, some_left) in
        elim (Bool-cases (pos (suc n) ==ℤ pos int_max)) [
          | inl same ↦ absurd (below_max (suc n) fits (==ℤ→eq (pos (suc n)) (pos int_max) same))
          | inr other ↦ (omega (arith, rw other at p.counts (pos int_max) e), fits)
        ]

    -- What the other cells are stays.
    Place-Grows :
        (k : ℕ) (m m' : Grid) (near far : List Cell) (current : Cell → Type 0) (x d : Cell)
        → Grows m m'
        → cell m' x ≡ cell m x
        → Place k m near far current x
        → Place k m' near (far ++ (d ∷ [])) current x
    Place-Grows k m m' near far current x d grow same (covered b e) = covered b (same ∙ e)
    Place-Grows k m m' near far current x d grow same (unvisited b e) = unvisited b (same ∙ e)
    Place-Grows k m m' near far current x d grow same (reached n e walk le room how) =
        reached n (same ∙ e) walk le (omega (arith, grow.fewer)) (elim how [
          | inl on ↦ inl on
          | inr (inl on) ↦ inr (inl (append-∈_left x far (d ∷ []) on))
          | inr (inr (inl on)) ↦ inr (inr (inl on))
          | inr (inr (inr off)) ↦ inr (inr (inr (IsClosed-Grows m m' n x grow off)))
        ])

    -- An unvisited neighbour of a cell that is `k` steps away gets its distance.
    pub reach_cell-IsSearched :
        (k : ℕ) (m : Grid) (near far : List Cell) (current : Cell → Type 0) (c d : Cell)
        → IsSearched k m near far current
        → Walk w h g k c
        → k + unseen m ≤ size
        → Next c d
        → InArena w h d
        → (IsBody w h g d → ⊥)
        → cell m d ≡ ok (pos int_max)
        → (m' : Grid) × (reach_cell (pos (suc k)) d (m, near ++ far)
            ≡ ok (m', near ++ (far ++ (d ∷ []))))
          × IsSearched k m' near (far ++ (d ∷ [])) current
          × Grows m m'
          × Known m' d (suc k)
          × (suc (unseen m') ≡ unseen m)
    unfolding reach_cell
    reach_cell-IsSearched k m near far current c d s walk room next a nb e =
        let i = InArena-InMap w h d a in
        let (m', ep, p) = put-InMap w h (pos (suc k)) m d s.shape i in
        let (one, fits) = put-unseen k m m' d s.shape i room e p in
        let grow : Grows m m' = record {
          keeps = λ x v ev ne. elim (key_cases x d) [
            | inl same ↦ absurd (ne (ok_inj v (pos int_max) (sym ev ∙ ap (cell m) same ∙ e)))
            | inr other ↦ p.there x other ∙ ev
          ];
          fewer = omega (arith, one);
        } in
        let at_k : (n : ℕ) (x : Cell) → At m n x → At m' n x =
          λ n x (ix, (ex, l)). (ix, (grow.keeps x (pos n) ex (below_max n l), l)) in
        (
          m',
          rw ep (rw append_assoc),
          record {
            shape = p.shape;
            near_at = All-mono _ _ (at_k k) near s.near_at;
            far_at =
                All-append _ far (d ∷ []) (All-mono _ _ (at_k (suc k)) far s.far_at)
                  ((i, (p.here, fits)), tt);
            goal = λ x gx. grow.keeps x (pos 0) (s.goal x gx) (below_max 0 (omega arith));
            each = λ x ix. elim (key_cases x d) [
              | inl same ↦
                  reached (suc k) (ap (cell m') same ∙ p.here)
                    (subst (Walk w h g (suc k)) (sym same) (step k c d walk next a nb))
                    (omega arith) (omega (arith, one))
                    (inr (inl (append-∈_right x far (d ∷ []) (inl same))))
              | inr other ↦
                  Place-Grows k m m' near far current x d grow (p.there x other) (s.each x ix)
            ];
          },
          grow,
          (p.here, fits),
          one,
        )
