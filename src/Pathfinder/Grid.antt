-- ===== src/Pathfinder/Grid.antt =====
-- `dijkstraMap` as a table: `cell` reads and writes one place of it, and a write of a distance uses
-- up one of the unvisited places.
use snake_multiplayer.Base.{
  ℕ, zero, suc, ◌+◌, ◌*◌, ◌≤◌, ◌<◌, ◌≡◌, ◌≢◌, refl, ap, sym, ◌∙◌, subst, inl, inr, List, [], ◌∷◌,
  length, set, All, arith, ok, ok_inj, get_elem?-lt, get_elem?-set_self, get_elem?-set_ne,
  length-set, if◌then◌else◌, Bool-cases,
}
use snake_multiplayer.Base.Int.{ℤ, pos, negsuc, ◌≤ℤ◌, ◌==ℤ◌, ==ℤ→eq, ==ℤ→ne}
use snake_multiplayer.Snake.{Cell}
use snake_multiplayer.Pathfinder.{int_max, Grid, row_at, cell, put}

module _ {A : Type 0} where
  row_at-lt : (xs : List A) (i : ℕ) → i < length xs → (a : A) × (row_at xs (pos i) ≡ ok a)
  unfolding row_at
  row_at-lt xs i h = let (a, e) = get_elem?-lt xs i h in (a, rw e)

  row_at-set_self :
      (xs : List A) (i : ℕ) (v : A) → i < length xs → row_at (set xs i v) (pos i) ≡ ok v
  unfolding row_at
  row_at-set_self xs i v h = rw (get_elem?-set_self xs i v h)

  row_at-set_ne :
      (xs : List A) (i : ℕ) (v : A) (j : ℤ) → j ≢ pos i → row_at (set xs i v) j ≡ row_at xs j
  unfolding row_at
  row_at-set_ne xs i v (pos j) h = rw (get_elem?-set_ne xs v (λ e. h (ap pos (sym e))))
  row_at-set_ne xs i v (negsuc j) h = refl

  row_at-ok : (xs : List A) (i : ℕ) (a : A) → row_at xs (pos i) ≡ ok a → i < length xs
  unfolding row_at
  row_at-ok [] i a h = cc
  row_at-ok (x ∷ xs) zero a h = omega arith
  row_at-ok (x ∷ xs) (suc i) a h = omega (arith, row_at-ok xs i a h)

  All-set : (P : A → Type 0) (xs : List A) (i : ℕ) (v : A) → P v → All P xs → All P (set xs i v)
  All-set P [] i v p h = tt
  All-set P (x ∷ xs) zero v p h = (p, h.1)
  All-set P (x ∷ xs) (suc i) v p h = (h.0, All-set P xs i v p h.1)

  All-row_at :
      (P : A → Type 0) (xs : List A) (i : ℕ) (a : A) → All P xs → row_at xs (pos i) ≡ ok a → P a
  unfolding row_at
  All-row_at P [] i a h e = cc
  All-row_at P (x ∷ xs) zero a h e = subst P (ok_inj x a e) h.0
  All-row_at P (x ∷ xs) (suc i) a h e = All-row_at P xs i a h.1 e

-- How many places are not visited yet.
abbrev pub one_if_max : ℤ → ℕ
one_if_max v = if v ==ℤ pos int_max then 1 else 0

abbrev unseen_row : List ℤ → ℕ
unseen_row [] = 0
unseen_row (v ∷ vs) = one_if_max v + unseen_row vs

abbrev pub unseen : Grid → ℕ
unseen [] = 0
unseen (r ∷ rs) = unseen_row r + unseen rs

unseen_row-set :
    (r : List ℤ) (i : ℕ) (old v : ℤ)
    → row_at r (pos i) ≡ ok old
    → unseen_row (set r i v) + one_if_max old ≡ unseen_row r + one_if_max v
unfolding row_at
unseen_row-set [] i old v h = cc
unseen_row-set (x ∷ xs) zero old v h = omega (arith, ap one_if_max (ok_inj x old h))
unseen_row-set (x ∷ xs) (suc i) old v h = omega (arith, unseen_row-set xs i old v h)

unseen-set :
    (m : Grid) (i : ℕ) (old r : List ℤ)
    → row_at m (pos i) ≡ ok old
    → unseen (set m i r) + unseen_row old ≡ unseen m + unseen_row r
unfolding row_at
unseen-set [] i old r h = cc
unseen-set (x ∷ xs) zero old r h = omega (arith, ap unseen_row (ok_inj x old h))
unseen-set (x ∷ xs) (suc i) old r h = omega (arith, unseen-set xs i old r h)

-- A write leaves every other place.
cell-set_ne :
    (m : Grid) (a b : ℕ) (row : List ℤ) (v : ℤ) (d : Cell)
    → row_at m (pos b) ≡ ok row
    → d ≢ (pos a, pos b)
    → cell (set m b (set row a v)) d ≡ cell m d
unfolding cell
cell-set_ne m a b row v (x, y) er ne = elim (Bool-cases (y ==ℤ pos b)) [
  | inl hit ↦
      let same = ==ℤ→eq y (pos b) hit in
      rw same (
        rw (row_at-set_self m b (set row a v) (row_at-ok m b row er))
          (rw er (row_at-set_ne row a v x (λ ex. ne (cc (ex, same))))))
  | inr miss ↦ rw (row_at-set_ne m b (set row a v) y (==ℤ→ne y (pos b) miss))
]

one_if_max-le : (v : ℤ) → one_if_max v ≤ 1
one_if_max-le v = elim (Bool-cases (v ==ℤ pos int_max)) [
  | inl e ↦ rw e (omega arith)
  | inr e ↦ rw e (omega arith)
]

unseen_row-le : (r : List ℤ) → unseen_row r ≤ length r
unseen_row-le [] = omega arith
unseen_row-le (v ∷ vs) = omega (arith, unseen_row-le vs, one_if_max-le v)

module _ (w h : ℕ) where
  -- The places of the map, column and row 0 included.
  abbrev pub InMap : Cell → Type 0
  InMap (x, y) = (pos 0 ≤ℤ x) × (x ≤ℤ pos w) × (pos 0 ≤ℤ y) × (y ≤ℤ pos h)

  pub record IsShape (m : Grid) : Type 0 where
    pub rows : length m ≡ suc h
    pub columns : All (λ r. length r ≡ suc w) m

  abbrev Spot : Cell → Type 0
  Spot c = (a : ℕ) × (b : ℕ) × (c ≡ (pos a, pos b)) × (a < suc w) × (b < suc h)

  spot : (c : Cell) → InMap c → Spot c
  spot (pos a, pos b) v = (a, b, refl, omega arith, omega arith)
  spot (pos a, negsuc b) v = absurd (omega arith)
  spot (negsuc a, y) v = absurd (omega arith)

  unseen-le : (m : Grid) → All (λ r. length r ≡ suc w) m → unseen m ≤ length m * suc w
  unseen-le [] v = omega arith
  unseen-le (r ∷ rs) v = omega (arith, unseen_row-le r, v.0, unseen-le rs v.1)

  pub unseen-IsShape : (m : Grid) → IsShape m → unseen m ≤ suc h * suc w
  unseen-IsShape m v = subst (λ n. unseen m ≤ n * suc w) v.rows (unseen-le m v.columns)

  pub cell-InMap : (m : Grid) (c : Cell) → IsShape m → InMap c → (v : ℤ) × (cell m c ≡ ok v)
  unfolding cell
  cell-InMap m c s i =
      let (a, b, e, la, lb) = spot c i in
      let (row, er) = row_at-lt m b (omega (arith, s.rows)) in
      let wide = All-row_at (λ r. length r ≡ suc w) m b row s.columns er in
      let (v, ev) = row_at-lt row a (omega (arith, wide)) in (v, rw e (rw er ev))

  -- What a write does.
  pub record IsPut (v : ℤ) (m : Grid) (c : Cell) (m' : Grid) : Type 0 where
    pub shape : IsShape m'
    pub here : cell m' c ≡ ok v
    pub there : (d : Cell) → d ≢ c → cell m' d ≡ cell m d
    pub counts :
        (old : ℤ) → cell m c ≡ ok old → unseen m' + one_if_max old ≡ unseen m + one_if_max v

  pub put-InMap :
      (v : ℤ) (m : Grid) (c : Cell)
      → IsShape m
      → InMap c
      → (m' : Grid) × (put v m c ≡ ok m') × IsPut v m c m'
  unfolding put cell
  put-InMap v m c s i =
      let (a, b, e, la, lb) = spot c i in
      let (row, er) = row_at-lt m b (omega (arith, s.rows)) in
      let wide = All-row_at (λ r. length r ≡ suc w) m b row s.columns er in
      let (old, eo) = row_at-lt row a (omega (arith, wide)) in
      let there = row_at-set_self m b (set row a v) (omega (arith, s.rows)) in
      (
        set m b (set row a v),
        rw e (rw er (rw eo)),
        record {
          shape = record {
            rows = length-set m b (set row a v) ∙ s.rows;
            columns =
                All-set (λ r. length r ≡ suc w) m b (set row a v) (length-set row a v ∙ wide)
                  s.columns;
          };
          here = rw e (rw there (row_at-set_self row a v (omega (arith, wide))));
          there = λ d ne. cell-set_ne m a b row v d er (λ x. ne (x ∙ sym e));
          counts = λ was ew. omega (
            arith,
            unseen-set m b row (set row a v) er,
            unseen_row-set row a was v (rw (e, er) at ew),
          );
        },
      )
