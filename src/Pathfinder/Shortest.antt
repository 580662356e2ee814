-- ===== src/Pathfinder/Shortest.antt =====
-- The distances that `rebuildMap` finds are those of the shortest walks.
use snake_multiplayer.Base.{
  ∈-append, All-∈, ℕ, zero, suc, ◌+◌, ◌*◌, ◌≤◌, ◌<◌, ◌≡◌, refl, inl, inr, ◌∈◌, List, [], ◌∷◌, ◌++◌,
  append-nil, map, length, ok, arith, All, All-append,
}
use snake_multiplayer.Base.Int.{pos, negsuc}
use snake_multiplayer.Base.Map.{cell_key}
use snake_multiplayer.Base.Map.Assign.{member}
use snake_multiplayer.Snake.{Cell}
use snake_multiplayer.Client.GameState.{GameState}
use snake_multiplayer.Pathfinder.{
  int_max, Grid, cell, item_cell, search, search_fuel, compute_paths, rebuild_map,
}
use snake_multiplayer.Pathfinder.Grid.{InMap, IsShape, unseen, unseen-IsShape}
use snake_multiplayer.Pathfinder.Walks.{bodies, items, IsDrawn, IsBody, Walk, start, step}
use snake_multiplayer.Pathfinder.Populate.{IsPopulated, populate-IsPopulated}
use snake_multiplayer.Pathfinder.Visit.{
  InArena-InMap, Known, size, Place, covered, unvisited, reached, At, IsSearched,
}
use snake_multiplayer.Pathfinder.Seeds.{seed-IsSeeded}
use snake_multiplayer.Pathfinder.Loop.{same_value, visit-IsSearched}

module _ (w h : ℕ) (g : GameState) where
  -- The queue is empty.
  abbrev IsDone : ℕ → Grid → Type 0
  IsDone k m = IsSearched w h g k m [] [] (λ _. ⊥)

  -- Where only cells of the next distance are left, that is the distance now.
  next_distance :
      (k : ℕ) (m : Grid) (far : List Cell)
      → IsSearched w h g k m [] far (λ _. ⊥)
      → IsSearched w h g (suc k) m far [] (λ _. ⊥)
  next_distance k m far s = record {
    shape = s.shape;
    near_at = s.far_at;
    far_at = tt;
    goal = s.goal;
    each = λ c i. go c (s.each c i);
  }
    where
      go : (c : Cell) → Place w h g k m [] far (λ _. ⊥) c → Place w h g (suc k) m far [] (λ _. ⊥) c
      go c (covered b e) = covered b e
      go c (unvisited b e) = unvisited b e
      go c (reached n e walk le room how) = reached n e walk (omega arith) room (elim how [
        | inl never ↦ absurd never
        | inr (inl on) ↦ inl on
        | inr (inr off) ↦ inr (inr off)
      ])

  module _ (small : size w h g < int_max) where
    search-IsDone :
        (fuel k : ℕ) (m : Grid) (near far : List Cell)
        → IsSearched w h g k m near far (λ _. ⊥)
        → unseen m + (length near + length far) ≤ fuel
        → (k' : ℕ) × (m' : Grid) × (search w h fuel m (near ++ far) ≡ ok m') × IsDone k' m'
    unfolding search
    search-IsDone fuel k m [] [] s l = (k, m, refl, s)
    search-IsDone zero k m [] (c ∷ far) s l = absurd (omega arith)
    search-IsDone zero k m (c ∷ near) far s l = absurd (omega arith)
    search-IsDone (suc fuel) k m [] (c ∷ far) s l =
        let (m', far', e, s', work) =
          visit-IsSearched w h g small (suc k) m c far [] (next_distance k m (c ∷ far) s) in
        let (k'', m'', e', s'') = search-IsDone fuel (suc k) m' far far' s' (omega (arith, work)) in
        (k'', m'', rw (rw append-nil at e) e', s'')
    search-IsDone (suc fuel) k m (c ∷ near) far s l =
        let (m', far', e, s', work) = visit-IsSearched w h g small k m c near far s in
        let (k'', m'', e', s'') = search-IsDone fuel k m' near far' s' (omega (arith, work)) in
        (k'', m'', rw e e', s'')

    Walk-InMap : (n : ℕ) (c : Cell) → IsDrawn w h g → Walk w h g n c → InMap w h c
    Walk-InMap _ _ d (start c goal) =
        All-∈ (InMap w h) (items g) c
          (All-append (InMap w h) (map item_cell g.food) (map item_cell g.speed_boosts) d.food
            d.speed_boosts)
          goal.0
    Walk-InMap _ _ d (step n b c walk next a nb) = InArena-InMap w h c a

    -- At the end no walk is shorter than the distance.
    Walk-Known :
        (k : ℕ) (m : Grid) (n : ℕ) (c : Cell)
        → IsDrawn w h g
        → IsDone k m
        → Walk w h g n c
        → (v : ℕ) × Known m c v × (v ≤ n)
    Walk-Known k m _ _ d s (start c goal) = (0, (s.goal c goal, omega arith), omega arith)
    Walk-Known k m _ _ d s (step n b c walk next a nb) =
        let (v, (e, l), le) = Walk-Known k m n b d s walk in
        go v e l le (s.each b (Walk-InMap n b d walk))
      where
        go :
            (v : ℕ)
            → cell m b ≡ ok (pos v)
            → v < int_max
            → v ≤ n
            → Place w h g k m [] [] (λ _. ⊥) b
            → (u : ℕ) × Known m c u × (u ≤ suc n)
        go v e l le (covered body e') = cc (e, e')
        go v e l le (unvisited nb' e') = absurd (omega (arith, same_value m b v int_max e e'))
        go v e l le (reached n' e' walk' le' room how) = elim how [
          | inl never ↦ absurd never
          | inr (inl never) ↦ absurd never
          | inr (inr (inl never)) ↦ absurd never
          | inr (inr (inr closed)) ↦
              let (u, known, lu) = closed c next a nb in
              (u, known, omega (arith, same_value m b n' v e' e))
        ]

    -- A populated map with its goals on the queue.
    start-IsSearched :
        (m : Grid) (to_visit : List Cell)
        → IsPopulated w h g m
        → All (At w h g m 0) to_visit
        → ((c : Cell) → c ∈ items g → cell m c ≡ ok (pos 0) → c ∈ to_visit)
        → IsSearched w h g 0 m to_visit [] (λ _. ⊥)
    start-IsSearched m to_visit p at queued = record {
      shape = p.shape;
      near_at = at;
      far_at = tt;
      goal = p.goal;
      each = λ c i. elim (member c (bodies g.players)) [
        | inl body ↦ covered body (p.body c body)
        | inr away ↦ elim (member c (items g)) [
          | inl item ↦
              let e = p.goal c (item, away) in
              reached 0 e (start c (item, away)) (omega arith)
                (omega (arith, unseen-IsShape w h m p.shape)) (inl (queued c item e))
          | inr nothing ↦ unvisited away (p.free c i away (λ x. nothing x.0))
        ]
      ];
    }

    compute_paths-IsDone :
        (m : Grid)
        → IsDrawn w h g
        → IsPopulated w h g m
        → (k : ℕ) × (m' : Grid) × (compute_paths w h m g ≡ ok m') × IsDone k m'
    unfolding compute_paths
    compute_paths-IsDone m d p =
        let (food, ef, f) = seed-IsSeeded w h g m [] g.food p.shape d.food in
        let (to_visit, eb, b) = seed-IsSeeded w h g m food g.speed_boosts p.shape d.speed_boosts in
        let queued : (c : Cell) → c ∈ items g → cell m c ≡ ok (pos 0) → c ∈ to_visit = λ c x e.
          elim (∈-append c (map item_cell g.food) (map item_cell g.speed_boosts) x) [
            | inl in_food ↦ b.old c (f.new c in_food e)
            | inr in_boosts ↦ b.new c in_boosts e
          ] in
        let (k, m', es, done) =
          search-IsDone (search_fuel w h g) 0 m to_visit []
            (start-IsSearched m to_visit p (b.at (f.at tt)) queued)
            (omega (arith, f.size, b.size, unseen-IsShape w h m p.shape)) in
        (k, m', rw ef (rw eb (rw append-nil at es)), done)

  -- What a place of the map says about its cell.
  pub data Distance (m : Grid) (c : Cell) : Type 0 where
    under_snake : IsBody w h g c → cell m c ≡ ok (negsuc 0) → Distance m c
    at_distance :
        (n : ℕ)
        → (IsBody w h g c → ⊥)
        → cell m c ≡ ok (pos n)
        → n ≤ suc h * suc w
        → Walk w h g n c
        → ((n' : ℕ) → Walk w h g n' c → n ≤ n')
        → Distance m c
    out_of_reach :
        (IsBody w h g c → ⊥)
        → cell m c ≡ ok (pos int_max)
        → ((n : ℕ) → Walk w h g n c → ⊥)
        → Distance m c

  pub Walk-free : (n : ℕ) (c : Cell) → Walk w h g n c → IsBody w h g c → ⊥
  Walk-free _ _ (start c goal) b = goal.1 b
  Walk-free _ _ (step n b c walk next a nb) x = nb x

  IsDone-Distance :
      (small : size w h g < int_max) (k : ℕ) (m : Grid) (c : Cell)
      → IsDrawn w h g
      → IsDone k m
      → InMap w h c
      → Distance m c
  IsDone-Distance small k m c d s i = go (s.each c i)
    where
      go : Place w h g k m [] [] (λ _. ⊥) c → Distance m c
      go (covered b e) = under_snake b e
      go (unvisited nb e) = out_of_reach nb e (λ n walk.
          let (v, (e', l), le) = Walk-Known small k m n c d s walk in
          absurd (omega (arith, same_value m c v int_max e' e)))
      go (reached n e walk le room how) =
          at_distance n (Walk-free n c walk) e (omega arith) walk (λ n' walk'.
            let (v, (e', l), le') = Walk-Known small k m n' c d s walk' in
            omega (arith, same_value m c v n e' e))

  -- `rebuildMap` ends without throwing where everything lies on the map and the map has fewer cells than
  -- an `int` counts. Then every cell of the map says how it lies: -1 under a snake, the length of
  -- the shortest walk from food or a boost that no snake covers, through cells of the arena that no
  -- snake covers, or INT_MAX where there is no such walk.
  pub rebuild_map-Distance :
      (old : Grid)
      → IsDrawn w h g
      → suc h * suc w < int_max
      → (m : Grid) × (rebuild_map (record { width = w; height = h; dijkstra_map = old }) g
          ≡ ok (record { width = w; height = h; dijkstra_map = m }))
        × IsShape w h m
        × ((c : Cell) → InMap w h c → Distance m c)
  unfolding rebuild_map
  rebuild_map-Distance old d small =
      let (m, e, p) = populate-IsPopulated w h g d in
      let (k, m', e', done) = compute_paths-IsDone small m d p in
      (m', rw e (rw e'), done.shape, λ c i. IsDone-Distance small k m' c d done i)
