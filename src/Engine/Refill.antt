-- ===== src/Engine/Refill.antt =====
-- `replaceFood` ends if the generator does not avoid the free cells for ever.
use Prim.Native.Nat.{max}
use snake_multiplayer.Base.{
  ℕ, zero, suc, ◌+◌, ◌-◌, ◌*◌, ◌≤◌, ◌<◌, ◌≡◌, refl, ap, sym, ◌∙◌, subst, ◌∈◌, inl, inr, false, List,
  [], ◌∷◌, length, ltb, ok, arith, Bool-cases, Result, lt→ltb, ltb→lt, le→ltb_false,
}
use snake_multiplayer.Base.Int.{ℤ, pos, negsuc, ◌+ℤ◌}
use snake_multiplayer.Base.Map.{assign, keys, cell_key}
use snake_multiplayer.Base.Map.Laws.{keys-modify}
use snake_multiplayer.Base.Map.Assign.{keys-lookup, lookup-contains, keys-away, assign-new}
use snake_multiplayer.Snake.{Cell}
use snake_multiplayer.Engine.State.{Item, Game, Draw, min_food_in_arena}
use snake_multiplayer.Engine.Food.{draw_cell, place_food_at, place_food, replace_food}

module _ {G : Type 0} (draw : Draw G) where
  -- One of the next draws of a cell, at most `n`, is not among `cells`.
  pub data Fresh (width height : ℤ) (cells : List Cell) : ℕ → G → Type 0 where
    now :
        (n : ℕ) (gen : G)
        → ((draw_cell draw (pos 1, width +ℤ negsuc 0) (pos 1, height +ℤ negsuc 0) gen).0 ∈ cells
            → ⊥)
        → Fresh width height cells (suc n) gen
    later :
        (n : ℕ) (gen : G)
        → (draw_cell draw (pos 1, width +ℤ negsuc 0) (pos 1, height +ℤ negsuc 0) gen).0 ∈ cells
        → Fresh width height cells n
            (draw_cell draw (pos 1, width +ℤ negsuc 0) (pos 1, height +ℤ negsuc 0) gen).1
        → Fresh width height cells (suc n) gen

  -- Whatever few cells are taken, the generator comes to another one in so many draws.
  abbrev pub IsFair : ℤ → ℤ → ℕ → Type 0
  IsFair width height tries =
      (cells : List Cell) (gen : G)
      → length cells < min_food_in_arena
      → Fresh width height cells tries gen

  length-keys : {V : Type 0} (m : List (Cell × V)) → length (keys m) ≡ length m
  length-keys [] = refl
  length-keys ((k, v) ∷ m) = ap suc (length-keys m)

  -- Food in a cell that has some leaves the cells as they are; in another it adds that cell.
  keys-assign_old :
      (c : Cell) (i : Item) (m : List (Cell × Item)) → c ∈ keys m → keys (assign c i m) ≡ keys m
  unfolding assign
  keys-assign_old c i m x =
      let (v, l) = keys-lookup c m x in rw (lookup-contains c m v l) (keys-modify c (λ _. i) m)

  keys-assign_new :
      (c : Cell) (i : Item) (m : List (Cell × Item))
      → (c ∈ keys m → ⊥)
      → keys (assign c i m) ≡ c ∷ keys m
  keys-assign_new c i m x = ap keys (assign-new c i m (keys-away c m x))

  -- `replaceFood` is done, with food in `n` cells.
  abbrev Refilled : Game G → ℕ → Result (Game G) → Type 0
  Refilled g n r = (g' : Game G) × (r ≡ ok g') × (length g'.food ≡ n) × (g'.players ≡ g.players)

  abbrev drawn : ℤ → ℤ → G → Cell × G
  drawn width height gen = draw_cell draw (pos 1, width +ℤ negsuc 0) (pos 1, height +ℤ negsuc 0) gen

  -- What happens behind the first new cell.
  abbrev Continues : Game G → ℕ → ℕ → Type 0
  Continues g room n =
      (fuel : ℕ) (g' : Game G)
      → room ≤ fuel
      → g'.width ≡ g.width
      → g'.height ≡ g.height
      → g'.players ≡ g.players
      → length g'.food ≡ suc (length g.food)
      → Refilled g' n (replace_food draw fuel g')

  module _ (w h : ℤ) (room n : ℕ) where
    replace_food-Fresh :
        (cells : List Cell) (tries : ℕ) (gen : G)
        → Fresh w h cells tries gen
        → (fuel : ℕ) (g : Game G) → g.width ≡ w
        → g.height ≡ h
        → keys g.food ≡ cells
        → g.gen ≡ gen
        → length g.food < min_food_in_arena
        → Continues g room n
        → tries + room ≤ fuel
        → Refilled g n (replace_food draw fuel g)
    unfolding replace_food place_food place_food_at
    replace_food-Fresh cells _ _ (now k gen away) zero g ew eh ec eg few next le =
        absurd (omega arith)
    replace_food-Fresh cells _ _ (later k gen old f) zero g ew eh ec eg few next le =
        absurd (omega arith)
    replace_food-Fresh cells _ _ (now k gen away) (suc fuel) g ew eh ec eg few next le =
        let same : drawn g.width g.height g.gen ≡ drawn w h gen = cc (ew, eh, eg) in
        let new : (drawn g.width g.height g.gen).0 ∈ keys g.food → ⊥ = λ x.
          away (subst (λ cs. (drawn w h gen).0 ∈ cs) ec (subst (λ d. d.0 ∈ keys g.food) same x)) in
        let grown = ap length (keys-assign_new (drawn g.width g.height g.gen).0 _ g.food new) in
        let (g', e, size, players) =
          next fuel (place_food draw g) (omega arith) refl refl refl
            (sym (length-keys (place_food draw g).food) ∙ grown ∙ ap suc (length-keys g.food)) in
        (g', rw (lt→ltb (length g.food) min_food_in_arena few) e, size, players)
    replace_food-Fresh cells _ _ (later k gen old f) (suc fuel) g ew eh ec eg few next le =
        let same : drawn g.width g.height g.gen ≡ drawn w h gen = cc (ew, eh, eg) in
        let there : (drawn g.width g.height g.gen).0 ∈ keys g.food =
          subst (λ d. d.0 ∈ keys g.food) (sym same)
            (subst (λ cs. (drawn w h gen).0 ∈ cs) (sym ec) old) in
        let kept = keys-assign_old (drawn g.width g.height g.gen).0 _ g.food there in
        let size : length (place_food draw g).food ≡ length g.food =
          sym (length-keys (place_food draw g).food) ∙ ap length kept ∙ length-keys g.food in
        let (g', e, total, players) =
          replace_food-Fresh cells k (drawn w h gen).1 f fuel (place_food draw g) ew eh (kept ∙ ec)
            (ap (λ (d : Cell × G). d.1) same) (omega (arith, size))
            (λ fuel' g'' l a b c d. next fuel' g'' l a b c (d ∙ ap suc size)) (omega arith) in
        (g', rw (lt→ltb (length g.food) min_food_in_arena few) e, total, players)

  fewer : (k tries fuel : ℕ) → k ≤ 6 → 6 * tries ≤ fuel → k * tries ≤ fuel
  fewer k tries fuel l le = grind arith

  ltb_false→le : (a b : ℕ) → ltb a b ≡ false → b ≤ a
  ltb_false→le a b h = ground arith

  enough :
      (fuel : ℕ) (g : Game G) → min_food_in_arena ≤ length g.food → replace_food draw fuel g ≡ ok g
  unfolding replace_food
  enough zero g l = rw (le→ltb_false (length g.food) min_food_in_arena l) refl
  enough (suc fuel) g l = rw (le→ltb_false (length g.food) min_food_in_arena l) refl

  fill :
      (k tries fuel : ℕ) (g : Game G)
      → IsFair g.width g.height tries
      → length g.food + k ≡ min_food_in_arena
      → k * tries ≤ fuel
      → Refilled g min_food_in_arena (replace_food draw fuel g)
  unfolding replace_food
  fill zero tries fuel g fair size le = (g, enough fuel g (omega arith), omega arith, refl)
  fill (suc k) tries fuel g fair size le =
      replace_food-Fresh g.width g.height (k * tries) min_food_in_arena (keys g.food) tries g.gen
        (fair (keys g.food) g.gen (omega (arith, length-keys g.food))) fuel g refl refl refl refl
        (omega arith)
        (λ fuel' g' l ew eh ep grown.
          fill k tries fuel' g' (rw (ew, eh) fair) (omega (arith, grown)) l)
        (omega arith)

  -- With a generator that comes to a cell without food in at most `tries` draws, wherever fewer than
  -- MIN_FOOD_IN_ARENA cells have food, `replaceFood` ends within MIN_FOOD_IN_ARENA * `tries` rounds.
  -- Then as many cells have food as before, and MIN_FOOD_IN_ARENA at least, and the players are the
  -- same.
  pub replace_food_ends :
      (tries fuel : ℕ) (g : Game G)
      → IsFair g.width g.height tries
      → min_food_in_arena * tries ≤ fuel
      → (g' : Game G) × (replace_food draw fuel g ≡ ok g')
        × (length g'.food ≡ max min_food_in_arena (length g.food))
        × (g'.players ≡ g.players)
  replace_food_ends tries fuel g fair le =
      elim (Bool-cases (ltb (length g.food) min_food_in_arena)) [
        | inl few ↦
            let l : length g.food < min_food_in_arena = ltb→lt _ _ few in
            let (g', e, size, players) =
              fill (min_food_in_arena - length g.food) tries fuel g fair (omega arith)
                (fewer (min_food_in_arena - length g.food) tries fuel (omega arith) le) in
            (g', e, omega (arith, size), players)
        | inr many ↦
            let l : min_food_in_arena ≤ length g.food = ltb_false→le _ _ many in
            (g, enough fuel g l, omega arith, refl)
      ]
