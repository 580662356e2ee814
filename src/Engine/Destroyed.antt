-- ===== src/Engine/Destroyed.antt =====
-- `destroyPlayers`: whatever the generator draws, it takes exactly the players of the list off the
-- map, and leaves the arena and its counts.
use snake_multiplayer.Base.{
  ◌∈◌, ◌≡◌, ◌≢◌, refl, ap, sym, ◌∙◌, subst, inl, inr, Bool, true, false, List, [], ◌∷◌, All, some,
  none, drop, ok, Bool-cases, if◌then◌else◌,
}
use snake_multiplayer.Base.Int.{ℤ, pos, ◌==ℤ◌, ==ℤ→eq, ==ℤ→ne}
use snake_multiplayer.Base.Map.{lookup, erase, keys, Values, int_key}
use snake_multiplayer.Base.Map.Laws.{
  Distinct, All-mono, All-and, Values-erase, Distinct-erase, lookup-erase_self, lookup-erase_ne,
}
use snake_multiplayer.Snake.{Cell, get_segments}
use snake_multiplayer.Engine.State.{Player, Game, Draw, food_spawn_from_body_segment_probability}
use snake_multiplayer.Engine.Move.{player_at}
use snake_multiplayer.Engine.Food.{place_food_at, spawn_food, destroy_players}

module _ {V : Type 0} where
  abbrev pub erase_all : List ℤ → List (ℤ × V) → List (ℤ × V)
  erase_all [] m = m
  erase_all (k ∷ ks) m = erase_all ks (erase k m)

  pub lookup-erase_all_out :
      (ks : List ℤ) (m : List (ℤ × V)) (k : ℤ)
      → (k ∈ ks → ⊥)
      → lookup k (erase_all ks m) ≡ lookup k m
  lookup-erase_all_out [] m k out = refl
  lookup-erase_all_out (j ∷ ks) m k out =
      lookup-erase_all_out ks (erase j m) k (λ x. out (inr x))
      ∙ lookup-erase_ne k j m (λ e. out (inl e))

  absent :
      (ks : List ℤ) (m : List (ℤ × V)) (k : ℤ)
      → lookup k m ≡ none
      → lookup k (erase_all ks m) ≡ none
  absent [] m k e = e
  absent (j ∷ ks) m k e = absent ks (erase j m) k (elim (Bool-cases (k ==ℤ j)) [
    | inl same ↦ subst (λ i. lookup k (erase i m) ≡ none) (==ℤ→eq k j same) (lookup-erase_self k m)
    | inr other ↦ lookup-erase_ne k j m (==ℤ→ne k j other) ∙ e
  ])

  pub lookup-erase_all_in :
      (ks : List ℤ) (m : List (ℤ × V)) (k : ℤ) → k ∈ ks → lookup k (erase_all ks m) ≡ none
  lookup-erase_all_in [] m k x = absurd x
  lookup-erase_all_in (j ∷ ks) m k (inl e) =
      absent ks (erase j m) k (subst (λ i. lookup k (erase i m) ≡ none) e (lookup-erase_self k m))
  lookup-erase_all_in (j ∷ ks) m k (inr x) = lookup-erase_all_in ks (erase j m) k x

  -- Who is left was there.
  pub lookup-erase_all-some :
      (ks : List ℤ) (m : List (ℤ × V)) (k : ℤ) {v : V}
      → lookup k (erase_all ks m) ≡ some v
      → lookup k m ≡ some v
  lookup-erase_all-some [] m k e = e
  lookup-erase_all-some (j ∷ ks) m k e =
      let rest = lookup-erase_all-some ks (erase j m) k e in
      elim (Bool-cases (k ==ℤ j)) [
        | inl same ↦
            let gone =
              subst (λ i. lookup k (erase i m) ≡ none) (==ℤ→eq k j same) (lookup-erase_self k m) in
            cc (rest, gone)
        | inr other ↦ sym (lookup-erase_ne k j m (==ℤ→ne k j other)) ∙ rest
      ]

  pub Distinct-erase_all :
      (ks : List ℤ) (m : List (ℤ × V)) → Distinct (keys m) → Distinct (keys (erase_all ks m))
  Distinct-erase_all [] m d = d
  Distinct-erase_all (j ∷ ks) m d = Distinct-erase_all ks (erase j m) (Distinct-erase j m d)

  pub Values-erase_all :
      (P : V → Type 0) (ks : List ℤ) (m : List (ℤ × V)) → Values P m → Values P (erase_all ks m)
  Values-erase_all P [] m v = v
  Values-erase_all P (j ∷ ks) m v = Values-erase_all P ks (erase j m) (Values-erase P j m v)

module _ {G : Type 0} where
  -- The fields that no food changes.
  pub record SameArena (g g' : Game G) : Type 0 where
    pub width : g'.width ≡ g.width
    pub height : g'.height ≡ g.height
    pub occupied : g'.occupied ≡ g.occupied

  -- A player that is in the map.
  abbrev pub Living : Game G → ℤ → Type 0
  Living g id = (p : Player) × (lookup id g.players ≡ some p)

  -- The game after one body segment.
  abbrev placed : Game G → Cell → ℤ → G → Bool → Game G
  placed g c color gen food =
      let g' : Game G = record g { gen = gen } in if food then place_food_at g' c color else g'

  placed-SameArena :
      (g : Game G) (c : Cell) (color : ℤ) (gen : G) (food : Bool)
      → SameArena g (placed g c color gen food) × ((placed g c color gen food).players ≡ g.players)
  unfolding place_food_at
  placed-SameArena g c color gen true =
      (record { width = refl; height = refl; occupied = refl }, refl)
  placed-SameArena g c color gen false =
      (record { width = refl; height = refl; occupied = refl }, refl)

module _ {G : Type 0} (draw : Draw G) where
  spawn_food-SameArena :
      (cs : List Cell) (color : ℤ) (g : Game G)
      → SameArena g (spawn_food draw cs color g)
        × ((spawn_food draw cs color g).players ≡ g.players)
  unfolding spawn_food
  spawn_food-SameArena [] color g = (record { width = refl; height = refl; occupied = refl }, refl)
  spawn_food-SameArena (c ∷ cs) color g =
      let chance = draw (pos 1) food_spawn_from_body_segment_probability g.gen in
      let once = placed-SameArena g c color chance.1 (chance.0 ==ℤ pos 1) in
      let r = spawn_food-SameArena cs color (placed g c color chance.1 (chance.0 ==ℤ pos 1)) in
      (
        record {
          width = r.0.width ∙ once.0.width;
          height = r.0.height ∙ once.0.height;
          occupied = r.0.occupied ∙ once.0.occupied;
        },
        r.1 ∙ once.1,
      )

  -- Given distinct ids of players that are in the map, `destroyPlayers` does not throw, whatever the
  -- generator draws: it takes exactly these off the map, and leaves the arena and its counts.
  pub destroy_players-erase_all :
      (ids : List ℤ) (g : Game G)
      → Distinct ids
      → All (Living g) ids
      → (g' : Game G) × (destroy_players draw ids g ≡ ok g')
        × SameArena g g'
        × (g'.players ≡ erase_all ids g.players)
  unfolding destroy_players player_at
  destroy_players-erase_all [] g d v =
      (g, refl, record { width = refl; height = refl; occupied = refl }, refl)
  destroy_players-erase_all (id ∷ ids) g d ((p, l), v) =
      let g₁ : Game G = spawn_food draw (drop 1 (get_segments p.head)) p.color g in
      let (same, kept) = spawn_food-SameArena (drop 1 (get_segments p.head)) p.color g in
      let g₂ : Game G = record g₁ { players = erase id g₁.players } in
      let later : All (Living g₂) ids =
        All-mono _ _
          (λ j (x : Living g j × (j ≢ id)).
            (x.0.0, lookup-erase_ne j id g₁.players x.1 ∙ ap (lookup j) kept ∙ x.0.1))
          ids (All-and _ _ ids v d.0) in
      let (g₃, e, arena, gone) = destroy_players-erase_all ids g₂ d.1 later in
      (
        g₃,
        simp (l, e),
        record {
          width = arena.width ∙ same.width;
          height = arena.height ∙ same.height;
          occupied = arena.occupied ∙ same.occupied;
        },
        gone ∙ ap (λ (m : List (ℤ × Player)). erase_all ids (erase id m)) kept,
      )
