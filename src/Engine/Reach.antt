-- ===== src/Engine/Reach.antt =====
-- The games that `SnakeServer::run` reaches: a step for each handler and each turn of the loop.
use snake_multiplayer.Base.{
  ok_inj, ℕ, zero, suc, ◌*◌, ◌≤◌, ◌≡◌, ◌≢◌, refl, ap, sym, ◌∙◌, subst, inl, inr, Bool, false, List,
  [], ◌∷◌, arith, length, length-replicate, ltb, All, replicate, ok, Bool-cases,
}
use snake_multiplayer.Base.Int.{ℤ, pos, negsuc, ◌≤ℤ◌, ◌+ℤ◌, ◌==ℤ◌, ==ℤ→ne}
use snake_multiplayer.Base.Map.{contains, emplace, keys, Values, int_key}
use snake_multiplayer.Base.Map.Laws.{
  Distinct, Values-modify, Values-erase, Distinct-erase, keys-modify,
}
use snake_multiplayer.Snake.{Cell, new_node, head_link}
use snake_multiplayer.Snake.Motion.{body, left_cell}
use snake_multiplayer.Engine.State.{Player, Game, Draw, min_food_in_arena}
use snake_multiplayer.Engine.Food.{
  draw_cell, place_food_at, place_food, replace_food, create_new_player,
}
use snake_multiplayer.Engine.Input.{
  turn, turn-IsSteered, handle_client_input, handle_client_disconnect,
}
use snake_multiplayer.Engine.Arena.{InArena, IsInside}
use snake_multiplayer.Engine.Update.{IsSettled, IsReady}
use snake_multiplayer.Engine.Tick.{same_players-IsReady, advance, advance-IsReady}

-- What the standard library documents of `uniform_int_distribution`.
abbrev pub InRange : {G : Type 0} → Draw G → Type 0
InRange {G} draw =
    (lo hi : ℤ) (gen : G) → lo ≤ℤ hi → (lo ≤ℤ (draw lo hi gen).0) × ((draw lo hi gen).0 ≤ℤ hi)

inner : (n : ℕ) → 12 ≤ n → (pos 6 ≤ℤ (pos n +ℤ negsuc 5)) × ((pos n +ℤ negsuc 5) ≤ℤ pos n)
unfolding ◌+ℤ◌
inner n a = (ground arith, ground arith)

module _ (w h : ℕ) where
  turn-IsSettled : (input : ℕ) (p : Player) → IsSettled w h p → IsSettled w h (turn input p)
  turn-IsSettled input p v =
      let r = turn-IsSteered input p v.steered in
      record {
        steered = r.0;
        inside = subst (λ n. IsInside w h n) (sym (ap (λ (q : Player). q.head) r.1)) v.inside;
      }

  new_player-IsSettled :
      (c : Cell) (p : Player)
      → InArena w h c
      → p.head ≡ new_node c
      → p.direction ≡ b'^'
      → p.next_direction ≡ b'^'
      → IsSettled w h p
  unfolding body left_cell head_link
  new_player-IsSettled c p v head direction next = record {
    steered = record {
      heads = inl direction;
      turns = inl next;
      ahead = rw (direction, next) (λ e. absurd (omega (arith, e)));
    };
    inside =
        subst (λ n. IsInside w h n) (sym head)
          (record { tracked = record { cells = tt; behind = v }; head = v });
  }

  start_cell :
      {G : Type 0} (draw : Draw G) (gen : G)
      → InRange draw
      → 12 ≤ w
      → 12 ≤ h
      → InArena w h (draw_cell draw (pos 6, pos w +ℤ negsuc 5) (pos 6, pos h +ℤ negsuc 5) gen).0
  start_cell draw gen r a b =
      let wide = inner w a in
      let high = inner h b in
      let x = r (pos 6) (pos w +ℤ negsuc 5) gen wide.0 in
      let y = r (pos 6) (pos h +ℤ negsuc 5) (draw (pos 6) (pos w +ℤ negsuc 5) gen).1 high.0 in
      (
        omega (arith, x.0),
        omega (arith, x.1, wide.1),
        omega (arith, y.0),
        omega (arith, y.1, high.1),
      )

contains_away :
    {V : Type 0} (k : ℤ) (m : List (ℤ × V)) → contains k m ≡ false → All (λ j. j ≢ k) (keys m)
unfolding contains
contains_away k [] e = tt
contains_away k ((j, v) ∷ m) e = elim (Bool-cases (j ==ℤ k)) [
  | inl hit ↦ cc (rw hit at e)
  | inr miss ↦ (==ℤ→ne j k miss, contains_away k m (rw miss at e))
]

module _ (w h : ℕ) {G : Type 0} where
  pub handle_client_input-IsReady :
      (g : Game G) (id : ℤ) (input : ℕ)
      → IsReady w h g
      → IsReady w h (handle_client_input g id input)
  unfolding handle_client_input
  handle_client_input-IsReady g id input v = elim (Bool-cases (contains id g.players)) [
    | inl known ↦ simp known (record {
      shape = record { width = v.shape.width; height = v.shape.height; size = v.shape.size };
      distinct = subst (λ ks. Distinct ks) (sym (keys-modify id (turn input) g.players)) v.distinct;
      settled =
          Values-modify (IsSettled w h) id (turn input) g.players v.settled
            (turn-IsSettled w h input);
    })
    | inr unknown ↦ simp unknown v
  ]

  pub handle_client_disconnect-IsReady :
      (g : Game G) (id : ℤ) → IsReady w h g → IsReady w h (handle_client_disconnect g id)
  unfolding handle_client_disconnect
  handle_client_disconnect-IsReady g id v = elim (Bool-cases (contains id g.players)) [
    | inl known ↦ simp known (record {
      shape = record { width = v.shape.width; height = v.shape.height; size = v.shape.size };
      distinct = Distinct-erase id g.players v.distinct;
      settled = Values-erase (IsSettled w h) id g.players v.settled;
    })
    | inr unknown ↦ simp unknown v
  ]

module _ (w h : ℕ) {G : Type 0} (draw : Draw G) where
  pub replace_food-IsReady :
      (fuel : ℕ) (g g' : Game G) → replace_food draw fuel g ≡ ok g' → IsReady w h g → IsReady w h g'
  unfolding replace_food place_food place_food_at
  replace_food-IsReady zero g g' e v = elim (Bool-cases (ltb (length g.food) min_food_in_arena)) [
    | inl few ↦ cc (simp few at e)
    | inr enough ↦ subst (λ x. IsReady w h x) (ok_inj g g' (simp enough at e)) v
  ]
  replace_food-IsReady (suc fuel) g g' e v =
      elim (Bool-cases (ltb (length g.food) min_food_in_arena)) [
        | inl few ↦
            replace_food-IsReady fuel (place_food draw g) g' (simp few at e)
              (same_players-IsReady w h g (place_food draw g) refl refl refl refl v)
        | inr enough ↦ subst (λ x. IsReady w h x) (ok_inj g g' (simp enough at e)) v
      ]

  pub create_new_player-IsReady :
      (g : Game G) (id color : ℤ) (name : List ℕ)
      → InRange draw
      → 12 ≤ w
      → 12 ≤ h
      → IsReady w h g
      → IsReady w h (create_new_player draw g id color name)
  unfolding create_new_player emplace
  create_new_player-IsReady g id color name r a b v = elim (Bool-cases (contains id g.players)) [
    | inl known ↦
        simp known (same_players-IsReady w h g (record g { gen = _ }) refl refl refl refl v)
    | inr unknown ↦
        let inside : InArena w h
            (draw_cell draw (pos 6, g.width +ℤ negsuc 5) (pos 6, g.height +ℤ negsuc 5) g.gen).0 =
          simp (v.shape.width, v.shape.height) (start_cell w h draw g.gen r a b) in
        simp unknown (record {
          shape = record { width = v.shape.width; height = v.shape.height; size = v.shape.size };
          distinct = (contains_away id g.players unknown, v.distinct);
          settled = (new_player-IsSettled w h _ _ inside refl refl refl, v.settled);
        })
  ]

  -- A game that the server comes to, from an empty one: `current_tick` may be set to any time.
  pub data Reached : Game G → Type 0 where
    started :
        (g : Game G)
        → g.width ≡ pos w
        → g.height ≡ pos h
        → g.players ≡ []
        → g.occupied ≡ replicate (h * w) 0
        → Reached g
    clocked : (g : Game G) (now : ℤ) → Reached g → Reached (record g { current_tick = now })
    filled : (g g' : Game G) (fuel : ℕ) → replace_food draw fuel g ≡ ok g' → Reached g → Reached g'
    joined :
        (g : Game G) (id color : ℤ) (name : List ℕ)
        → Reached g
        → Reached (create_new_player draw g id color name)
    steered :
        (g : Game G) (id : ℤ) (input : ℕ) → Reached g → Reached (handle_client_input g id input)
    left : (g : Game G) (id : ℤ) → Reached g → Reached (handle_client_disconnect g id)
    advanced : (g g' : Game G) (b : Bool) → advance draw g ≡ ok (g', b) → Reached g → Reached g'

  module _ (r : InRange draw) (wide : 12 ≤ w) (high : 12 ≤ h) where
    pub Reached-IsReady : (g : Game G) → Reached g → IsReady w h g
    Reached-IsReady _ (started g a b c d) = record {
      shape = record { width = a; height = b; size = ap length d ∙ length-replicate (h * w) 0 };
      distinct = subst (λ ps. Distinct (keys ps)) (sym c) tt;
      settled = subst (λ ps. Values (IsSettled w h) ps) (sym c) tt;
    }
    Reached-IsReady _ (clocked g now x) =
        same_players-IsReady w h g (record g { current_tick = now }) refl refl refl refl
          (Reached-IsReady g x)
    Reached-IsReady _ (filled g g' fuel e x) =
        replace_food-IsReady fuel g g' e (Reached-IsReady g x)
    Reached-IsReady _ (joined g id color name x) =
        create_new_player-IsReady g id color name r wide high (Reached-IsReady g x)
    Reached-IsReady _ (steered g id input x) =
        handle_client_input-IsReady w h g id input (Reached-IsReady g x)
    Reached-IsReady _ (left g id x) =
        handle_client_disconnect-IsReady w h g id (Reached-IsReady g x)
    Reached-IsReady _ (advanced g g' b e x) =
        let (g₁, b₁, e₁, ready) = advance-IsReady w h draw g (Reached-IsReady g x) in
        subst (λ y. IsReady w h y) (cc (e, e₁)) ready

    -- On an arena of at least 12 cells each way, with a generator that stays in the bounds it is
    -- given, in every game that the server comes to by joins, inputs, disconnects, food and turns,
    -- every snake heads somewhere and lies in the arena; and the next turn does not throw and keeps
    -- it so.
    pub Reached-advance :
        (g : Game G)
        → Reached g
        → IsReady w h g
          × ((g' : Game G) × (b : Bool) × (advance draw g ≡ ok (g', b)) × IsReady w h g')
    Reached-advance g x = (Reached-IsReady g x, advance-IsReady w h draw g (Reached-IsReady g x))
