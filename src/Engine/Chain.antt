-- ===== src/Engine/Chain.antt =====
-- The chain of tests of `checkCollisions`, which decides by the rules of Engine/Rules.antt, and what it
-- leaves alone.
use snake_multiplayer.Base.{
  ℕ, ◌≡◌, refl, inl, inr, Bool, true, false, arith, length, ltb, some, ok, or_throw, Bool-cases,
  get_elem?-lt,
}
use snake_multiplayer.Base.Int.{ℤ, pos, leb_ℤ, ◌+ℤ◌, ◌==ℤ◌, ==ℤ→eq, ==ℤ→ne}
use snake_multiplayer.Base.Map.{lookup, contains, erase, keys, Values, int_key, cell_key}
use snake_multiplayer.Base.Map.Laws.{Distinct, Values-lookup, Values-modify, keys-modify}
use snake_multiplayer.Snake.{Cell, head_cell, grow}
use snake_multiplayer.Engine.State.{Player, Game, after_ms}
use snake_multiplayer.Engine.Move.{player_at, set_player, occupied_at}
use snake_multiplayer.Engine.Arena.{Bodies, InArena, cell_index-lt, grow-IsTracked, head_cell-grow}
use snake_multiplayer.Engine.Collide.{
  heads_in_cell, get_player_heads_in_cell, feed_player, boost_player, check_inside, check_player,
}
use snake_multiplayer.Engine.Update.{Shape, IsRunning}
use snake_multiplayer.Engine.Standing.{standing, standing-lookup, standing-modify}
use snake_multiplayer.Engine.Rules.{
  Doomed, Safe, heads_in_cell-In, present, lone-Unbeaten, first-Unbeaten, second-Beaten,
  first_player_in_cell-Winner,
}

module _ (w h : ℕ) (c : Cell) where
  below_top : leb_ℤ c.1 (pos 0) ≡ true → InArena w h c → ⊥
  below_top e a = ground arith

  above_bottom : leb_ℤ (pos h +ℤ pos 1) c.1 ≡ true → InArena w h c → ⊥
  unfolding ◌+ℤ◌
  above_bottom e a = ground arith

  right_of_left : leb_ℤ c.0 (pos 0) ≡ true → InArena w h c → ⊥
  right_of_left e a = ground arith

  left_of_right : leb_ℤ (pos w +ℤ pos 1) c.0 ≡ true → InArena w h c → ⊥
  unfolding ◌+ℤ◌
  left_of_right e a = ground arith

  in_arena :
      leb_ℤ c.1 (pos 0) ≡ false
      → leb_ℤ (pos h +ℤ pos 1) c.1 ≡ false
      → leb_ℤ c.0 (pos 0) ≡ false
      → leb_ℤ (pos w +ℤ pos 1) c.0 ≡ false
      → InArena w h c
  unfolding ◌+ℤ◌
  in_arena a b d e = (ground arith, ground arith, ground arith, ground arith)

module _ (w h : ℕ) {G : Type 0} where
  -- What the loop leaves alone while it feeds and boosts.
  pub record Kept (g g' : Game G) : Type 0 where
    pub shape : Shape w h g'
    pub cells : g'.occupied ≡ g.occupied
    pub same : standing g'.players ≡ standing g.players
    pub same_keys : keys g'.players ≡ keys g.players
    pub running : Values (IsRunning w h) g'.players

  put_back :
      (g : Game G) (id : ℤ) (p q : Player)
      → Shape w h g
      → Distinct (keys g.players)
      → Values (IsRunning w h) g.players
      → lookup id g.players ≡ some p
      → head_cell q.head ≡ head_cell p.head
      → q.next_move_time ≡ p.next_move_time
      → IsRunning w h q
      → Kept g (set_player g id q)
  unfolding set_player
  put_back g id p q s d run l eh et v = record {
    shape = record { width = s.width; height = s.height; size = s.size };
    cells = refl;
    same = standing-modify id q g.players d l eh et;
    same_keys = keys-modify id (λ _. q) g.players;
    running = Values-modify (IsRunning w h) id (λ _. q) g.players run (λ _ _. v);
  }

  feed_player-Kept :
      (g : Game G) (id : ℤ) (c : Cell) (p : Player)
      → Shape w h g
      → Distinct (keys g.players)
      → Values (IsRunning w h) g.players
      → lookup id g.players ≡ some p
      → (g' : Game G) × (feed_player g c id ≡ ok g') × Kept g g'
  unfolding feed_player player_at
  feed_player-Kept g id c p s d run l =
      let v = Values-lookup (IsRunning w h) id g.players p run l in
      let q : Player = record p { head = grow p.head; score = p.score +ℤ pos 1 } in
      let k = put_back g id p q s d run l (head_cell-grow p.head) refl (record {
        steered = record {
          heads = v.steered.heads;
          turns = v.steered.turns;
          ahead = v.steered.ahead;
        };
        tracked = grow-IsTracked w h p.head v.tracked;
      }) in
      (
        record (set_player g id q) { food = erase c g.food },
        rw l refl,
        record {
          shape = record { width = k.shape.width; height = k.shape.height; size = k.shape.size };
          cells = k.cells;
          same = k.same;
          same_keys = k.same_keys;
          running = k.running;
        },
      )

  boost_player-Kept :
      (g : Game G) (id : ℤ) (c : Cell) (p : Player)
      → Shape w h g
      → Distinct (keys g.players)
      → Values (IsRunning w h) g.players
      → lookup id g.players ≡ some p
      → (g' : Game G) × (boost_player g c id ≡ ok g') × Kept g g'
  unfolding boost_player player_at
  boost_player-Kept g id c p s d run l =
      let v = Values-lookup (IsRunning w h) id g.players p run l in
      let q : Player = record p {
        boosted = true;
        movement_frequency_ms = g.boosted_movement_frequency_ms;
        boost_expire_time = after_ms g.current_tick g.boost_duration_ms;
      } in
      let k = put_back g id p q s d run l refl refl (record {
        steered = record {
          heads = v.steered.heads;
          turns = v.steered.turns;
          ahead = v.steered.ahead;
        };
        tracked = v.tracked;
      }) in
      (
        record (set_player g id q) { speed_boosts = erase c g.speed_boosts },
        rw l refl,
        record {
          shape = record { width = k.shape.width; height = k.shape.height; size = k.shape.size };
          cells = k.cells;
          same = k.same;
          same_keys = k.same_keys;
          running = k.running;
        },
      )

  -- One verdict: the flag says which of the two holds.
  abbrev pub Verdict : Game G → ℤ → Cell → ℤ → Bool → Type 0
  Verdict g id c t b =
      (b ≡ true → Doomed w h (standing g.players) g.occupied id c t)
      × (b ≡ false → Safe w h (standing g.players) g.occupied id c t)

  pub Kept-refl : (g : Game G) → Shape w h g → Values (IsRunning w h) g.players → Kept g g
  Kept-refl g s run = record {
    shape = s;
    cells = refl;
    same = refl;
    same_keys = refl;
    running = run;
  }

  bodies : (g : Game G) (c : Cell) → Shape w h g → InArena w h c → (n : ℕ) × Bodies w g.occupied c n
  unfolding occupied_at
  bodies g c s a =
      let (i, e, lt) = cell_index-lt w h c a in
      let (n, r) = get_elem?-lt g.occupied i (rw s.size lt) in
      (n, rw (e, occupied_at) (rw (r, or_throw)))

  module _ (g : Game G) (id : ℤ) (c : Cell) (t : ℤ) (s : Shape w h g)
      (d : Distinct (keys g.players)) (run : Values (IsRunning w h) g.players)
      (l : lookup id (standing g.players) ≡ some (c, t)) where
    check_inside-Verdict :
        InArena w h c
        → (g' : Game G) × (b : Bool) × (check_inside g id c ≡ ok (g', b))
          × Kept g g'
          × Verdict g id c t b
    unfolding check_inside get_player_heads_in_cell
    check_inside-Verdict a =
        let (n, e) = bodies g c s a in
        let (p, lp, _, _) = standing-lookup id g.players l in
        let (m, em, won) =
          first_player_in_cell-Winner g c (heads_in_cell g.players c) id
            (present g.players id c t d l) (heads_in_cell-In g.players c d) in
        let (fed, ef, kf) = feed_player-Kept g id c p s d run lp in
        let (boosted, eb, kb) = boost_player-Kept g id c p s d run lp in
        elim (Bool-cases (ltb 0 n)) [
          | inl crossed ↦ (
            g,
            true,
            simp (s.width, e, crossed),
            Kept-refl g s run,
            (λ _. inr (inl (n, e, ground arith)), λ x. cc),
          )
          | inr free ↦
              let nothing : n ≡ 0 = ground arith in
              let e₀ : Bodies w g.occupied c 0 = rw nothing at e in
              elim (Bool-cases (ltb 1 (length (heads_in_cell g.players c)))) [
                | inl shared ↦ elim (Bool-cases (id ==ℤ m)) [
                  | inl mine ↦ (
                    g,
                    false,
                    simp (s.width, e, free, shared, em, mine),
                    Kept-refl g s run,
                    (
                      λ x. cc,
                      λ _. (a, e₀, first-Unbeaten g.players id c t d l m won (==ℤ→eq id m mine)),
                    ),
                  )
                  | inr theirs ↦ (
                    g,
                    true,
                    simp (s.width, e, free, shared, em, theirs),
                    Kept-refl g s run,
                    (
                      λ _.
                          inr (inr (second-Beaten g.players id c t d l m won (==ℤ→ne id m theirs))),
                      λ x. cc,
                    ),
                  )
                ]
                | inr alone ↦
                    let safe : Safe w h (standing g.players) g.occupied id c t =
                      (a, e₀, lone-Unbeaten g.players id c t d l alone) in
                    elim (Bool-cases (contains c g.food)) [
                      | inl food ↦ (
                        fed,
                        false,
                        simp (s.width, e, free, alone, food, ef),
                        kf,
                        (λ x. cc, λ _. safe),
                      )
                      | inr hungry ↦ elim (Bool-cases (contains c g.speed_boosts)) [
                        | inl boost ↦ (
                          boosted,
                          false,
                          simp (s.width, e, free, alone, hungry, boost, eb),
                          kb,
                          (λ x. cc, λ _. safe),
                        )
                        | inr plain ↦ (
                          g,
                          false,
                          simp (s.width, e, free, alone, hungry, plain),
                          Kept-refl g s run,
                          (λ x. cc, λ _. safe),
                        )
                      ]
                    ]
              ]
        ]

    pub check_player-Verdict :
        (g' : Game G) × (b : Bool) × (check_player g id c ≡ ok (g', b))
        × Kept g g'
        × Verdict g id c t b
    unfolding check_player
    check_player-Verdict = elim (Bool-cases (leb_ℤ c.1 (pos 0))) [
      | inl top ↦ gone (simp top) (λ a. below_top w h c top a)
      | inr below ↦ elim (Bool-cases (leb_ℤ (pos h +ℤ pos 1) c.1)) [
        | inl bottom ↦ gone (simp (s.height, below, bottom)) (λ a. above_bottom w h c bottom a)
        | inr above ↦ elim (Bool-cases (leb_ℤ c.0 (pos 0))) [
          | inl left ↦ gone (simp (s.height, below, above, left)) (λ a. right_of_left w h c left a)
          | inr beside ↦ elim (Bool-cases (leb_ℤ (pos w +ℤ pos 1) c.0)) [
            | inl right ↦
                gone (simp (s.height, s.width, below, above, beside, right))
                  (λ a. left_of_right w h c right a)
            | inr within ↦
                let (g', b, e, k, v) =
                  check_inside-Verdict (in_arena w h c below above beside within) in
                (g', b, simp (s.height, s.width, below, above, beside, within) e, k, v)
          ]
        ]
      ]
    ]
      where
        gone :
            check_player g id c ≡ ok (g, true)
            → (InArena w h c → ⊥)
            → (g' : Game G) × (b : Bool) × (check_player g id c ≡ ok (g', b))
              × Kept g g'
              × Verdict g id c t b
        gone e wall = (g, true, e, Kept-refl g s run, (λ _. inl wall, λ x. cc))
