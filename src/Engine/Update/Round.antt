-- ===== src/Engine/Update/Round.antt =====
-- One round of the loop of `updateSnakes`: the boost that ends, the step of a snake that is due, and the
-- counting of its body.
use snake_multiplayer.Base.{
  subst, ℕ, ◌*◌, ◌≡◌, ◌≢◌, refl, ◌∙◌, inl, inr, Bool, true, false, ◌&&◌, ◌||◌, List, length, drop,
  some, ok, ◌>>=◌, Bool-cases,
}
use snake_multiplayer.Base.Int.{ℤ, pos, leb_ℤ}
use snake_multiplayer.Base.Map.{lookup, keys, Values, int_key}
use snake_multiplayer.Base.Map.Laws.{
  Values-modify, lookup-modify_self, lookup-modify_ne, keys-modify, Entry,
}
use snake_multiplayer.Snake.{PlayerNode, get_segments, move}
use snake_multiplayer.Snake.Motion.{body, get_segments-body}
use snake_multiplayer.Engine.State.{Player, Game}
use snake_multiplayer.Engine.Arena.{IsTracked, IsInside, move_to-IsTracked}
use snake_multiplayer.Engine.Counts.{Counts, bump_all-Counts}
use snake_multiplayer.Engine.Input.{IsSteered, stepped, moved-IsSteered}
use snake_multiplayer.Engine.Move.{
  expire_boost, player_at, set_player, move_snake, update_occupied_cells, update_snake,
}

module _ (w h : ℕ) where
  -- A player whose body lies in the arena, and one whose head does too.
  pub record IsRunning (p : Player) : Type 0 where
    pub steered : IsSteered p
    pub tracked : IsTracked w h p.head

  pub record IsSettled (p : Player) : Type 0 where
    pub steered : IsSteered p
    pub inside : IsInside w h p.head

  pub settled→running : (p : Player) → IsSettled p → IsRunning p
  settled→running p v = record { steered = v.steered; tracked = v.inside.tracked }

  expire_boost-IsSettled :
      (f : ℕ) (now : ℤ) (p : Player) → IsSettled p → IsSettled (expire_boost f now p)
  unfolding expire_boost
  expire_boost-IsSettled f now p v =
      elim (Bool-cases (p.boosted && leb_ℤ p.boost_expire_time now)) [
        | inl e ↦
            rw (e, expire_boost)
              (record {
                steered = record {
                  heads = v.steered.heads;
                  turns = v.steered.turns;
                  ahead = v.steered.ahead;
                };
                inside = v.inside;
              })
        | inr e ↦ rw (e, expire_boost) v
      ]

  stepped-IsRunning : (now : ℤ) (p : Player) → IsSettled p → IsRunning (stepped now p)
  stepped-IsRunning now p v = record {
    steered = (moved-IsSteered now p v.steered).1;
    tracked = unfold move in move_to-IsTracked w h p.head _ v.inside;
  }

  body-drop : (n : PlayerNode) → drop 1 (get_segments n) ≡ body n
  body-drop n = rw (get_segments-body n)

pub or_false : (a b : Bool) → (a || b) ≡ false → (a ≡ false) × (b ≡ false)
or_false true b e = cc
or_false false b e = (refl, e)

module _ (w h : ℕ) {G : Type 0} where
  -- The arena of the game, with one count for each of its cells.
  pub record Shape (g : Game G) : Type 0 where
    pub width : g.width ≡ pos w
    pub height : g.height ≡ pos h
    pub size : length g.occupied ≡ h * w

  -- One round: what it does to the player of that id, and that it leaves the others.
  pub record Updated (g g' : Game G) (id : ℤ) (due : Bool) : Type 0 where
    pub shape : Shape g'
    pub same_keys : keys g'.players ≡ keys g.players
    pub others : (j : ℤ) → j ≢ id → lookup j g'.players ≡ lookup j g.players
    pub running : Values (IsRunning w h) g'.players
    pub settled : due ≡ false → Entry (IsSettled w h) g'.players id
    pub counted :
        (q : Player) × (lookup id g'.players ≡ some q)
        × Counts w h g.occupied g'.occupied (body q.head)

  -- The player is put back, and nothing is counted.
  record Put (g g' : Game G) (id : ℤ) : Type 0 where
    same_keys : keys g'.players ≡ keys g.players
    others : (j : ℤ) → j ≢ id → lookup j g'.players ≡ lookup j g.players
    running : Values (IsRunning w h) g'.players
    cells : g'.occupied ≡ g.occupied

  player_at-ok :
      (g : Game G) (id : ℤ) (p : Player) → lookup id g.players ≡ some p → player_at g id ≡ ok p
  unfolding player_at
  player_at-ok g id p e = rw e

  update_occupied_cells-ok :
      (g : Game G) (id : ℤ) (p : Player)
      → Shape g
      → lookup id g.players ≡ some p
      → IsRunning w h p
      → (cells : List ℕ) × (update_occupied_cells g id ≡ ok (record g { occupied = cells }))
        × (length cells ≡ h * w)
        × Counts w h g.occupied cells (body p.head)
  unfolding update_occupied_cells
  update_occupied_cells-ok g id p s e v =
      let (cells, b, n, counted) =
        bump_all-Counts w h (body p.head) g.occupied s.size v.tracked.cells in
      (
        cells,
        rw (player_at-ok g id p e, ◌>>=◌) (rw s.width (rw (body-drop w h p.head) (rw b))),
        n,
        counted,
      )

  set_player-lookup :
      (g : Game G) (id : ℤ) (p q : Player)
      → lookup id g.players ≡ some p
      → lookup id (set_player g id q).players ≡ some q
  unfolding set_player
  set_player-lookup g id p q e = lookup-modify_self id (λ _. q) g.players e

  -- A player is put back, and its body counted.
  set_player-Updated :
      (g : Game G) (id : ℤ) (p q : Player) (cells : List ℕ) (due : Bool)
      → lookup id g.players ≡ some p
      → Shape g
      → Values (IsRunning w h) g.players
      → IsRunning w h q
      → length cells ≡ h * w
      → Counts w h g.occupied cells (body q.head)
      → (due ≡ false → Entry (IsSettled w h) (set_player g id q).players id)
      → Updated g (record (set_player g id q) { occupied = cells }) id due
  unfolding set_player
  set_player-Updated g id p q cells due e s run v n counted settled = record {
    shape = record { width = s.width; height = s.height; size = n };
    same_keys = keys-modify id (λ _. q) g.players;
    others = λ j ne. lookup-modify_ne j id (λ _. q) g.players ne;
    running = Values-modify (IsRunning w h) id (λ _. q) g.players run (λ _ _. v);
    settled = settled;
    counted = (q, lookup-modify_self id (λ _. q) g.players e, counted);
  }

  set_player-Put :
      (g : Game G) (id : ℤ) (q : Player)
      → Values (IsRunning w h) g.players
      → IsRunning w h q
      → Put g (set_player g id q) id
  unfolding set_player
  set_player-Put g id q run v = record {
    same_keys = keys-modify id (λ _. q) g.players;
    others = λ j ne. lookup-modify_ne j id (λ _. q) g.players ne;
    running = Values-modify (IsRunning w h) id (λ _. q) g.players run (λ _ _. v);
    cells = refl;
  }

  Put-Updated :
      (g g' g'' : Game G) (id : ℤ) (b : Bool)
      → Put g g' id
      → Updated g' g'' id b
      → Updated g g'' id b
  Put-Updated g g' g'' id b u v =
      let (q, l, counted) = v.counted in
      record {
        shape = v.shape;
        same_keys = v.same_keys ∙ u.same_keys;
        others = λ j ne. v.others j ne ∙ u.others j ne;
        running = v.running;
        settled = v.settled;
        counted = (q, l, subst (λ x. Counts w h x g''.occupied (body q.head)) u.cells counted);
      }

  set_player-Shape : (g : Game G) (id : ℤ) (q : Player) → Shape g → Shape (set_player g id q)
  unfolding set_player
  set_player-Shape g id q s = record { width = s.width; height = s.height; size = s.size }

  put_cells :
      (g : Game G) (id : ℤ) (q : Player) (cells : List ℕ)
      → Counts w h (set_player g id q).occupied cells (body q.head)
      → Counts w h g.occupied cells (body q.head)
  unfolding set_player
  put_cells g id q cells x = x

  move_snake-ok :
      (g : Game G) (id : ℤ) (p : Player)
      → lookup id g.players ≡ some p
      → IsSettled w h p
      → move_snake g id ≡ ok (set_player g id (stepped g.current_tick p))
  unfolding move_snake
  move_snake-ok g id p e v =
      rw (player_at-ok g id p e, move_snake)
        (rw ((moved-IsSteered g.current_tick p v.steered).0, move_snake))

  pub update_snake-ok :
      (g : Game G) (id : ℤ)
      → Shape g
      → Values (IsRunning w h) g.players
      → Entry (IsSettled w h) g.players id
      → (g' : Game G) × (due : Bool) × (update_snake g id ≡ ok (g', due)) × Updated g g' id due
  unfolding update_snake
  update_snake-ok g id s run (p, e, v) =
      let p' = expire_boost g.movement_frequency_ms g.current_tick p in
      let v' = expire_boost-IsSettled w h g.movement_frequency_ms g.current_tick p v in
      let g' : Game G = set_player g id p' in
      let e' : lookup id g'.players ≡ some p' = set_player-lookup g id p p' e in
      let s' : Shape g' = set_player-Shape g id p' s in
      let first = set_player-Put g id p' run (settled→running w h p' v') in
      elim (Bool-cases (leb_ℤ p'.next_move_time g'.current_tick)) [
        | inl due ↦
            let q = stepped g'.current_tick p' in
            let r = stepped-IsRunning w h g'.current_tick p' v' in
            let g'' : Game G = set_player g' id q in
            let (cells, u, n, counted) =
              update_occupied_cells-ok g'' id q (set_player-Shape g' id q s')
                (set_player-lookup g' id p' q e') r in
            (
              record g'' { occupied = cells },
              true,
              rw (player_at-ok g id p e, update_snake)
                  (rw due (rw (move_snake-ok g' id p' e' v') (rw u))),
              Put-Updated g g' _ id true first (
                  set_player-Updated g' id p' q cells true e' s' first.running r n
                    (put_cells g' id q cells counted) (λ x. cc)),
            )
        | inr rest ↦
            let (cells, u, n, counted) =
              update_occupied_cells-ok g' id p' s' e' (settled→running w h p' v') in
            (
              record g' { occupied = cells },
              false,
              rw (player_at-ok g id p e, update_snake) (rw rest (rw u)),
              set_player-Updated g id p p' cells false e s run (settled→running w h p' v') n
                  (put_cells g id p' cells counted) (λ _. (p', e', v')),
            )
      ]
