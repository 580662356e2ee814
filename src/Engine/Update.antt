-- ===== src/Engine/Update.antt =====
-- `updateSnakes` never throws, whatever the order of the map: the counting of body cells stays
-- within the vector, and the steps are those of steered snakes.
pub mod Round
use snake_multiplayer.Base.{
  zero, suc, none, Option, ap, sym, replicate, get_elem?, ◌<◌, ◌+◌, ◌%◌, ◌^◌, ℕ, ◌+◌, ◌*◌, ◌%◌, ◌^◌,
  ◌≡◌, ◌≢◌, refl, ◌∙◌, ◌⊎◌, inl, inr, Bool, true, false, ◌&&◌, ◌||◌, List, [], ◌∷◌, arith, length,
  All, drop, set, get_elem?-lt, length-set, length-replicate, some, ok, ◌>>=◌, Bool-cases,
}
use snake_multiplayer.Base.Int.{==ℤ_refl, pos, ℤ, pos, leb_ℤ, ◌==ℤ◌, ==ℤ→eq, ==ℤ→ne}
use snake_multiplayer.Base.Map.{lookup, keys, Values, int_key}
use snake_multiplayer.Base.Map.Laws.{
  ne→beq, Distinct, All-mono, All-and, Values-mono, Values-modify, lookup-modify_self,
  lookup-modify_ne, keys-modify, Entry, keys-Entry, Entry→Values,
}
use snake_multiplayer.Snake.{Cell, PlayerNode, get_segments, move}
use snake_multiplayer.Snake.Motion.{body, get_segments-body}
use snake_multiplayer.Engine.State.{Player, Game}
use snake_multiplayer.Engine.Arena.{InArena, IsTracked, IsInside, cell_index-lt, move_to-IsTracked}
use snake_multiplayer.Engine.Input.{IsSteered, stepped, moved-IsSteered}
use snake_multiplayer.Snake.{Cell}
use snake_multiplayer.Snake.Motion.{body}
use snake_multiplayer.Engine.Arena.{Bodies, InArena, cell_index-lt}
use snake_multiplayer.Engine.Counts.{count, Counts, at_index}
use snake_multiplayer.Engine.Move.{
  cell_index, cell_index, bump, bump_all, clear, expire_boost, player_at, set_player, move_snake,
  update_occupied_cells, update_snake, update_loop, update_snakes,
}
pub use Round.*

-- The body of the player with that id, if there is one.
unfoldable body_of : Option Player → List Cell
body_of none = []
body_of (some p) = body p.head

abbrev body_at : ℤ → List (ℤ × Player) → List Cell
body_at id ps = body_of (lookup id ps)

-- How many body segments the players of some ids have in a cell.
abbrev total : Cell → List ℤ → List (ℤ × Player) → ℕ
total c [] ps = 0
total c (id ∷ ids) ps = count c (body_at id ps) + total c ids ps

-- How many body segments all players of a map have in a cell.
abbrev pub bodies_in : Cell → List (ℤ × Player) → ℕ
bodies_in c [] = 0
bodies_in c ((id, p) ∷ ps) = count c (body p.head) + bodies_in c ps

total-tail :
    (c : Cell) (ids : List ℤ) (j : ℤ) (p : Player) (ps : List (ℤ × Player))
    → All (λ i. i ≢ j) ids
    → total c ids ((j, p) ∷ ps) ≡ total c ids ps
unfolding lookup body_of
total-tail c [] j p ps away = refl
total-tail c (i ∷ ids) j p ps (ne, away) =
    rw (ne→beq j i (λ e. ne (sym e)))
      (ap (λ (x : ℕ). count c (body_at i ps) + x) (total-tail c ids j p ps away))

total-keys :
    (c : Cell) (ps : List (ℤ × Player)) → Distinct (keys ps) → total c (keys ps) ps ≡ bodies_in c ps
unfolding lookup body_of
total-keys c [] d = refl
total-keys c ((j, p) ∷ ps) (away, d) = rw (==ℤ_refl j) (
    ap (λ (x : ℕ). count c (body p.head) + x)
      (total-tail c (keys ps) j p ps away ∙ total-keys c ps d))

get_elem?-zeros : (n i : ℕ) → i < n → get_elem? {A = ℕ} (replicate n 0) i ≡ some 0
get_elem?-zeros zero i lt = absurd (omega arith)
get_elem?-zeros (suc n) zero lt = refl
get_elem?-zeros (suc n) (suc i) lt = get_elem?-zeros n i (omega arith)

module _ (w h : ℕ) {G : Type 0} where
  -- The game after some rounds, from one in which the players of `ids` are still to come.
  record Advanced (ids : List ℤ) (g g' : Game G) (updates : Bool) : Type 0 where
    shape : Shape w h g'
    same_keys : keys g'.players ≡ keys g.players
    running : Values (IsRunning w h) g'.players
    settled :
        updates ≡ false
        → (j : ℤ) → Entry (IsSettled w h) g.players j
        → Entry (IsSettled w h) g'.players j
    others : (j : ℤ) → All (λ i. i ≢ j) ids → lookup j g'.players ≡ lookup j g.players
    tallied :
        (c : Cell) (n : ℕ)
        → InArena w h c
        → n < 2 ^ 16
        → Bodies w g.occupied c n
        → Bodies w g'.occupied c ((n + total c ids g'.players) % 2 ^ 16)

  IsSettled-after :
      {g g' : Game G} {id : ℤ} {due : Bool}
      → Updated w h g g' id due
      → due ≡ false
      → (j : ℤ) → Entry (IsSettled w h) g.players j
      → Entry (IsSettled w h) g'.players j
  IsSettled-after {id} u f j (p, e, v) = elim (Bool-cases (j ==ℤ id)) [
    | inl hit ↦ rw (==ℤ→eq j id hit) (u.settled f)
    | inr miss ↦ (p, u.others j (==ℤ→ne j id miss) ∙ e, v)
  ]

  -- The round of one player, and those of the others after it.
  tally :
      (g g' g'' : Game G) (id : ℤ) (ids : List ℤ) (c : Cell) (n : ℕ)
      → (q : Player) × (lookup id g'.players ≡ some q)
        × Counts w h g.occupied g'.occupied (body q.head)
      → lookup id g''.players ≡ lookup id g'.players
      → ((k : ℕ)
          → InArena w h c
          → k < 2 ^ 16
          → Bodies w g'.occupied c k
          → Bodies w g''.occupied c ((k + total c ids g''.players) % 2 ^ 16))
      → InArena w h c
      → n < 2 ^ 16
      → Bodies w g.occupied c n
      → Bodies w g''.occupied c ((n + total c (id ∷ ids) g''.players) % 2 ^ 16)
  unfolding body_of
  tally g g' g'' id ids c n (q, l, counted) same rest vc small known =
      let m : ℕ = count c (body q.head) in
      let there : body_at id g''.players ≡ body q.head = ap body_of (same ∙ l) in
      rest ((n + m) % 2 ^ 16) vc (below (n + m)) (counted c n vc small known)
      ∙ ap (λ (x : ℕ). ok x) (collect n m (total c ids g''.players))
      ∙ ap (λ (b : List Cell). ok ((n + (count c b + total c ids g''.players)) % 2 ^ 16))
          (sym there)
    where
      below : (x : ℕ) → x % 2 ^ 16 < 2 ^ 16
      below x = omega arith

      collect : (x y z : ℕ) → ((x + y) % 2 ^ 16 + z) % 2 ^ 16 ≡ (x + (y + z)) % 2 ^ 16
      collect x y z = omega arith

  update_loop-ok :
      (ids : List ℤ) (g : Game G) (updates : Bool)
      → Shape w h g
      → Values (IsRunning w h) g.players
      → Distinct ids
      → All (Entry (IsSettled w h) g.players) ids
      → (g' : Game G) × (b : Bool) × (update_loop ids g updates ≡ ok (g', b))
        × Advanced ids g g' b
        × (b ≡ false → updates ≡ false)
  unfolding update_loop
  update_loop-ok [] g updates s run d v = (
    g,
    updates,
    refl,
    record {
      shape = s;
      same_keys = refl;
      running = run;
      settled = λ _ j x. x;
      others = λ j _. refl;
      tallied = λ c n _ small known. known ∙ ap (λ (x : ℕ). ok x) (stays n small);
    },
    λ x. x,
  )
    where
      stays : (x : ℕ) → x < 2 ^ 16 → x ≡ (x + 0) % 2 ^ 16
      stays x lt = omega arith
  update_loop-ok (id ∷ ids) g updates s run (away, d) (v, vs) =
      let (g', due, e, u) = update_snake-ok w h g id s run v in
      let kept : All (Entry (IsSettled w h) g'.players) ids =
        All-mono _ _
          (λ j (((p, l, x), ne) : Entry (IsSettled w h) g.players j × (j ≢ id)).
            (p, u.others j ne ∙ l, x))
          ids (All-and _ _ ids vs away) in
      let (g'', b, es, a, f) = update_loop-ok ids g' (due || updates) u.shape u.running d kept in
      (
        g'',
        b,
        rw (e, update_loop) es,
        record {
          shape = a.shape;
          same_keys = a.same_keys ∙ u.same_keys;
          running = a.running;
          settled = λ x j y. a.settled x j (IsSettled-after u (or_false due updates (f x)).0 j y);
          others = λ j ne. a.others j ne.1 ∙ u.others j (λ e. ne.0 (sym e));
          tallied = λ c n vc small known.
              tally g g' g'' id ids c n u.counted (a.others id away) (a.tallied c) vc small known;
        },
        λ x. (or_false due updates (f x)).1,
      )

  -- The game between two ticks: the shape, one entry for each id, and every snake in the arena.
  pub record IsReady (g : Game G) : Type 0 where
    pub shape : Shape w h g
    pub distinct : Distinct (keys g.players)
    pub settled : Values (IsSettled w h) g.players

  -- The game that `checkCollisions` is given: bodies in the arena, heads anywhere.
  pub record IsMoved (g : Game G) : Type 0 where
    pub shape : Shape w h g
    pub distinct : Distinct (keys g.players)
    pub running : Values (IsRunning w h) g.players

  -- The whole loop, from the cleared counts.
  update_snakes-Advanced :
      (g : Game G)
      → IsReady g
      → (g' : Game G) × (b : Bool) × (update_snakes g ≡ ok (g', b))
        × Advanced (keys g.players) (record g { occupied = clear g.occupied }) g' b
  unfolding update_snakes
  update_snakes-Advanced g v =
      let start : Game G = record g { occupied = clear g.occupied } in
      let shape : Shape w h start = record {
        width = v.shape.width;
        height = v.shape.height;
        size = unfold clear in length-replicate (length g.occupied) 0 ∙ v.shape.size;
      } in
      let entries = keys-Entry (IsSettled w h) g.players v.distinct v.settled in
      let running = Values-mono _ _ (settled→running w h) g.players v.settled in
      let (g', b, e, a, _) =
        update_loop-ok (keys g.players) start false shape running v.distinct entries in
      (g', b, e, a)

  -- From a ready game `updateSnakes` does not throw: no cell is counted outside the vector, and no
  -- direction is invalid. The same players are left, with their bodies in the arena; and unless it
  -- reports a movement, the game is still ready.
  pub update_snakes-IsMoved :
      (g : Game G)
      → IsReady g
      → (g' : Game G) × (b : Bool) × (update_snakes g ≡ ok (g', b))
        × IsMoved g'
        × (keys g'.players ≡ keys g.players)
        × ((b ≡ true) ⊎ IsReady g')
  update_snakes-IsMoved g v =
      let (g', b, e, a) = update_snakes-Advanced g v in
      let entries = keys-Entry (IsSettled w h) g.players v.distinct v.settled in
      let distinct : Distinct (keys g'.players) = rw a.same_keys v.distinct in
      (
        g',
        b,
        e,
        record { shape = a.shape; distinct = distinct; running = a.running },
        a.same_keys,
        elim (Bool-cases b) [
          | inl moves ↦ inl moves
          | inr still ↦ inr (record {
            shape = a.shape;
            distinct = distinct;
            settled =
                Entry→Values (IsSettled w h) g'.players distinct
                  (rw a.same_keys (All-mono _ _ (a.settled still) (keys g.players) entries));
          })
        ],
      )

  -- After `updateSnakes` from a ready game, the count of each cell of the arena is the number of body
  -- segments, heads left out, that all snakes have in it where they stand now, up to the wrap-around
  -- of `uint16_t`: whatever was counted before, and whoever moved in between.
  pub update_snakes-Bodies :
      (g : Game G) (c : Cell)
      → IsReady g
      → InArena w h c
      → (g' : Game G) × (b : Bool) × (update_snakes g ≡ ok (g', b))
        × Bodies w g'.occupied c (bodies_in c g'.players % 2 ^ 16)
  update_snakes-Bodies g c v vc =
      let (g', b, e, a) = update_snakes-Advanced g v in
      let (i, ei, li) = cell_index-lt w h c vc in
      let zero_there : Bodies w (clear g.occupied) c 0 =
        unfold clear in
        at_index _ (cell_index (pos w) c) i 0 ei
          (get_elem?-zeros (length g.occupied) i (rw v.shape.size li)) in
      let distinct : Distinct (keys g'.players) = rw a.same_keys v.distinct in
      let same : total c (keys g.players) g'.players ≡ bodies_in c g'.players =
        ap (λ (ks : List ℤ). total c ks g'.players) (sym a.same_keys)
        ∙ total-keys c g'.players distinct in
      let all : 0 + total c (keys g.players) g'.players ≡ bodies_in c g'.players =
        omega (arith, same) in
      (g', b, e, a.tallied c 0 vc (omega arith) zero_there ∙ ap (λ (x : ℕ). ok (x % 2 ^ 16)) all)
