-- ===== src/Client/Shown.antt =====
-- What a client shows of a broadcast is the game of the server.
use snake_multiplayer.Base.{
  arith, ℕ, zero, suc, ◌≡◌, ◌≢◌, refl, ap, sym, ◌∙◌, subst, inl, inr, List, [], ◌∷◌, ◌++◌, map,
  take, replicate, Option, none, some, All, Bool, true, false, Bool-cases, ◌==◌, length, ltb,
  if◌then◌else◌,
}
use mathlib.Core.Option as Option
use snake_multiplayer.Base.Int.{ℤ, ◌==ℤ◌, ==ℤ→eq, ==ℤ→ne}
use snake_multiplayer.Base.Map.{lookup, assign, keys, int_key}
use snake_multiplayer.Base.Map.Laws.{Distinct, lookup_away, All-mono, All-and, ne→beq}
use snake_multiplayer.Base.Map.Assign.{lookup-assign_self, lookup-assign_ne, assign-new}
use snake_multiplayer.Snake.{Cell, get_segments}
use snake_multiplayer.Engine.State.{Player, Item, Game}
use snake_multiplayer.Server.State.{
  until_nul, strncpy_16, food_message, food_messages, player_messages, build_game_state,
}
use snake_multiplayer.Client.GameState.{
  PlayerData, FoodData, GameState, c_string, player_data, food_data, add_players, from_protocol,
}

-- A name of 16 bytes or more leaves no 0 in its `char[16]`, so that what the client reads is undefined.
abbrev pub shown_name : List ℕ → Option (List ℕ)
shown_name name = if ltb (length name) 16 then some name else none

ltb_zero : (n : ℕ) → ltb 0 (suc n) ≡ true
ltb_zero n = ground arith

ltb_suc : (a n : ℕ) → ltb (suc a) (suc n) ≡ ltb a n
ltb_suc a n = ground arith

c_string-take :
    (n : ℕ) (name : List ℕ) (k : ℕ)
    → c_string (take n (until_nul name ++ replicate (suc k) 0))
      ≡ (if ltb (length (until_nul name)) n then some (until_nul name) else none)
unfolding c_string
c_string-take zero name k = ground arith
c_string-take (suc n) [] k = rw (ltb_zero n) refl
c_string-take (suc n) (b ∷ bs) k = elim (Bool-cases (b == 0)) [
  | inl nul ↦ rw nul (rw (ltb_zero n) refl)
  | inr char ↦ rw char (
      rw char (
        rw (c_string-take n bs k) (
          rw (ltb_suc (length (until_nul bs)) n)
            (under_if (ltb (length (until_nul bs)) n) b (until_nul bs)))))
]
  where
    under_if :
        (t : Bool) (b : ℕ) (cs : List ℕ)
        → Option.map (λ (xs : List ℕ). b ∷ xs) (if t then some cs else none)
          ≡ (if t then some (b ∷ cs) else none)
    under_if true b cs = refl
    under_if false b cs = refl

c_string-strncpy_16 : (name : List ℕ) → c_string (strncpy_16 name) ≡ shown_name (until_nul name)
unfolding strncpy_16
c_string-strncpy_16 name = c_string-take 16 name 15

-- A player as it is shown.
abbrev pub shown : ℤ → Player → PlayerData
shown id p = record {
  client_id = id;
  direction = p.direction;
  name = shown_name (until_nul p.name);
  score = p.score;
  color = p.color;
  segments = get_segments p.head;
}

-- An item as it is shown.
abbrev pub shown_item : Cell × Item → FoodData
shown_item (c, f) = record { x = f.x; y = f.y; icon = f.icon; color = f.color }

map-food : (fs : List (Cell × Item)) → map food_data (food_messages fs) ≡ map shown_item fs
unfolding food_messages food_message food_data
map-food [] = refl
map-food ((c, f) ∷ fs) = ap (λ (xs : List FoodData). shown_item (c, f) ∷ xs) (map-food fs)

-- What an entry of the server's map is shown as, over what is there already.
abbrev shown_or : ℤ → Option PlayerData → Option Player → Option PlayerData
shown_or id old none = old
shown_or id old (some p) = some (shown id p)

shown_or-none : (id : ℤ) (o : Option Player) → shown_or id none o ≡ Option.map (shown id) o
shown_or-none id none = refl
shown_or-none id (some p) = refl

add_players-lookup :
    (id : ℤ) (m : List (ℤ × PlayerData)) (ps : List (ℤ × Player))
    → Distinct (keys ps)
    → lookup id (add_players m (player_messages ps)) ≡ shown_or id (lookup id m) (lookup id ps)
unfolding add_players player_messages player_data lookup
add_players-lookup id m [] d = refl
add_players-lookup id m ((j, p) ∷ ps) d =
    let q : PlayerData = shown j p in
    let first : player_data (record {
      client_id = j;
      color = p.color;
      direction = p.direction;
      score = p.score;
      username = strncpy_16 p.name;
      segments = get_segments p.head;
    })
        ≡ q =
      rw (c_string-strncpy_16 p.name) refl in
    let later = add_players-lookup id (assign j q m) ps d.1 in
    elim (Bool-cases (j ==ℤ id)) [
      | inl hit ↦
          let same = ==ℤ→eq j id hit in
          let absent : lookup id ps ≡ none =
            lookup_away id ps (subst (λ k. All (λ i. i ≢ k) (keys ps)) same d.0) in
          let there : lookup id (assign j q m) ≡ some (shown id p) =
            subst (λ k. lookup id (assign k (shown k p) m) ≡ some (shown id p)) (sym same)
              (lookup-assign_self id (shown id p) m) in
          ap view first ∙ later ∙ rw hit (rw absent there)
      | inr miss ↦
          ap view first
          ∙ later
          ∙ rw miss (rw (lookup-assign_ne id j q m (λ e. ==ℤ→ne j id miss (sym e))) refl)
    ]
  where
    view : PlayerData → Option PlayerData
    view r = lookup id (add_players (assign j r m) (player_messages ps))

module _ {G : Type 0} where
  pub from_protocol-build_game_state :
      (g : Game G)
      → Distinct (keys g.players)
      → ((id : ℤ)
          → lookup id (from_protocol (build_game_state g)).players
            ≡ Option.map (shown id) (lookup id g.players))
        × ((from_protocol (build_game_state g)).food ≡ map shown_item g.food)
        × ((from_protocol (build_game_state g)).speed_boosts ≡ map shown_item g.speed_boosts)
        × ((from_protocol (build_game_state g)).server_high_score
            ≡ (shown_name (until_nul g.high_score_name), g.high_score))
  unfolding from_protocol build_game_state lookup
  from_protocol-build_game_state g d = (
    λ id. add_players-lookup id [] g.players d ∙ shown_or-none id (lookup id g.players),
    map-food g.food,
    map-food g.speed_boosts,
    rw (c_string-strncpy_16 g.high_score_name) refl,
  )

-- The server's game as its clients see it, said without messages: the players are in the order in
-- which the client's loop meets them, the last one first.
abbrev shown_players : List (ℤ × PlayerData) → List (ℤ × Player) → List (ℤ × PlayerData)
shown_players m [] = m
shown_players m ((id, p) ∷ ps) = shown_players ((id, shown id p) ∷ m) ps

abbrev pub shown_game : {G : Type 0} → Game G → GameState
shown_game g = record {
  players = shown_players [] g.players;
  food = map shown_item g.food;
  speed_boosts = map shown_item g.speed_boosts;
  server_high_score = (shown_name (until_nul g.high_score_name), g.high_score);
}

add_players-shown_players :
    (m : List (ℤ × PlayerData)) (ps : List (ℤ × Player))
    → Distinct (keys ps)
    → All (λ j. lookup j m ≡ none) (keys ps)
    → add_players m (player_messages ps) ≡ shown_players m ps
unfolding add_players player_messages player_data lookup
add_players-shown_players m [] d away = refl
add_players-shown_players m ((id, p) ∷ ps) d away =
    let first : player_data (record {
      client_id = id;
      color = p.color;
      direction = p.direction;
      score = p.score;
      username = strncpy_16 p.name;
      segments = get_segments p.head;
    })
        ≡ shown id p =
      rw (c_string-strncpy_16 p.name) refl in
    ap (λ (r : PlayerData). add_players (assign id r m) (player_messages ps)) first
    ∙ ap (λ (n : List (ℤ × PlayerData)). add_players n (player_messages ps))
        (assign-new id (shown id p) m away.0)
    ∙ add_players-shown_players ((id, shown id p) ∷ m) ps d.1 (
        All-mono _ _
          (λ j (x : (j ≢ id) × (lookup j m ≡ none)). rw (ne→beq id j (λ e. x.0 (sym e))) x.1)
          (keys ps) (All-and _ _ (keys ps) d.0 away.1))

abbrev nobody : List (ℤ × PlayerData)
nobody = []

lookup_nothing : (ks : List ℤ) → All (λ j. lookup j nobody ≡ none) ks
unfolding lookup
lookup_nothing [] = tt
lookup_nothing (k ∷ ks) = (refl, lookup_nothing ks)

pub from_protocol-shown_game :
    {G : Type 0} (g : Game G)
    → Distinct (keys g.players)
    → from_protocol (build_game_state g) ≡ shown_game g
unfolding from_protocol build_game_state
from_protocol-shown_game g d =
    rw (add_players-shown_players [] g.players d (lookup_nothing (keys g.players))) (
      rw (map-food g.food)
        (rw (map-food g.speed_boosts) (rw (c_string-strncpy_16 g.high_score_name) refl)))
