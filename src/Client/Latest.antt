-- ===== src/Client/Latest.antt =====
-- What a client makes of the messages that come in one `recv`.
use snake_multiplayer.Base.{
  subst, false, ap, sym, ◌∙◌, inl, inr, ◌||◌, ◌&&◌, Bool-cases, if◌then◌else◌, ◌≤◌, ◌≡◌, refl, Bool,
  true, List, [], ◌∷◌, Option, none, some, arith, length, All, ok,
}
use snake_multiplayer.Base.Int.{ℤ, negsuc, ◌==ℤ◌, ==ℤ→eq}
use snake_multiplayer.Base.Map.{contains, modify, assign, int_key}
use snake_multiplayer.Client.GameState.{PlayerData, player_data, add_players, from_protocol}
use snake_multiplayer.Socket.{received}
use snake_multiplayer.Protocol.Types.{
  GameState, Player, MessageVariant, server_config, client_input, client_disconnect, server_welcome,
  client_join, game_state,
}
use snake_multiplayer.Protocol.Valid.{IsMessage}
use snake_multiplayer.Protocol.Write.{serialise}
use snake_multiplayer.Protocol.RoundTrip.{deserialise-serialise}
use snake_multiplayer.Frame.{client_parse, client_recv_max_message_size}
use snake_multiplayer.Frame.Stream.{stream, parse-stream}
use snake_multiplayer.Frame.Session.{serialised}
use snake_multiplayer.Client.Network.{receive_from_server}
use snake_multiplayer.Client.Play.{
  SnakeClient, handle_server_welcome, handle_game_state_message, read_messages, handle_latest,
  receive_updates,
}

-- What the server sends: welcomes and states, within the client's limit.
abbrev pub IsFromServer : MessageVariant → Type 0
IsFromServer (server_welcome m) =
    IsMessage (server_welcome m)
    × (length (serialise (server_welcome m)) ≤ client_recv_max_message_size)
IsFromServer (game_state m) =
    IsMessage (game_state m) × (length (serialise (game_state m)) ≤ client_recv_max_message_size)
IsFromServer (server_config m) = ⊥
IsFromServer (client_input m) = ⊥
IsFromServer (client_disconnect m) = ⊥
IsFromServer (client_join m) = ⊥

-- The id of the last welcome, or the one there was.
abbrev pub last_id : ℤ → List MessageVariant → ℤ
last_id id [] = id
last_id id (server_welcome m ∷ ms) = last_id m.hdr.client_id ms
last_id id (_ ∷ ms) = last_id id ms

-- Whether there is a welcome.
abbrev pub is_welcomed : Bool → List MessageVariant → Bool
is_welcomed before [] = before
is_welcomed before (server_welcome m ∷ ms) = is_welcomed true ms
is_welcomed before (_ ∷ ms) = is_welcomed before ms

abbrev pub last_state : Option GameState → List MessageVariant → Option GameState
last_state before [] = before
last_state before (game_state m ∷ ms) = last_state (some m) ms
last_state before (_ ∷ ms) = last_state before ms

abbrev pub welcomed : SnakeClient → List MessageVariant → SnakeClient
welcomed c ms = record c { client_id = last_id c.client_id ms; playing = is_welcomed c.playing ms }

read_messages-serialised :
    (c : SnakeClient) (before : Option GameState) (ms : List MessageVariant)
    → All IsFromServer ms
    → read_messages c before (serialised ms) ≡ ok (welcomed c ms, last_state before ms)
unfolding read_messages handle_server_welcome
read_messages-serialised c before [] v = refl
read_messages-serialised c before (server_welcome m ∷ ms) (v, vs) =
    rw (deserialise-serialise (server_welcome m) v.0)
      (read_messages-serialised (handle_server_welcome c m) before ms vs)
read_messages-serialised c before (game_state m ∷ ms) (v, vs) =
    rw (deserialise-serialise (game_state m) v.0) (read_messages-serialised c (some m) ms vs)
read_messages-serialised c before (server_config m ∷ ms) (v, vs) = absurd v
read_messages-serialised c before (client_input m ∷ ms) (v, vs) = absurd v
read_messages-serialised c before (client_disconnect m ∷ ms) (v, vs) = absurd v
read_messages-serialised c before (client_join m ∷ ms) (v, vs) = absurd v

fits :
    (ms : List MessageVariant)
    → All IsFromServer ms
    → All (λ m. length m ≤ client_recv_max_message_size) (serialised ms)
fits [] v = tt
fits (server_welcome m ∷ ms) (v, vs) = (v.1, fits ms vs)
fits (game_state m ∷ ms) (v, vs) = (v.1, fits ms vs)
fits (server_config m ∷ ms) (v, vs) = absurd v
fits (client_input m ∷ ms) (v, vs) = absurd v
fits (client_disconnect m ∷ ms) (v, vs) = absurd v
fits (client_join m ∷ ms) (v, vs) = absurd v

-- Whether a player of a state has an id.
abbrev pub is_listed : ℤ → List Player → Bool
is_listed id [] = false
is_listed id (p ∷ ps) = (p.client_id ==ℤ id) || is_listed id ps

-- What a client is after a state, or without one: without its player it plays no more and has no id.
abbrev pub informed : SnakeClient → Option GameState → SnakeClient
informed c none = c
informed c (some m) = record c {
  game_state = from_protocol m;
  playing = is_listed c.client_id m.players && c.playing;
  client_id = if is_listed c.client_id m.players then c.client_id else negsuc 0;
}

or_step : (a b c : Bool) → ((a || b) || c) ≡ (b || (a || c))
or_step true true c = refl
or_step true false c = refl
or_step false b c = refl

contains-modify :
    (id k : ℤ) (p : PlayerData) (m : List (ℤ × PlayerData))
    → contains id (modify k (λ _. p) m) ≡ contains id m
unfolding contains modify
contains-modify id k p [] = refl
contains-modify id k p ((j, q) ∷ m) = elim (Bool-cases (j ==ℤ k)) [
  | inl hit ↦ rw hit (rw (contains-modify id k p m) refl)
  | inr miss ↦ rw miss (rw (contains-modify id k p m) refl)
]

contains-assign :
    (id k : ℤ) (p : PlayerData) (m : List (ℤ × PlayerData))
    → contains id (assign k p m) ≡ ((k ==ℤ id) || contains id m)
unfolding contains assign
contains-assign id k p m = elim (Bool-cases (contains k m)) [
  | inl known ↦ elim (Bool-cases (k ==ℤ id)) [
    | inl same ↦ rw known (
        contains-modify id k p m
        ∙ subst (λ j. contains j m ≡ true) (==ℤ→eq k id same) known
        ∙ rw same refl)
    | inr other ↦ rw known (contains-modify id k p m ∙ rw other refl)
  ]
  | inr new ↦ elim (Bool-cases (k ==ℤ id)) [
    | inl same ↦ rw new (rw same refl)
    | inr other ↦ rw new (rw other refl)
  ]
]

add_players-contains :
    (id : ℤ) (m : List (ℤ × PlayerData)) (ps : List Player)
    → contains id (add_players m ps) ≡ (is_listed id ps || contains id m)
unfolding add_players
add_players-contains id m [] = refl
add_players-contains id m (p ∷ ps) =
    add_players-contains id (assign p.client_id (player_data p) m) ps
    ∙ rw (contains-assign id p.client_id (player_data p) m)
        (sym (or_step (p.client_id ==ℤ id) (is_listed id ps) (contains id m)))

or_false : (a : Bool) → (a || false) ≡ a
or_false true = refl
or_false false = refl

handle_latest-informed :
    (c : SnakeClient) (latest : Option GameState) → handle_latest c latest ≡ informed c latest
unfolding handle_latest handle_game_state_message from_protocol contains
handle_latest-informed c none = refl
handle_latest-informed c (some m) =
    let there : contains c.client_id (from_protocol m).players ≡ is_listed c.client_id m.players =
      add_players-contains c.client_id [] m.players ∙ or_false (is_listed c.client_id m.players) in
    elim (Bool-cases (is_listed c.client_id m.players)) [
      | inl listed ↦ rw (there ∙ listed) (rw listed refl)
      | inr gone ↦ rw (there ∙ gone) (rw gone refl)
    ]

-- When welcomes and states come whole in one `recv`, the client does not throw. It takes the id of
-- the last welcome, and then keeps what the last state says and no other, also where that state was
-- sent before the welcome: if no player of it has that id, the client plays no more and its id is -1.
-- Without a state it plays from the first welcome on. Nothing else of it changes.
pub receive_updates-latest :
    (c : SnakeClient) (ms : List MessageVariant)
    → c.message_buffer ≡ []
    → All IsFromServer ms
    → receive_updates c (received (stream (serialised ms)))
      ≡ ok (informed (record (welcomed c ms) { message_buffer = [] }) (last_state none ms))
unfolding receive_updates receive_from_server client_parse
receive_updates-latest c ms empty v =
    let e = parse-stream client_recv_max_message_size (omega arith) (serialised ms) (fits ms v) in
    rw empty (
      rw e (
        rw (read_messages-serialised (record c { message_buffer = [] }) none ms v)
          (ap ok (handle_latest-informed _ _))))
