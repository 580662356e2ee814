-- ===== src/Bot/Round.antt =====
-- A round of the bot, from the bytes that come to the bytes that go.
use snake_multiplayer.Base.{
  ℕ, ◌*◌, ◌≤◌, ◌<◌, ◌≡◌, refl, ap, ◌∙◌, Bool, true, false, List, [], ◌∷◌, ◌++◌, some, arith, length,
  le→ltb_false, ok, length-append, suc,
}
use mathlib.Core.Option as Option
use snake_multiplayer.Base.Int.{ℤ, negsuc, ◌==ℤ◌}
use snake_multiplayer.Base.Map.{lookup, contains, int_key}
use snake_multiplayer.Base.Map.Assign.{lookup-contains}
use snake_multiplayer.Socket.{received, Sent, taken}
use snake_multiplayer.Snake.{head_cell}
use snake_multiplayer.Engine.State.{Player, Game}
use snake_multiplayer.Engine.Update.{IsReady}
use snake_multiplayer.Protocol.Types.{Header, MessageVariant, client_input, game_state}
use snake_multiplayer.Protocol.Types as Protocol
use snake_multiplayer.Protocol.Types.MessageType
use snake_multiplayer.Protocol.Valid.{IsGameState}
use snake_multiplayer.Protocol.Write.{serialise, serialise_header}
use snake_multiplayer.Protocol.Layout.{length-serialise_header, client_input_layout}
use snake_multiplayer.Protocol.RoundTrip.{deserialise-serialise}
use snake_multiplayer.Frame.{frame, client_recv_max_message_size}
use snake_multiplayer.Frame.Stream.{client_parse-frame, length-frame}
use snake_multiplayer.Server.State.{new_header, build_game_state}
use snake_multiplayer.Client.GameState.{GameState, from_protocol}
use snake_multiplayer.Client.Network.{send_to_server, receive_from_server}
use snake_multiplayer.Client.Shown.{shown, from_protocol-build_game_state}
use snake_multiplayer.Client.Guided.{IsLaid, broadcast-IsHunt_told}
use snake_multiplayer.Client.Play.{input_message}
use snake_multiplayer.Pathfinder.{int_max, Grid, Pathfinder, rebuild_map, calculate_next_move}
use snake_multiplayer.Pathfinder.Hunt.{IsHunt}
use snake_multiplayer.Bot.{
  SnakeBot, handle_game_state_message, read_messages, handle_latest, receive_updates, send_input,
  answer_change, run_once,
}

-- An input is 25 bytes, and 29 with its length.
length-input_message : (id : ℤ) (key : ℕ) → length (frame (serialise (input_message id key))) ≡ 29
unfolding input_message serialise
length-input_message id key =
    rw (client_input_layout (record { hdr = new_header MessageType.client_input id; input = key }))
      (omega (
        arith,
        length-frame (serialise_header (new_header MessageType.client_input id) ++ (key ∷ [])),
        length-append (serialise_header (new_header MessageType.client_input id)) (key ∷ []),
        length-serialise_header (new_header MessageType.client_input id),
      ))

pub send_input_message :
    (id : ℤ) (key n : ℕ)
    → 29 ≤ n
    → send_to_server (serialise (input_message id key)) (taken n)
      ≡ ok (frame (serialise (input_message id key)))
unfolding send_to_server
send_input_message id key n l = rw (length-input_message id key) (rw (le→ltb_false n 29 l) refl)

-- A bot in the game, with an empty buffer.
abbrev pub playing_bot : ℕ → ℕ → Bool → Bool → ℤ → GameState → Grid → List ℕ → SnakeBot
playing_bot w h awaiting changed id seen old sent = record {
  awaiting_join = awaiting;
  game_state_has_changed = changed;
  client_id = id;
  game_state = seen;
  pathfinder = record { width = w; height = h; dijkstra_map = old };
  message_buffer = [];
  sent = sent;
}

-- The broadcast of a game under a header.
abbrev pub state_message : {G : Type 0} → Game G → Header → Protocol.GameState
state_message g header = record (build_game_state g) { hdr = header }

module _ (w h : ℕ) {G : Type 0} (g : Game G) (ready : IsReady w h g) where
  same_state :
      (header : Header)
      → from_protocol (state_message g header) ≡ from_protocol (build_game_state g)
  unfolding from_protocol
  same_state header = refl

  contains-shown :
      (id : ℤ) (p : Player)
      → lookup id g.players ≡ some p
      → contains id (from_protocol (build_game_state g)).players ≡ true
  contains-shown id p known =
      lookup-contains id (from_protocol (build_game_state g)).players (shown id p) (
        (from_protocol-build_game_state g ready.distinct).0 id
        ∙ ap (λ o. Option.map (shown id) o) known)

  -- The bot that has read the broadcast.
  abbrev told_bot : ℤ → Protocol.GameState → Bool → Pathfinder → List ℕ → Bool → SnakeBot
  told_bot id m awaiting f sent changed = record {
    awaiting_join = awaiting;
    game_state_has_changed = changed;
    client_id = id;
    game_state = from_protocol m;
    pathfinder = f;
    message_buffer = [];
    sent = sent;
  }

  module _ (id : ℤ) (p : Player) (known : lookup id g.players ≡ some p)
      (some_id : (id ==ℤ negsuc 0) ≡ false) (header : Header) where
    receive_updates-told_bot :
        (awaiting changed : Bool) (seen : GameState) (old : Grid) (sent : List ℕ) (f : Pathfinder)
        → IsGameState (state_message g header)
        → length (serialise (game_state (state_message g header))) ≤ client_recv_max_message_size
        → rebuild_map
            (record { width = w; height = h; dijkstra_map = old })
            (from_protocol (state_message g header))
          ≡ ok f
        → receive_updates
            (playing_bot w h awaiting changed id seen old sent)
            (received (frame (serialise (game_state (state_message g header)))))
          ≡ ok (told_bot id (state_message g header) awaiting f sent true)
    unfolding receive_updates receive_from_server read_messages handle_latest
        handle_game_state_message build_game_state from_protocol
    receive_updates-told_bot awaiting changed seen old sent f valid fits rebuilt =
        rw (client_parse-frame (serialise (game_state (state_message g header))) fits) (
          rw (deserialise-serialise (game_state (state_message g header)) valid)
            (rw rebuilt (rw some_id (rw there refl))))
      where
        there : contains id (from_protocol (state_message g header)).players ≡ true
        there = contains-shown id p known

    answer_change-told_bot :
        (awaiting : Bool) (sent : List ℕ) (f : Pathfinder) (key n : ℕ)
        → calculate_next_move f id (from_protocol (state_message g header)) ≡ ok key
        → 29 ≤ n
        → answer_change (told_bot id (state_message g header) awaiting f sent true) (taken n)
          ≡ ok (
              told_bot id
                (state_message g header)
                awaiting
                f
                (sent ++ frame (serialise (input_message id key)))
                false)
    unfolding answer_change send_input build_game_state from_protocol
    answer_change-told_bot awaiting sent f key n found whole =
        rw some_id (rw there (rw found (rw (send_input_message id key n whole) refl)))
      where
        there : contains id (from_protocol (state_message g header)).players ≡ true
        there = contains-shown id p known

    -- A bot in the game, on the broadcast of a ready game, with the food and boosts on the map: when
    -- the frame of the broadcast comes whole, the round does not throw, and the bot sends the frame
    -- of one CLIENT_INPUT, with a move that is '?' only where each move that the rules allow leads
    -- under a snake, and otherwise an allowed move off all snakes and nearest to food.
    pub run_once-IsHunt :
        (awaiting changed : Bool) (seen : GameState) (old : Grid) (sent : List ℕ) (r : Sent) (n : ℕ)
        → IsLaid w h g ready
        → suc h * suc w < int_max
        → IsGameState (state_message g header)
        → length (serialise (game_state (state_message g header))) ≤ client_recv_max_message_size
        → 29 ≤ n
        → (b : SnakeBot) × (key : ℕ) × (run_once
              (playing_bot w h awaiting changed id seen old sent)
              (r, taken n)
              (received (frame (serialise (game_state (state_message g header)))))
            ≡ ok b)
          × (b.sent ≡ sent ++ frame (serialise (input_message id key)))
          × IsHunt w h (from_protocol (build_game_state g)) p.direction (head_cell p.head) key
    unfolding run_once
    run_once-IsHunt awaiting changed seen old sent r n laid small valid fits whole =
        let (f, rebuilt, (key, found, hunt)) =
          broadcast-IsHunt_told w h g ready old id p laid small known in
        (
          told_bot id (state_message g header) awaiting f
              (sent ++ frame (serialise (input_message id key))) false,
          key,
          rw some_id (
              rw
                (receive_updates-told_bot awaiting changed seen old sent f valid fits (
                  ap (rebuild_map (record { width = w; height = h; dijkstra_map = old }))
                    (same_state header)
                  ∙ rebuilt))
                (answer_change-told_bot awaiting sent f key n
                  (ap (calculate_next_move f id) (same_state header) ∙ found) whole)),
          refl,
          hunt,
        )
