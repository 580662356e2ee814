-- ===== src/Server/Records.antt =====
-- The message log of the server: what a round of the loop writes there.
use snake_multiplayer.Base.{
  ltb, zero, ok_inj, ℕ, suc, ◌+◌, ◌≡◌, refl, ap, sym, ◌∙◌, subst, inl, inr, Bool, true, false, ◌||◌,
  List, [], ◌∷◌, ◌++◌, arith, length, length-append, if◌then◌else◌, Bool-cases, Result,
  Result-cases, ok, ◌>>=◌,
}
use snake_multiplayer.Base.Int.{ℤ, pos, ◌+ℤ◌}
use snake_multiplayer.Protocol.Types.{
  Header, ClientJoin, MessageVariant, header, with_header, server_config, client_input,
  client_disconnect, server_welcome, client_join, game_state,
}
use snake_multiplayer.Protocol.Write.{serialise}
use snake_multiplayer.Protocol.Types.MessageType
use snake_multiplayer.Engine.Food.{create_new_player, place_food_at, place_food, replace_food}
use snake_multiplayer.Engine.Input.{handle_client_input, handle_client_disconnect}
use snake_multiplayer.Base.Map.{contains, int_key}
use snake_multiplayer.Engine.State.{min_food_in_arena}
use snake_multiplayer.Engine.Tick.{advance}
use snake_multiplayer.MessageLog.{log}
use snake_multiplayer.MessageLog.Replay.{logged}
use snake_multiplayer.Engine.State.{Game, Draw}
use snake_multiplayer.Server.State.{
  SnakeServer, until_nul, new_header, build_game_state, stamp_message,
}
use snake_multiplayer.Server.Handle.{
  color_of, is_client, record_message, send_to_client, broadcast_game_state, handle_client_join,
  dispatch, handle_message, handle_messages, run_once,
}
use snake_multiplayer.Server.Stamps.{Recorded, Recorded-refl, Recorded-trans, bound}

-- The records of the messages of a batch: each message, and a welcome behind each join.
abbrev pub records : List MessageVariant → List MessageVariant
records [] = []
records (client_join m ∷ ms) =
    client_join m
    ∷ server_welcome (record { hdr = new_header MessageType.server_welcome m.hdr.client_id })
    ∷ records ms
records (m ∷ ms) = m ∷ records ms

-- Whether a client comes or goes.
abbrev pub has_news : List MessageVariant → Bool
has_news [] = false
has_news (client_join m ∷ ms) = true
has_news (client_disconnect m ∷ ms) = true
has_news (m ∷ ms) = has_news ms

records_cons :
    (m : MessageVariant) (ms : List MessageVariant)
    → records (m ∷ ms) ≡ records (m ∷ []) ++ records ms
records_cons (client_join m) ms = refl
records_cons (client_input m) ms = refl
records_cons (client_disconnect m) ms = refl
records_cons (server_config m) ms = refl
records_cons (server_welcome m) ms = refl
records_cons (game_state m) ms = refl

has_news_cons :
    (m : MessageVariant) (ms : List MessageVariant)
    → has_news (m ∷ ms) ≡ (has_news (m ∷ []) || has_news ms)
has_news_cons (client_join m) ms = refl
has_news_cons (client_input m) ms = refl
has_news_cons (client_disconnect m) ms = refl
has_news_cons (server_config m) ms = refl
has_news_cons (server_welcome m) ms = refl
has_news_cons (game_state m) ms = refl

or_turn : (a b c : Bool) → (a || (b || c)) ≡ ((b || a) || c)
or_turn true true c = refl
or_turn true false c = refl
or_turn false true c = refl
or_turn false false c = refl

or_false : (a : Bool) → (a || false) ≡ a
or_false true = refl
or_false false = refl

module _ {G : Type 0} where
  -- What two servers have of the log between them.
  abbrev pub Logs : ℤ → List MessageVariant → SnakeServer G → SnakeServer G → Type 0
  Logs tick ms s s' =
      Recorded tick ms s.message_log s.current_sequence s'.message_log s'.current_sequence

  Logs-trans :
      (tick : ℤ) (ms ns : List MessageVariant) (a b c : SnakeServer G)
      → Logs tick ms a b
      → Logs tick ns b c
      → Logs tick (ms ++ ns) a c
  Logs-trans tick ms ns a b c r s = Recorded-trans tick ms ns _ _ _ _ _ _ r s

  record_message-Logs :
      (s : SnakeServer G) (msg : MessageVariant)
      → Logs s.game.current_tick (msg ∷ []) s (record_message s msg)
  unfolding record_message stamp_message
  record_message-Logs s msg = record { written = refl; next = refl }

  -- What was done of a batch: the records, at one time, and whether there is news.
  abbrev Handles : SnakeServer G → List MessageVariant → Bool → SnakeServer G × Bool → Type 0
  Handles s ms news r =
      Logs s.game.current_tick ms s r.0
      × (r.0.game.current_tick ≡ s.game.current_tick)
      × (r.1 ≡ news)

  -- A client that is there is sent the bytes.
  send_to_client-same :
      (s s' : SnakeServer G) (id : ℤ) (bytes : List ℕ)
      → send_to_client s id bytes ≡ ok s'
      → (s'.message_log ≡ s.message_log)
        × (s'.current_sequence ≡ s.current_sequence)
        × (s'.game ≡ s.game)
  unfolding send_to_client
  send_to_client-same s s' id bytes e = elim (Bool-cases (is_client id s.client_ids)) [
    | inl here ↦
        subst
          (λ (x : SnakeServer G).
            (x.message_log ≡ s.message_log)
            × (x.current_sequence ≡ s.current_sequence)
            × (x.game ≡ s.game))
          (ok_inj _ s' (simp here at e)) (refl, refl, refl)
    | inr gone ↦ cc (simp gone at e)
  ]

  -- The welcome, which is not sent in a replay.
  send_or_not :
      (noted s' : SnakeServer G) (id : ℤ) (bytes : List ℕ) (quiet : Bool)
      → (if quiet then ok noted else send_to_client noted id bytes) ≡ ok s'
      → (s'.message_log ≡ noted.message_log)
        × (s'.current_sequence ≡ noted.current_sequence)
        × (s'.game ≡ noted.game)
  send_or_not noted s' id bytes true e =
      subst
        (λ (x : SnakeServer G).
          (x.message_log ≡ noted.message_log)
          × (x.current_sequence ≡ noted.current_sequence)
          × (x.game ≡ noted.game))
        (ok_inj noted s' e) (refl, refl, refl)
  send_or_not noted s' id bytes false e = send_to_client-same noted s' id bytes e

  -- The record of the state that a round ends with, where it is broadcast.
  abbrev pub closing : Bool → Game G → List MessageVariant
  closing true g = game_state (build_game_state g) ∷ []
  closing false g = []

  -- The log after a round: the messages that were handled, with the welcomes, at the time at which the
  -- round began, and then the state that it ends with: if a client came or left, or if `moved`.
  pub record RoundRecorded (s s' : SnakeServer G) (messages : List MessageVariant) : Type 0 where
    pub between : List ℕ × ℤ
    pub handled :
        Recorded s.game.current_tick
          (records messages)
          s.message_log
          s.current_sequence
          between.0
          between.1
    pub moved : Bool
    pub closed :
        Recorded s'.game.current_tick
          (closing (moved || has_news messages) s'.game)
          between.0
          between.1
          s'.message_log
          s'.current_sequence

module _ {G : Type 0} (draw : Draw G) where
  handle_client_join-Logs :
      (s s' : SnakeServer G) (msg : ClientJoin)
      → handle_client_join draw s msg ≡ ok s'
      → Logs s.game.current_tick
          (server_welcome (record { hdr = new_header MessageType.server_welcome msg.hdr.client_id })
            ∷ [])
          s
          s'
        × (s'.game.current_tick ≡ s.game.current_tick)
  unfolding handle_client_join create_new_player record_message
  handle_client_join-Logs s s' msg e =
      let id = msg.hdr.client_id in
      let joined : SnakeServer G = record s {
        game = create_new_player draw s.game id (color_of id) (until_nul msg.username);
      } in
      let welcome = server_welcome (record { hdr = new_header MessageType.server_welcome id }) in
      let (l, n, g) =
        send_or_not (record_message joined welcome) s' id (serialise (stamp_message joined welcome))
          s.in_replay e in
      let noted = record_message-Logs joined welcome in
      (
        record { written = l ∙ noted.written; next = n ∙ noted.next },
        ap (λ (x : Game G). x.current_tick) g,
      )

  finish :
      (s : SnakeServer G) (ms : List MessageVariant) (news : Bool) (r q : SnakeServer G × Bool)
      → Handles s ms news r
      → ◌≡◌ {A = Result (SnakeServer G × Bool)} (ok r) (ok q)
      → Handles s ms news q
  finish s ms news r q v e =
      subst (λ (x : SnakeServer G × Bool). Handles s ms news x) (ok_inj _ _ e) v

  same_tick_input :
      (g : Game G) (id : ℤ) (key : ℕ) → (handle_client_input g id key).current_tick ≡ g.current_tick
  unfolding handle_client_input
  same_tick_input g id key = elim (Bool-cases (contains id g.players)) [
    | inl here ↦ rw here refl
    | inr away ↦ rw away refl
  ]

  same_tick_disconnect :
      (g : Game G) (id : ℤ) → (handle_client_disconnect g id).current_tick ≡ g.current_tick
  unfolding handle_client_disconnect
  same_tick_disconnect g id = elim (Bool-cases (contains id g.players)) [
    | inl here ↦ rw here refl
    | inr away ↦ rw away refl
  ]

  same_tick_food :
      (fuel : ℕ) (g g' : Game G)
      → replace_food draw fuel g ≡ ok g'
      → g'.current_tick ≡ g.current_tick
  unfolding replace_food place_food place_food_at
  same_tick_food zero g g' e = elim (Bool-cases (ltb (length g.food) min_food_in_arena)) [
    | inl few ↦ cc (rw few at e)
    | inr full ↦ ap (λ (x : Game G). x.current_tick) (sym (ok_inj g g' (rw full at e)))
  ]
  same_tick_food (suc fuel) g g' e = elim (Bool-cases (ltb (length g.food) min_food_in_arena)) [
    | inl few ↦ same_tick_food fuel (place_food draw g) g' (rw few at e)
    | inr full ↦ ap (λ (x : Game G). x.current_tick) (sym (ok_inj g g' (rw full at e)))
  ]

  -- A message of the batch, with its own record first.
  handle_message-Handles :
      (s : SnakeServer G) (msg : MessageVariant) (q : SnakeServer G × Bool)
      → handle_message draw s msg ≡ ok q
      → Handles s (records (msg ∷ [])) (has_news (msg ∷ [])) q
  unfolding handle_message dispatch record_message stamp_message with_header header
  handle_message-Handles s (client_join m) q e =
      let noted = record_message s (client_join m) in
      let hdr : Header = record m.hdr {
        sequence = s.current_sequence;
        transact_time = s.game.current_tick;
      } in
      let (t, x, y) = bound (handle_client_join draw noted (record m { hdr = hdr })) _ q e in
      let (logs, tick) = handle_client_join-Logs noted t (record m { hdr = hdr }) x in
      finish s _ true (t, true) q
        (
          Logs-trans s.game.current_tick (client_join m ∷ []) _ s noted t
              (record_message-Logs s (client_join m)) logs,
          tick,
          refl,
        )
        y
  handle_message-Handles s (client_input m) q e =
      finish s _ false _ q
        (
          record_message-Logs s (client_input m),
          same_tick_input s.game m.hdr.client_id m.input,
          refl,
        )
        e
  handle_message-Handles s (client_disconnect m) q e =
      finish s _ true _ q
        (
          record_message-Logs s (client_disconnect m),
          same_tick_disconnect s.game m.hdr.client_id,
          refl,
        )
        e
  handle_message-Handles s (server_config m) q e =
      finish s _ false _ q (record_message-Logs s (server_config m), refl, refl) e
  handle_message-Handles s (server_welcome m) q e =
      finish s _ false _ q (record_message-Logs s (server_welcome m), refl, refl) e
  handle_message-Handles s (game_state m) q e =
      finish s _ false _ q (record_message-Logs s (game_state m), refl, refl) e

  handle_messages-Handles :
      (ms : List MessageVariant) (s : SnakeServer G) (changed : Bool) (q : SnakeServer G × Bool)
      → handle_messages draw s ms changed ≡ ok q
      → Handles s (records ms) (has_news ms || changed) q
  unfolding handle_messages
  handle_messages-Handles [] s changed q e =
      finish s [] changed (s, changed) q (Recorded-refl _ _ _, refl, refl) e
  handle_messages-Handles (m ∷ ms) s changed q e =
      let ((t, c), x, y) = bound (handle_message draw s m) _ q e in
      let (logs, tick, news) = handle_message-Handles s m (t, c) x in
      let (later, tick', news') = handle_messages-Handles ms t (c || changed) q y in
      (
        subst (λ rs. Logs s.game.current_tick rs s q.0) (sym (records_cons m ms))
            (Logs-trans s.game.current_tick (records (m ∷ [])) (records ms) s t q.0 logs
              (subst (λ k. Logs k (records ms) t q.0) tick later)),
        tick' ∙ tick,
        news'
            ∙ ap (λ n. has_news ms || (n || changed)) news
            ∙ or_turn (has_news ms) (has_news (m ∷ [])) changed
            ∙ ap (λ n. n || changed) (sym (has_news_cons m ms)),
      )

  -- The end of the round.
  closed_by :
      (t s' : SnakeServer G) (changed : Bool)
      → ◌≡◌ {A = Result (SnakeServer G)}
          (ok (if changed then broadcast_game_state t else t))
          (ok s')
      → Recorded s'.game.current_tick
          (closing changed s'.game)
          t.message_log
          t.current_sequence
          s'.message_log
          s'.current_sequence
  unfolding broadcast_game_state record_message
  closed_by t s' false e =
      subst
        (λ (x : SnakeServer G).
          Recorded x.game.current_tick [] t.message_log t.current_sequence x.message_log
            x.current_sequence)
        (ok_inj t s' e) (Recorded-refl _ _ _)
  closed_by t s' true e =
      subst
        (λ (x : SnakeServer G).
          Recorded x.game.current_tick (closing true x.game) t.message_log t.current_sequence
            x.message_log x.current_sequence)
        (ok_inj _ s' e) (both t.in_replay refl)
    where
      both :
          (quiet : Bool)
          → t.in_replay ≡ quiet
          → Recorded
              (broadcast_game_state t).game.current_tick
              (closing true (broadcast_game_state t).game)
              t.message_log
              t.current_sequence
              (broadcast_game_state t).message_log
              (broadcast_game_state t).current_sequence
      both true q = simp q (record_message-Logs t (game_state (build_game_state t.game)))
      both false q = simp q (record_message-Logs t (game_state (build_game_state t.game)))

  -- Where a round of the loop does not throw, it adds to the message log these records and no others,
  -- in this order: each message of its batch, a join with the SERVER_WELCOME behind it, all stamped
  -- with the tick of the round; and then the GAME_STATE of the game that the round ends with, stamped
  -- with its tick: always where a client joined or left, and otherwise perhaps. The sequence numbers go on from the server's counter
  -- without a gap, and the counter is moved past them.
  pub run_once-Recorded :
      (fuel : ℕ) (s s' : SnakeServer G) (messages : List MessageVariant)
      → run_once draw fuel s messages ≡ ok s'
      → RoundRecorded s s' messages
  unfolding run_once
  run_once-Recorded fuel s s' messages e =
      let (filled, x, e₁) = bound (replace_food draw fuel s.game) _ _ e in
      let start : SnakeServer G = record s { game = filled } in
      let ((t, c), y, e₂) = bound (handle_messages draw start messages false) _ _ e₁ in
      let ((g, d), z, e₃) = bound (advance draw t.game) _ _ e₂ in
      let (logs, tick, news) = handle_messages-Handles messages start false (t, c) y in
      let end : SnakeServer G = record t { game = g } in
      record {
        between = (t.message_log, t.current_sequence);
        handled =
            subst (λ k. Logs k (records messages) s t) (same_tick_food fuel s.game filled x) logs;
        moved = d;
        closed =
            subst
              (λ b.
                Recorded s'.game.current_tick (closing b s'.game) t.message_log t.current_sequence
                  s'.message_log s'.current_sequence)
              (ap (λ n. d || n) (news ∙ or_false (has_news messages)))
              (closed_by end s' (d || c) e₃);
      }
