-- ===== src/Server/Replay.antt =====
-- A round of the loop in a replay against the same round when it was live.
use snake_multiplayer.Base.{
  ok_inj, ℕ, ◌≡◌, refl, ap, sym, ◌∙◌, inl, inr, Bool, true, false, ◌||◌, List, [], ◌∷◌,
  if◌then◌else◌, Bool-cases, Result, ok, ◌>>=◌,
}
use snake_multiplayer.Base.Int.{ℤ}
use snake_multiplayer.Protocol.Types.{
  ClientJoin, MessageVariant, server_config, client_input, client_disconnect, server_welcome,
  client_join, game_state,
}
use snake_multiplayer.Protocol.Types.MessageType
use snake_multiplayer.Protocol.Write.{serialise}
use snake_multiplayer.Engine.State.{Game, Draw}
use snake_multiplayer.Engine.Food.{create_new_player, replace_food}
use snake_multiplayer.Engine.Tick.{advance}
use snake_multiplayer.Server.State.{
  SnakeServer, to_all, build_game_state, until_nul, new_header, stamp_message,
}
use snake_multiplayer.Server.Handle.{
  color_of, is_client, record_message, send_to_client, broadcast_game_state, handle_client_join,
  dispatch, handle_message, handle_messages, run_once,
}
use snake_multiplayer.Server.Stamps.{bound}

-- The same server in a replay, which has sent nothing.
abbrev pub in_silence : {G : Type 0} → SnakeServer G → SnakeServer G
in_silence s = record s { in_replay = true; sent = [] }

module _ {G : Type 0} where
  record_message-in_silence :
      (s : SnakeServer G) (msg : MessageVariant)
      → record_message (in_silence s) msg ≡ in_silence (record_message s msg)
  unfolding record_message stamp_message
  record_message-in_silence s msg = refl

  send_to_client-in_silence :
      (s s' : SnakeServer G) (id : ℤ) (bytes : List ℕ)
      → send_to_client s id bytes ≡ ok s'
      → in_silence s' ≡ in_silence s
  unfolding send_to_client
  send_to_client-in_silence s s' id bytes e = elim (Bool-cases (is_client id s.client_ids)) [
    | inl here ↦ ap in_silence (sym (ok_inj _ s' (simp here at e)))
    | inr gone ↦ cc (simp gone at e)
  ]

  broadcast_game_state-in_silence :
      (s : SnakeServer G)
      → broadcast_game_state (in_silence s) ≡ in_silence (broadcast_game_state s)
  unfolding broadcast_game_state record_message stamp_message
  broadcast_game_state-in_silence s = go s.in_replay
    where
      noted : SnakeServer G
      noted = record_message s (game_state (build_game_state s.game))

      go :
          (quiet : Bool)
          → in_silence noted
            ≡ in_silence (
                if quiet then noted else record noted {
                  sent =
                      to_all (serialise (stamp_message s (game_state (build_game_state s.game))))
                      ∷ noted.sent;
                })
      go true = refl
      go false = refl

  -- The welcome of a join, sent or not.
  send_or_not-in_silence :
      (noted s' : SnakeServer G) (id : ℤ) (bytes : List ℕ) (quiet : Bool)
      → (if quiet then ok noted else send_to_client noted id bytes) ≡ ok s'
      → in_silence s' ≡ in_silence noted
  send_or_not-in_silence noted s' id bytes true e = ap in_silence (sym (ok_inj noted s' e))
  send_or_not-in_silence noted s' id bytes false e = send_to_client-in_silence noted s' id bytes e

pub then_ok :
    {A B : Type 0} (r : Result A) (next : A → Result B) {a : A} {b : B}
    → r ≡ ok a
    → next a ≡ ok b
    → (r >>= next) ≡ ok b
then_ok r next e f = rw e f

both :
    {G : Type 0} (t s' : SnakeServer G) (c b : Bool)
    → ◌≡◌ {A = Result (SnakeServer G × Bool)} (ok (t, c)) (ok (s', b))
    → ◌≡◌ {A = Result (SnakeServer G × Bool)} (ok (in_silence t, c)) (ok (in_silence s', b))
both {G} t s' c b e = ap (λ (x : SnakeServer G × Bool). ok (in_silence x.0, x.1)) (ok_inj _ _ e)

module _ {G : Type 0} (draw : Draw G) where
  handle_client_join-in_silence :
      (s s' : SnakeServer G) (msg : ClientJoin)
      → handle_client_join draw s msg ≡ ok s'
      → handle_client_join draw (in_silence s) msg ≡ ok (in_silence s')
  unfolding handle_client_join record_message stamp_message
  handle_client_join-in_silence s s' msg e =
      let id = msg.hdr.client_id in
      let joined : SnakeServer G = record s {
        game = create_new_player draw s.game id (color_of id) (until_nul msg.username);
      } in
      let welcome = server_welcome (record { hdr = new_header MessageType.server_welcome id }) in
      ap (λ (x : SnakeServer G). ok x)
        (sym (send_or_not-in_silence (record_message joined welcome) s' id _ s.in_replay e))

  dispatch-in_silence :
      (s s' : SnakeServer G) (msg : MessageVariant) (b : Bool)
      → dispatch draw s msg ≡ ok (s', b)
      → dispatch draw (in_silence s) msg ≡ ok (in_silence s', b)
  unfolding dispatch
  dispatch-in_silence s s' (client_join m) b e =
      let (t, x, y) = bound (handle_client_join draw s m) _ _ e in
      rw (handle_client_join-in_silence s t m x) (both t s' true b y)
  dispatch-in_silence s s' (client_input m) b e = both _ s' false b e
  dispatch-in_silence s s' (client_disconnect m) b e = both _ s' true b e
  dispatch-in_silence s s' (server_config m) b e = both s s' false b e
  dispatch-in_silence s s' (server_welcome m) b e = both s s' false b e
  dispatch-in_silence s s' (game_state m) b e = both s s' false b e

  handle_message-in_silence :
      (s s' : SnakeServer G) (msg : MessageVariant) (b : Bool)
      → handle_message draw s msg ≡ ok (s', b)
      → handle_message draw (in_silence s) msg ≡ ok (in_silence s', b)
  unfolding handle_message record_message stamp_message
  handle_message-in_silence s s' msg b e =
      dispatch-in_silence (record_message s msg) s' (stamp_message s msg) b e

  handle_messages-in_silence :
      (ms : List MessageVariant) (s s' : SnakeServer G) (changed b : Bool)
      → handle_messages draw s ms changed ≡ ok (s', b)
      → handle_messages draw (in_silence s) ms changed ≡ ok (in_silence s', b)
  unfolding handle_messages
  handle_messages-in_silence [] s s' changed b e = both s s' changed b e
  handle_messages-in_silence (m ∷ ms) s s' changed b e =
      let ((t, c), x, y) = bound (handle_message draw s m) _ _ e in
      rw (handle_message-in_silence s t m c x)
        (handle_messages-in_silence ms t s' (c || changed) b y)

  -- The round of the loop that a server went through live, gone through again in a replay from the
  -- same game, counter and log: it does not throw, makes the same game, counter and log, and sends
  -- nothing.
  pub run_once-in_silence :
      (fuel : ℕ) (s s' : SnakeServer G) (messages : List MessageVariant)
      → run_once draw fuel s messages ≡ ok s'
      → run_once draw fuel (in_silence s) messages ≡ ok (in_silence s')
  unfolding run_once
  run_once-in_silence fuel s s' messages e =
      let (filled, x, e₁) = bound (replace_food draw fuel s.game) _ _ e in
      let start : SnakeServer G = record s { game = filled } in
      let ((t, c), y, e₂) = bound (handle_messages draw start messages false) _ _ e₁ in
      let ((g, d), z, e₃) = bound (advance draw t.game) _ _ e₂ in
      then_ok _ _ x (
        then_ok _ _ (handle_messages-in_silence messages start t false c y) (
          then_ok _ _ z
            (last t g (d || c) ∙ ap (λ (r : SnakeServer G). ok (in_silence r)) (ok_inj _ s' e₃))))
    where
      last :
          (t : SnakeServer G) (g : Game G) (changed : Bool)
          → ◌≡◌ {A = Result (SnakeServer G)}
              (ok (
                if changed
                then broadcast_game_state (in_silence (record t { game = g }))
                else in_silence (record t { game = g })))
              (ok (
                in_silence (
                  if changed
                  then broadcast_game_state (record t { game = g })
                  else record t { game = g })))
      last t g true =
          ap (λ (r : SnakeServer G). ok r) (broadcast_game_state-in_silence (record t { game = g }))
      last t g false = refl
