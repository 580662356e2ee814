-- ===== src/Server/Total.antt =====
-- When a round of the loop does not throw.
use snake_multiplayer.Base.{
  ℕ, ◌≤◌, ◌≡◌, refl, ap, sym, ◌∙◌, ◌⊎◌, inl, inr, Bool, true, false, ◌||◌, List, [], ◌∷◌, All,
  if◌then◌else◌, Bool-cases, ok,
}
use snake_multiplayer.Base.Int.{ℤ}
use snake_multiplayer.Protocol.Types.{
  ClientJoin, MessageVariant, header, with_header, server_config, client_input, client_disconnect,
  server_welcome, client_join, game_state,
}
use snake_multiplayer.Protocol.Types.MessageType
use snake_multiplayer.Protocol.Write.{serialise}
use snake_multiplayer.Engine.State.{Game, Draw}
use snake_multiplayer.Engine.Food.{create_new_player, replace_food}
use snake_multiplayer.Engine.Update.{IsReady}
use snake_multiplayer.Engine.Tick.{advance-IsReady}
use snake_multiplayer.Engine.Reach.{
  InRange, create_new_player-IsReady, handle_client_input-IsReady, handle_client_disconnect-IsReady,
  replace_food-IsReady,
}
use snake_multiplayer.Server.State.{SnakeServer, to_client, until_nul, new_header, stamp_message}
use snake_multiplayer.Server.Handle.{
  color_of, is_client, record_message, send_to_client, broadcast_game_state, handle_client_join,
  dispatch, handle_message, handle_messages, run_once,
}
use snake_multiplayer.Server.Replay.{then_ok}

module _ {G : Type 0} where
  -- The sender of a message can be answered: it has a connection, or no answer is sent.
  abbrev pub Heard : SnakeServer G → MessageVariant → Type 0
  Heard s m = (s.in_replay ≡ true) ⊎ (is_client (header m).client_id s.client_ids ≡ true)

  -- What no message changes.
  pub record Steady (w h : ℕ) (s t : SnakeServer G) : Type 0 where
    pub mode : t.in_replay ≡ s.in_replay
    pub clients : t.client_ids ≡ s.client_ids
    pub ready : IsReady w h t.game

  Heard-Steady :
      (w h : ℕ) (s t : SnakeServer G) (m : MessageVariant) → Steady w h s t → Heard s m → Heard t m
  Heard-Steady w h s t m v (inl e) = inl (v.mode ∙ e)
  Heard-Steady w h s t m v (inr e) = inr (ap (is_client (header m).client_id) v.clients ∙ e)

  All-Heard :
      (w h : ℕ) (s t : SnakeServer G) (ms : List MessageVariant)
      → Steady w h s t
      → All (Heard s) ms
      → All (Heard t) ms
  All-Heard w h s t [] v x = tt
  All-Heard w h s t (m ∷ ms) v x = (Heard-Steady w h s t m v x.0, All-Heard w h s t ms v x.1)

  welcome_sent :
      (w h : ℕ) (noted : SnakeServer G) (id : ℤ) (bytes : List ℕ) (quiet : Bool)
      → (quiet ≡ true) ⊎ (is_client id noted.client_ids ≡ true)
      → IsReady w h noted.game
      → (t : SnakeServer G) × ((if quiet then ok noted else send_to_client noted id bytes) ≡ ok t)
        × Steady w h noted t
  unfolding send_to_client
  welcome_sent w h noted id bytes true x v =
      (noted, refl, record { mode = refl; clients = refl; ready = v })
  welcome_sent w h noted id bytes false (inl e) v = cc e
  welcome_sent w h noted id bytes false (inr e) v = (
    record noted { sent = to_client id bytes ∷ noted.sent },
    simp e refl,
    record { mode = refl; clients = refl; ready = v },
  )

  broadcast-Steady :
      (w h : ℕ) (s : SnakeServer G) → IsReady w h s.game → Steady w h s (broadcast_game_state s)
  unfolding broadcast_game_state record_message
  broadcast-Steady w h s v = elim (Bool-cases s.in_replay) [
    | inl quiet ↦ simp quiet (record { mode = sym quiet; clients = refl; ready = v })
    | inr live ↦ simp live (record { mode = sym live; clients = refl; ready = v })
  ]

module _ (w h : ℕ) {G : Type 0} (draw : Draw G) (r : InRange draw) (wide : 12 ≤ w)
    (high : 12 ≤ h) where
  handle_client_join-Steady :
      (s : SnakeServer G) (m : ClientJoin)
      → Heard s (client_join m)
      → IsReady w h s.game
      → (t : SnakeServer G) × (handle_client_join draw s m ≡ ok t) × Steady w h s t
  unfolding handle_client_join record_message header
  handle_client_join-Steady s m x v =
      let id = m.hdr.client_id in
      let joined : SnakeServer G = record s {
        game = create_new_player draw s.game id (color_of id) (until_nul m.username);
      } in
      let welcome = server_welcome (record { hdr = new_header MessageType.server_welcome id }) in
      let (t, e, y) =
        welcome_sent w h (record_message joined welcome) id
          (serialise (stamp_message joined welcome)) s.in_replay x
          (create_new_player-IsReady w h draw s.game id (color_of id) (until_nul m.username) r wide
            high v) in
      (t, e, record { mode = y.mode; clients = y.clients; ready = y.ready })

  handle_message-Steady :
      (s : SnakeServer G) (m : MessageVariant)
      → Heard s m
      → IsReady w h s.game
      → (t : SnakeServer G) × (b : Bool) × (handle_message draw s m ≡ ok (t, b)) × Steady w h s t
  unfolding handle_message dispatch stamp_message with_header header record_message
  handle_message-Steady s (client_join m) x v =
      let stamped : ClientJoin = record m {
        hdr = record m.hdr { sequence = s.current_sequence; transact_time = s.game.current_tick };
      } in
      let (t, e, y) = handle_client_join-Steady (record_message s (client_join m)) stamped x v in
      (t, true, then_ok _ _ e refl, record { mode = y.mode; clients = y.clients; ready = y.ready })
  handle_message-Steady s (client_input m) x v = (
    _,
    false,
    refl,
    record { mode = refl; clients = refl; ready = handle_client_input-IsReady w h s.game _ _ v },
  )
  handle_message-Steady s (client_disconnect m) x v = (
    _,
    true,
    refl,
    record { mode = refl; clients = refl; ready = handle_client_disconnect-IsReady w h s.game _ v },
  )
  handle_message-Steady s (server_config m) x v =
      (_, false, refl, record { mode = refl; clients = refl; ready = v })
  handle_message-Steady s (server_welcome m) x v =
      (_, false, refl, record { mode = refl; clients = refl; ready = v })
  handle_message-Steady s (game_state m) x v =
      (_, false, refl, record { mode = refl; clients = refl; ready = v })

  handle_messages-Steady :
      (ms : List MessageVariant) (s : SnakeServer G) (changed : Bool)
      → All (Heard s) ms
      → IsReady w h s.game
      → (t : SnakeServer G) × (b : Bool) × (handle_messages draw s ms changed ≡ ok (t, b))
        × Steady w h s t
  unfolding handle_messages
  handle_messages-Steady [] s changed x v =
      (s, changed, refl, record { mode = refl; clients = refl; ready = v })
  handle_messages-Steady (m ∷ ms) s changed x v =
      let (t, c, e, y) = handle_message-Steady s m x.0 v in
      let (u, b, f, z) =
        handle_messages-Steady ms t (c || changed) (All-Heard w h s t ms y x.1) y.ready in
      (
        u,
        b,
        then_ok _ _ e f,
        record { mode = z.mode ∙ y.mode; clients = z.clients ∙ y.clients; ready = z.ready },
      )

  -- On an arena of at least 12 cells each way, with a generator that stays in the bounds it is given,
  -- from a game that is ready, where `replaceFood` comes to an end, and where the sender of each
  -- message has a connection or the server is in a replay: a round of the loop does not throw, and
  -- the game is ready for the next one.
  pub run_once-Steady :
      (fuel : ℕ) (s : SnakeServer G) (filled : Game G) (messages : List MessageVariant)
      → replace_food draw fuel s.game ≡ ok filled
      → All (Heard s) messages
      → IsReady w h s.game
      → (t : SnakeServer G) × (run_once draw fuel s messages ≡ ok t) × Steady w h s t
  unfolding run_once
  run_once-Steady fuel s filled messages x heard v =
      let start : SnakeServer G = record s { game = filled } in
      let ready = replace_food-IsReady w h draw fuel s.game filled x v in
      let (t, c, y, steady) = handle_messages-Steady messages start false heard ready in
      let (g, d, z, after) = advance-IsReady w h draw t.game steady.ready in
      let (u, e, same) = last t g (d || c) after in
      (
        u,
        then_ok _ _ x (then_ok _ _ y (then_ok _ _ z e)),
        record {
          mode = same.mode ∙ steady.mode;
          clients = same.clients ∙ steady.clients;
          ready = same.ready;
        },
      )
    where
      last :
          (t : SnakeServer G) (g : Game G) (changed : Bool)
          → IsReady w h g
          → (u : SnakeServer G) × (ok (
                if changed
                then broadcast_game_state (record t { game = g })
                else record t { game = g })
              ≡ ok u)
            × Steady w h t u
      last t g true ready =
          let y = broadcast-Steady w h (record t { game = g }) ready in
          (_, refl, record { mode = y.mode; clients = y.clients; ready = y.ready })
      last t g false ready = (_, refl, record { mode = refl; clients = refl; ready = ready })
