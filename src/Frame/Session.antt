-- ===== src/Frame/Session.antt =====
-- A client's messages on their way into the server: `sendToServer`, the server's parser, and the
-- `deserialise` of `SnakeServer::pollMessages` on each frame.
use snake_multiplayer.Base.{
  ℕ, ◌≤◌, ◌≡◌, refl, List, [], ◌∷◌, arith, length, length-append, concat, All, false, Result, ok,
  ◌>>=◌,
}
use snake_multiplayer.Base.Int.{ℤ}
use snake_multiplayer.Protocol.Types.{
  MessageVariant, header, with_header, server_config, client_input, client_disconnect,
  server_welcome, client_join, game_state,
}
use snake_multiplayer.Protocol.Valid.{IsMessage}
use snake_multiplayer.Protocol.Write.{serialise, serialise_header}
use snake_multiplayer.Protocol.Read.{deserialise_from}
use snake_multiplayer.Protocol.Layout.{
  length-serialise_header, client_join_layout, client_input_layout,
}
use snake_multiplayer.Protocol.RoundTrip.{deserialise_from-serialise}
use snake_multiplayer.Frame.{server_recv_max_message_size}
use snake_multiplayer.Frame.Stream.{stream, receive, receive-stream}

-- The loop over the frames of one connection.
unfoldable pub deserialise_all : ℤ → List (List ℕ) → Result (List MessageVariant)
deserialise_all client_id [] = ok []
deserialise_all client_id (f ∷ fs) = do
  m ← deserialise_from f client_id
  ms ← deserialise_all client_id fs
  ok (m ∷ ms)

-- What a client sends.
abbrev pub IsClientMessage : MessageVariant → Type 0
IsClientMessage (client_input m) = IsMessage (client_input m)
IsClientMessage (client_join m) = IsMessage (client_join m)
IsClientMessage (server_config m) = ⊥
IsClientMessage (client_disconnect m) = ⊥
IsClientMessage (server_welcome m) = ⊥
IsClientMessage (game_state m) = ⊥

abbrev pub serialised : List MessageVariant → List (List ℕ)
serialised [] = []
serialised (m ∷ ms) = serialise m ∷ serialised ms

-- The messages with the id of the connection in the header.
abbrev pub from_client : ℤ → List MessageVariant → List MessageVariant
from_client id [] = []
from_client id (m ∷ ms) = with_header m (record (header m) { client_id = id }) ∷ from_client id ms

IsClientMessage→IsMessage : (m : MessageVariant) → IsClientMessage m → IsMessage m
IsClientMessage→IsMessage (client_input m) v = v
IsClientMessage→IsMessage (client_join m) v = v
IsClientMessage→IsMessage (server_config m) v = absurd v
IsClientMessage→IsMessage (client_disconnect m) v = absurd v
IsClientMessage→IsMessage (server_welcome m) v = absurd v
IsClientMessage→IsMessage (game_state m) v = absurd v

client_message_fits :
    (m : MessageVariant) → IsClientMessage m → length (serialise m) ≤ server_recv_max_message_size
unfolding serialise
client_message_fits (client_input m) v = rw (client_input_layout m) (
    omega
      (arith, length-append (serialise_header m.hdr) (m.input ∷ []), length-serialise_header m.hdr))
client_message_fits (client_join m) (v, n) = rw (client_join_layout m n) (
    omega (arith, length-append (serialise_header m.hdr) m.username, length-serialise_header m.hdr))
client_message_fits (server_config m) v = absurd v
client_message_fits (client_disconnect m) v = absurd v
client_message_fits (server_welcome m) v = absurd v
client_message_fits (game_state m) v = absurd v

serialised_fit :
    (ms : List MessageVariant)
    → All IsClientMessage ms
    → All (λ b. length b ≤ server_recv_max_message_size) (serialised ms)
serialised_fit [] v = tt
serialised_fit (m ∷ ms) (v, vs) = (client_message_fits m v, serialised_fit ms vs)

deserialise_all-serialised :
    (id : ℤ) (ms : List MessageVariant)
    → All IsClientMessage ms
    → deserialise_all id (serialised ms) ≡ ok (from_client id ms)
unfolding deserialise_all
deserialise_all-serialised id [] v = refl
deserialise_all-serialised id (m ∷ ms) (v, vs) =
    rw (deserialise_from-serialise m id (IsClientMessage→IsMessage m v))
      (rw (deserialise_all-serialised id ms vs))

-- However TCP cuts what a client sends, the server's parser takes none of its joins and inputs for
-- too long, and gets each of them, in order, with the id of the connection in its header.
pub deserialise_all-receive :
    (id : ℤ) (ms : List MessageVariant) (chunks : List (List ℕ))
    → All IsClientMessage ms
    → concat chunks ≡ stream (serialised ms)
    → ((receive server_recv_max_message_size [] chunks).oversized ≡ false)
      × (deserialise_all id (receive server_recv_max_message_size [] chunks).frames
          ≡ ok (from_client id ms))
deserialise_all-receive id ms chunks v e =
    let r =
      receive-stream server_recv_max_message_size (serialised ms) chunks (omega arith)
        (serialised_fit ms v) e in
    (rw r, rw r (deserialise_all-serialised id ms v))
