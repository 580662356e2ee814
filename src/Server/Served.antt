-- ===== src/Server/Served.antt =====
-- The connections from round to round: clients come, send, are answered, and go.
use snake_multiplayer.Base.{
  ℕ, ◌≡◌, ◌⊎◌, ◌∈◌, List, [], ok, err, Result, true, false, system_call_failed,
}
use snake_multiplayer.Base.Int.{ℤ}
use snake_multiplayer.Base.Map.{keys, int_key}
use snake_multiplayer.Protocol.Types.{MessageVariant, client_disconnect}
use snake_multiplayer.Protocol.Types.MessageType
use snake_multiplayer.Socket.{Sent}
use snake_multiplayer.NetworkServer.{opened, NetworkServer, Event, send_to_client, broadcast}
use snake_multiplayer.NetworkServer.Connected.{Connection, IsConnected}
use snake_multiplayer.NetworkServer.Feed.{IsEvents, registers}
use snake_multiplayer.NetworkServer.Send.{IsShort}
use snake_multiplayer.Server.State.{new_header}
use snake_multiplayer.Server.Poll.{poll_live}

-- The message that tells the server that a client is gone.
abbrev pub farewell : ℤ → MessageVariant
farewell id = client_disconnect (record { hdr = new_header MessageType.client_disconnect id })

-- Consistent maps, and nobody to disconnect.
pub record IsIdle (s : NetworkServer) : Type 0 where
  pub connected : IsConnected s
  pub idle : s.fds_to_disconnect ≡ []

-- What `pollMessages` does to the connections.
pub record IsServed (s : NetworkServer) (s' : NetworkServer) (messages : List MessageVariant)
    : Type 0 where
  pub ready : IsIdle s'
  pub told :
      (fd id : ℤ)
      → Connection s fd id
      → Connection s' fd id ⊎ ((farewell id ∈ messages) × ((i : ℤ) → Connection s' fd i → ⊥))

-- What comes of a batch: the connections are served where each accepted descriptor is registered, and
-- otherwise the failed call is thrown.
abbrev pub ServedOutcome :
    NetworkServer → List Event → Result (NetworkServer × List MessageVariant) → Type 0
ServedOutcome s es r =
    ((registers es ≡ true)
      × ((s'' : NetworkServer) × (messages : List MessageVariant) × (r ≡ ok (s'', messages))
          × IsServed s s'' messages))
    ⊎ ((registers es ≡ false) × (r ≡ err system_call_failed))

-- The states of the connections that the loop of `run` comes to, as long as every `send` takes its
-- whole frame.
pub data Served : NetworkServer → Type 0 where
  fresh : Served opened
  polled :
      (s s' : NetworkServer) (es : List Event) (messages : List MessageVariant)
      → IsEvents (keys s.fd_to_client_id) es
      → poll_live s es ≡ ok (s', messages)
      → Served s
      → Served s'
  answered :
      (s s' : NetworkServer) (id : ℤ) (bytes : List ℕ) (r : Sent)
      → (IsShort bytes r → ⊥)
      → send_to_client s id bytes r ≡ ok s'
      → Served s
      → Served s'
  broadcasted :
      (s : NetworkServer) (bytes : List ℕ) (sent : ℤ → Sent)
      → ((fd : ℤ) → IsShort bytes (sent fd) → ⊥)
      → Served s
      → Served (broadcast s bytes sent)
