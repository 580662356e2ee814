-- ===== src/NetworkServer/Poll.antt =====
-- `pollMessages`: what is received on a connection comes out under its id, and nowhere else.
use snake_multiplayer.Base.{◌≡◌, Bool, List, [], ◌∷◌, ok}
use snake_multiplayer.Base.Map.{keys, int_key}
use snake_multiplayer.NetworkServer.{NetworkServer, Event, Messages, poll_event}
use snake_multiplayer.NetworkServer.Feed.{IsEvents, registers, IsPolled}

-- An event, and the descriptors that are open behind it.
abbrev Polled : NetworkServer → Event → List Event → Type 0
Polled s e es =
    (s' : NetworkServer) × (ms : Messages) × (poll_event s e ≡ ok (s', ms))
    × IsPolled s (e ∷ []) s' ms
    × IsEvents (keys s'.fd_to_client_id) es

-- Whether an event is anything but an accepted descriptor that cannot be registered.
abbrev is_registered : Event → Bool
is_registered e = registers (e ∷ [])
