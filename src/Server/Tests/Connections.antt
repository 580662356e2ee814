-- ===== src/Server/Tests/Connections.antt =====
-- Two clients come; then one closes, and the other sends a frame and half of another.
use snake_multiplayer.Base.{true, List, [], ◌∷◌}
use snake_multiplayer.Base.Int.{pos}
use snake_multiplayer.Base.Map.{int_key}
use snake_multiplayer.Socket.{received, closed}
use snake_multiplayer.NetworkServer.{NetworkServer, Event, accepted, readable}
use snake_multiplayer.Server.Served.{Served}

abbrev arrivals : List Event
arrivals = accepted (pos 5) true ∷ accepted (pos 6) true ∷ []

abbrev pair : NetworkServer
pair = record {
  next_client_id = pos 3;
  fd_to_client_id = (pos 6, pos 2) ∷ (pos 5, pos 1) ∷ [];
  client_id_to_fd = (pos 2, pos 6) ∷ (pos 1, pos 5) ∷ [];
  fd_to_buffer = (pos 6, []) ∷ (pos 5, []) ∷ [];
  fds_to_disconnect = [];
}

abbrev a_batch : List Event
a_batch = readable (pos 6) closed ∷ readable (pos 5) (received (2 ∷ 0 ∷ [])) ∷ []
