-- ===== src/Client/Network.antt =====
-- src/snake_client/NetworkClient.cpp, the connection of a client or a bot: `sendToServer` and
-- `receiveFromServer`, which throw where the server's side only puts the client on a list.
use snake_multiplayer.Base.{
  ℕ, List, [], length, ltb, if◌then◌else◌, Result, ok, err, partial_send, system_call_failed,
  server_disconnected,
}
use snake_multiplayer.Socket.{
  Received, would_block, recv_failed, closed, received, Sent, taken, send_failed,
}
use snake_multiplayer.Frame.{frame, client_parse}

-- What is sent, if `send` takes all of it.
unfoldable pub send_to_server : List ℕ → Sent → Result (List ℕ)
send_to_server bytes (taken n) =
    if ltb n (length (frame bytes)) then err partial_send else ok (frame bytes)
send_to_server bytes send_failed = err system_call_failed

-- The frames, and what stays in `messageBuffer`.
unfoldable pub receive_from_server : List ℕ → Received → Result (List (List ℕ) × List ℕ)
receive_from_server buffer would_block = ok ([], buffer)
receive_from_server buffer recv_failed = err system_call_failed
receive_from_server buffer closed = err server_disconnected
receive_from_server buffer (received input) = client_parse buffer input
