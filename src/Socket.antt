-- ===== src/Socket.antt =====
-- What the system calls on a socket return, as src/snake_server/NetworkServer.cpp and
-- src/snake_client/NetworkClient.cpp tell the results apart.
use snake_multiplayer.Base.{ℕ, List}

-- What `recv` returns: EAGAIN or EWOULDBLOCK, another error, 0, or bytes.
pub data Received : Type 0 where
  would_block recv_failed closed : Received
  received : List ℕ → Received

-- What `send` returns: the number of bytes taken, or -1.
pub data Sent : Type 0 where
  taken : ℕ → Sent
  send_failed : Sent
