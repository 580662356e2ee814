-- ===== src/NetworkServer.antt =====
-- src/snake_server/NetworkServer.cpp: the connections of the server. What the system calls return is
-- given: what `epoll_wait` reports with the result of the call that answers it, and what `send` says.
pub mod Connected
pub mod Feed
pub mod Poll
pub mod Drain
pub mod Send
mod Tests
use snake_multiplayer.Base.{
  is_empty, ℕ, Bool, true, false, ◌||◌, List, [], ◌∷◌, ◌++◌, Option, none, some, length, ltb,
  if◌then◌else◌, Result, ok, err, ◌>>=◌, or_throw, out_of_range, assertion_failed,
  system_call_failed,
}
use snake_multiplayer.Base.Int.{ℤ, pos, ◌+ℤ◌, ◌==ℤ◌}
use snake_multiplayer.Base.Map.{lookup, contains, erase, assign, int_key}
use snake_multiplayer.Socket.{
  Received, would_block, recv_failed, closed, received, Sent, taken, send_failed,
}
use snake_multiplayer.Frame.{Parsed, frame, server_parse}

-- A set of descriptors is a list without repetitions, in the order of its iteration.
pub record NetworkServer : Type 0 where
  pub next_client_id : ℤ
  pub fd_to_client_id : List (ℤ × ℤ)
  pub client_id_to_fd : List (ℤ × ℤ)
  pub fd_to_buffer : List (ℤ × List ℕ)
  pub fds_to_disconnect : List ℤ

-- The constructor.
abbrev pub opened : NetworkServer
opened = record {
  next_client_id = pos 1;
  fd_to_client_id = [];
  client_id_to_fd = [];
  fd_to_buffer = [];
  fds_to_disconnect = [];
}

-- An event of `epoll_wait`: on the server's own descriptor, with what `accept`, `fcntl` and
-- `epoll_ctl` do, or on a client's, with what `recv` returns.
pub data Event : Type 0 where
  accept_failed : Event
  accepted : ℤ → Bool → Event
  readable : ℤ → Received → Event

abbrev pub is_member : ℤ → List ℤ → Bool
is_member fd [] = false
is_member fd (x ∷ xs) = let rest = is_member fd xs in if x ==ℤ fd then true else rest

-- `insert` into the set.
abbrev pub insert : ℤ → List ℤ → List ℤ
insert fd xs = if is_member fd xs then xs else fd ∷ xs

unfoldable pub doom : ℤ → NetworkServer → NetworkServer
doom fd s = record s { fds_to_disconnect = insert fd s.fds_to_disconnect }

-- `fdToBufferMap[fd]`, which makes an empty one where there is none.
abbrev pub buffer_or_new : Option (List ℕ) → List ℕ
buffer_or_new none = []
buffer_or_new (some buffer) = buffer

unfoldable pub parse_received_packet : NetworkServer → ℤ → List ℕ → NetworkServer × List (List ℕ)
parse_received_packet s fd input =
    let p = server_parse (buffer_or_new (lookup fd s.fd_to_buffer)) input in
    let kept : NetworkServer = record s { fd_to_buffer = assign fd p.buffer s.fd_to_buffer } in
    (if p.oversized then doom fd kept else kept, p.frames)

unfoldable pub receive_from_client : NetworkServer → ℤ → Received → NetworkServer × List (List ℕ)
receive_from_client s fd would_block = (s, [])
receive_from_client s fd recv_failed = (doom fd s, [])
receive_from_client s fd closed = (doom fd s, [])
receive_from_client s fd (received input) = parse_received_packet s fd input

-- The end of `acceptNewClient`.
unfoldable pub add_client : NetworkServer → ℤ → NetworkServer
add_client s fd = record {
  next_client_id = s.next_client_id +ℤ pos 1;
  fd_to_client_id = assign fd s.next_client_id s.fd_to_client_id;
  client_id_to_fd = assign s.next_client_id fd s.client_id_to_fd;
  fd_to_buffer = assign fd [] s.fd_to_buffer;
  fds_to_disconnect = s.fds_to_disconnect;
}

abbrev pub Messages : Type 0
Messages = List (ℤ × List ℕ)

-- The inner loop of `pollMessages`.
unfoldable pub tag : NetworkServer → ℤ → List (List ℕ) → Result Messages
tag s fd [] = ok []
tag s fd (bytes ∷ frames) = do
  client_id ← or_throw (lookup fd s.fd_to_client_id) out_of_range
  rest ← tag s fd frames
  ok ((client_id, bytes) ∷ rest)

unfoldable pub poll_event : NetworkServer → Event → Result (NetworkServer × Messages)
poll_event s accept_failed = ok (s, [])
poll_event s (accepted fd true) = ok (add_client s fd, [])
poll_event s (accepted fd false) = err system_call_failed
poll_event s (readable fd what) =
    let r = receive_from_client s fd what in do messages ← tag r.0 fd r.1; ok (r.0, messages)

unfoldable pub poll_events : NetworkServer → List Event → Result (NetworkServer × Messages)
poll_events s [] = ok (s, [])
poll_events s (e ∷ es) = do r ← poll_event s e; q ← poll_events r.0 es; ok (q.0, r.1 ++ q.1)

unfoldable pub poll_messages : NetworkServer → List Event → Result (NetworkServer × Messages)
poll_messages s events =
    let polled = poll_events s events in
    if is_empty s.fds_to_disconnect then polled else err assertion_failed

unfoldable pub disconnect_client : NetworkServer → ℤ → Result NetworkServer
disconnect_client s fd = do
  client_id ← or_throw (lookup fd s.fd_to_client_id) assertion_failed
  ok (record s {
    client_id_to_fd = erase client_id s.client_id_to_fd;
    fd_to_client_id = erase fd s.fd_to_client_id;
    fd_to_buffer = erase fd s.fd_to_buffer;
  })

unfoldable pub drain : NetworkServer → List ℤ → Result (NetworkServer × List ℤ)
drain s [] = ok (s, [])
drain s (fd ∷ fds) =
    let gone = (do
      client_id ← or_throw (lookup fd s.fd_to_client_id) out_of_range
      s' ← disconnect_client s fd
      r ← drain s' fds
      ok (r.0, client_id ∷ r.1)) in
    let rest = drain s fds in if contains fd s.fd_to_client_id then gone else rest

unfoldable pub drain_disconnects : NetworkServer → Result (NetworkServer × List ℤ)
drain_disconnects s = do
  r ← drain s s.fds_to_disconnect
  ok (record r.0 { fds_to_disconnect = [] }, r.1)

unfoldable pub network_send : NetworkServer → ℤ → List ℕ → Sent → NetworkServer
network_send s fd bytes (taken n) = if ltb n (length (frame bytes)) then doom fd s else s
network_send s fd bytes send_failed = doom fd s

unfoldable pub send_to_client : NetworkServer → ℤ → List ℕ → Sent → Result NetworkServer
send_to_client s client_id bytes sent = do
  fd ← or_throw (lookup client_id s.client_id_to_fd) out_of_range
  ok (network_send s fd bytes sent)

-- `broadcast`, where `sent` says what `send` returns for each descriptor.
unfoldable pub send_each : NetworkServer → List (ℤ × ℤ) → List ℕ → (ℤ → Sent) → NetworkServer
send_each s [] bytes sent = s
send_each s ((fd, client_id) ∷ fds) bytes sent =
    send_each (network_send s fd bytes (sent fd)) fds bytes sent

unfoldable pub broadcast : NetworkServer → List ℕ → (ℤ → Sent) → NetworkServer
broadcast s bytes sent = send_each s s.fd_to_client_id bytes sent
