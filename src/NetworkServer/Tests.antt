-- ===== src/NetworkServer/Tests.antt =====
-- Clients 1 and 2 on the descriptors 5 and 6.
use snake_multiplayer.Base.{
  ◌≡◌, refl, inl, ◌⊎◌, ◌∈◌, true, false, system_call_failed, List, [], ◌∷◌, ok, err, arith,
  if◌then◌else◌, assertion_failed,
}
use snake_multiplayer.Base.Int.{ℤ, pos, ◌+ℤ◌, ◌==ℤ◌}
use snake_multiplayer.Base.Map.{lookup, contains, modify, assign, keys, int_key}
use snake_multiplayer.Frame.{frame, parse_loop, parse, server_parse}
use snake_multiplayer.Protocol.Bytes.{u32_bytes, word_bytes, bytes_word}
use snake_multiplayer.Socket.{closed, received, Sent, taken}
use snake_multiplayer.NetworkServer.{
  opened, NetworkServer, Event, accepted, readable, doom, add_client, parse_received_packet,
  receive_from_client, tag, poll_event, poll_events, poll_messages, drain_disconnects, broadcast,
}
use snake_multiplayer.NetworkServer.Connected.{
  IsConnected, doom-IsConnected, add_client-IsConnected,
}
use snake_multiplayer.NetworkServer.Drain.{IsDrained, drain_disconnects-IsDrained}
use snake_multiplayer.NetworkServer.Send.{IsShort, broadcast-IsConnected, broadcast-poll_messages}

abbrev pair : NetworkServer
pair = add_client (add_client opened (pos 5)) (pos 6)

opened-IsConnected : IsConnected opened
unfolding lookup
opened-IsConnected = record {
  forth = λ fd id x. cc;
  back = λ fd id x. cc;
  ids = λ fd id x. cc;
  buffers = λ fd id x. cc;
  orphans = λ fd b x. cc;
  doomed = λ fd x. absurd x;
}

pair-IsConnected : IsConnected pair
unfolding add_client lookup contains assign ◌+ℤ◌
pair-IsConnected =
    add_client-IsConnected (pos 6) (add_client opened (pos 5)) refl
      (add_client-IsConnected (pos 5) opened refl opened-IsConnected)

-- Client 3 comes, client 1 sends a frame of one byte and the beginning of another, and client 2
-- closes.
abbrev a_batch : List Event
a_batch =
    accepted (pos 7) true
    ∷ readable (pos 5) (received (1 ∷ 0 ∷ 0 ∷ 0 ∷ 65 ∷ 2 ∷ 0 ∷ []))
    ∷ readable (pos 6) closed
    ∷ []

poll_messages_run :
    poll_messages pair a_batch
    ≡ ok (
      record {
        next_client_id = pos 4;
        fd_to_client_id = (pos 7, pos 3) ∷ (pos 6, pos 2) ∷ (pos 5, pos 1) ∷ [];
        client_id_to_fd = (pos 3, pos 7) ∷ (pos 2, pos 6) ∷ (pos 1, pos 5) ∷ [];
        fd_to_buffer = (pos 7, []) ∷ (pos 6, []) ∷ (pos 5, 2 ∷ 0 ∷ []) ∷ [];
        fds_to_disconnect = pos 6 ∷ [];
      },
      (pos 1, 65 ∷ []) ∷ [],
    )
unfolding add_client lookup contains modify assign doom parse_received_packet receive_from_client
    tag poll_event poll_events poll_messages parse_loop parse server_parse bytes_word ◌+ℤ◌
poll_messages_run = refl

-- A descriptor that cannot be registered.
refused_run : poll_messages pair (accepted (pos 7) false ∷ []) ≡ err system_call_failed
unfolding poll_event poll_events poll_messages add_client
refused_run = refl

abbrev leaving : NetworkServer
leaving = doom (pos 6) pair

leaving-IsConnected : IsConnected leaving
unfolding add_client lookup contains assign ◌+ℤ◌
leaving-IsConnected = doom-IsConnected (pos 6) (pos 2) pair refl pair-IsConnected

drain_disconnects-IsDrained_example :
    (s' : NetworkServer) × (ids : List ℤ) × (drain_disconnects leaving ≡ ok (s', ids))
    × IsDrained leaving leaving.fds_to_disconnect s' ids
    × IsConnected s'
    × (s'.fds_to_disconnect ≡ [])
drain_disconnects-IsDrained_example = drain_disconnects-IsDrained leaving leaving-IsConnected

-- The client on 6 takes two bytes of a frame of five.
abbrev half : ℤ → Sent
half fd = if fd ==ℤ pos 6 then taken 2 else taken 5

broadcast-IsConnected_example :
    IsConnected (broadcast pair (65 ∷ []) half)
    × ((fd : ℤ)
        → (fd ∈ (broadcast pair (65 ∷ []) half).fds_to_disconnect
            → (fd ∈ pair.fds_to_disconnect)
              ⊎ ((fd ∈ keys pair.fd_to_client_id) × IsShort (65 ∷ []) (half fd)))
          × ((fd ∈ pair.fds_to_disconnect)
                ⊎ ((fd ∈ keys pair.fd_to_client_id) × IsShort (65 ∷ []) (half fd))
              → fd ∈ (broadcast pair (65 ∷ []) half).fds_to_disconnect))
broadcast-IsConnected_example = broadcast-IsConnected pair (65 ∷ []) half pair-IsConnected

broadcast-poll_messages_example :
    poll_messages (broadcast pair (65 ∷ []) half) [] ≡ err assertion_failed
unfolding add_client contains assign frame u32_bytes word_bytes
broadcast-poll_messages_example =
    broadcast-poll_messages pair (65 ∷ []) half (pos 6) [] pair-IsConnected (inl refl) (omega arith)
