-- ===== src/Protocol/RoundTrip.antt =====
-- `deserialise` after `serialise`, for every message.
use snake_multiplayer.Base.{
  ℕ, ◌+◌, ◌≡◌, refl, sym, List, [], ◌∷◌, ◌++◌, arith, length, ok, append_assoc, append-nil,
  length-append, drop-append,
}
use snake_multiplayer.Base.Int.{ℤ}
use snake_multiplayer.Protocol.Bytes.Laws.{
  read_raw_bytes-append, read_char_lem, bind_ok, length-i32_bytes, length-i64_bytes,
  length-u32_bytes,
}
use snake_multiplayer.Protocol.Types.{
  Header, ServerConfig, GameState, MessageVariant, server_config, client_input, client_disconnect,
  server_welcome, client_join, game_state, header, with_header,
}
use snake_multiplayer.Protocol.Types.MessageType
use snake_multiplayer.Protocol.Valid.{IsHeaderOf, IsMessage, IsGameState}
use snake_multiplayer.Protocol.Write.{serialise_header, serialise}
use snake_multiplayer.Protocol.Read.{
  read_header, read_body, read_client_join, read_server_config, read_game_state, read_client_input,
  deserialise, deserialise_from,
}
use snake_multiplayer.Protocol.Layout.{
  serialise_header_lem, length-serialise_header, client_join_layout, client_input_layout,
  server_config_layout, game_state_layout, server_config_bytes,
}
use snake_multiplayer.Protocol.Reads.{
  read_header-Reads, read_game_state-Reads, read_server_config-Reads,
}

-- A frame that begins with a serialised header is read by the body of its type.
deserialise_by_body :
    {t : ℤ} (h : Header) (frame body rest : List ℕ) (msg : MessageVariant)
    → IsHeaderOf t h
    → frame ≡ serialise_header h ++ body
    → read_body h frame body ≡ ok (msg, rest)
    → deserialise frame ≡ ok msg
unfolding deserialise
deserialise_by_body h frame body rest msg v e b =
    ground
      (arith, header_read, drop-append 24 (serialise_header h) body (length-serialise_header h), b)
  where
    header_read : read_header frame ≡ ok (h, body)
    header_read = rw (e, serialise_header_lem h) (read_header-Reads h v body)

length-frame :
    (h : Header) (frame body : List ℕ) (n : ℕ)
    → frame ≡ serialise_header h ++ body
    → length body ≡ n
    → length frame ≡ 24 + n
length-frame h frame body n e k =
    rw (e, length-append (serialise_header h) body, length-serialise_header h, k)

-- The `switch`, at each type of message, on a frame of the right size.
module _ (h : Header) (frame body : List ℕ) (msg : MessageVariant) where
  read_body_join :
      IsHeaderOf MessageType.client_join h
      → length frame ≡ 40
      → read_client_join h body ≡ ok (msg, [])
      → read_body h frame body ≡ ok (msg, [])
  unfolding read_body
  read_body_join v n e = simp (v.kind, n) e

  read_body_input :
      IsHeaderOf MessageType.client_input h
      → length frame ≡ 25
      → read_client_input h body ≡ ok (msg, [])
      → read_body h frame body ≡ ok (msg, [])
  unfolding read_body
  read_body_input v n e = simp (v.kind, n) e

  read_body_config :
      IsHeaderOf MessageType.server_config h
      → length frame ≡ 76
      → read_server_config h body ≡ ok (msg, [])
      → read_body h frame body ≡ ok (msg, [])
  unfolding read_body
  read_body_config v n e = simp (v.kind, n) e

  read_body_state :
      {rest : List ℕ}
      → IsHeaderOf MessageType.game_state h
      → read_game_state h body ≡ ok (msg, rest)
      → read_body h frame body ≡ ok (msg, rest)
  unfolding read_body
  read_body_state v e = simp v.kind e

read_body_disconnect :
    (h : Header) (frame body : List ℕ)
    → IsHeaderOf MessageType.client_disconnect h
    → length frame ≡ 24
    → read_body h frame body ≡ ok (client_disconnect (record { hdr = h }), body)
unfolding read_body
read_body_disconnect h frame body v n = ground (arith, v.kind, n)

read_body_welcome :
    (h : Header) (frame body : List ℕ)
    → IsHeaderOf MessageType.server_welcome h
    → length frame ≡ 24
    → read_body h frame body ≡ ok (server_welcome (record { hdr = h }), body)
unfolding read_body
read_body_welcome h frame body v n = ground (arith, v.kind, n)

pub length-server_config_bytes : (m : ServerConfig) → length (server_config_bytes m) ≡ 52
length-server_config_bytes m =
    simp (length-append, length-i32_bytes, length-i64_bytes, length-u32_bytes)

-- A message of any of the six types whose fields fit their C++ types, with the message type that
-- goes with it, comes back from `deserialise` as it was given to `serialise`.
pub deserialise-serialise : (m : MessageVariant) → IsMessage m → deserialise (serialise m) ≡ ok m
unfolding serialise
deserialise-serialise (server_config m) v =
    let e = server_config_layout m in
    let read = rw append-nil at (read_server_config-Reads m v []) in
    deserialise_by_body m.hdr _ _ [] _ v.hdr e (
      read_body_config _ _ _ _ v.hdr (length-frame m.hdr _ _ 52 e (length-server_config_bytes m))
        read)
deserialise-serialise (client_input m) v =
    let e = client_input_layout m in
    deserialise_by_body m.hdr _ (m.input ∷ []) [] (client_input m) v e (
      read_body_input _ _ _ _ v (length-frame m.hdr _ _ 1 e refl)
        (unfold read_client_input in bind_ok _ _ (read_char_lem m.input [])))
deserialise-serialise (client_disconnect m) v =
    let e = sym (append-nil (serialise_header m.hdr)) in
    deserialise_by_body m.hdr _ [] [] _ v e
      (read_body_disconnect m.hdr _ [] v (length-frame m.hdr _ [] 0 e refl))
deserialise-serialise (server_welcome m) v =
    let e = sym (append-nil (serialise_header m.hdr)) in
    deserialise_by_body m.hdr _ [] [] _ v e
      (read_body_welcome m.hdr _ [] v (length-frame m.hdr _ [] 0 e refl))
deserialise-serialise (client_join m) (v, n) =
    let e = client_join_layout m n in
    let read = rw append-nil at (read_raw_bytes-append 16 m.username [] n) in
    deserialise_by_body m.hdr _ m.username [] (client_join m) v e (
      read_body_join _ _ _ _ v (length-frame m.hdr _ _ 16 e n)
        (unfold read_client_join in bind_ok _ _ read))
deserialise-serialise (game_state m) v =
    let read = rw append-nil at (read_game_state-Reads m v []) in
    deserialise_by_body m.hdr _ _ [] _ v.hdr (game_state_layout m)
      (read_body_state _ _ _ _ v.hdr read)

-- A game state is read back also when more bytes follow it in the frame.
deserialise-game_state_trailing :
    (m : GameState) (junk : List ℕ)
    → IsGameState m
    → deserialise (serialise (game_state m) ++ junk) ≡ ok (game_state m)
unfolding serialise
deserialise-game_state_trailing m junk v =
    deserialise_by_body m.hdr _ _ junk _ v.hdr (rw (game_state_layout m, append_assoc) refl)
      (read_body_state _ _ _ _ v.hdr (read_game_state-Reads m v junk))

-- A message that fits comes back from the server's `deserialise` with the id of the connection in
-- place of the one in the frame, and otherwise unchanged.
pub deserialise_from-serialise :
    (m : MessageVariant) (client_id : ℤ)
    → IsMessage m
    → deserialise_from (serialise m) client_id
      ≡ ok (with_header m (record (header m) { client_id = client_id }))
unfolding deserialise_from
deserialise_from-serialise m client_id v = rw (deserialise-serialise m v, deserialise_from)
