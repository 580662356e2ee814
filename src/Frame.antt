-- ===== src/Frame.antt =====
-- Length-prefixed frames over TCP: `networkSend` and `parseReceivedPacket` of
-- src/snake_server/NetworkServer.cpp, `sendToServer` and `parseReceivedPacket` of
-- src/snake_client/NetworkClient.cpp. The two parsers have the same loop, over another limit, and
-- differ in what they do about a frame that is too long.
pub mod Loop
pub mod Stream
pub mod Session
mod Tests
use snake_multiplayer.Base.{
  ℕ, zero, suc, ◌+◌, ◌%◌, ◌^◌, Bool, true, false, List, [], ◌∷◌, ◌++◌, length, take, drop, ltb,
  if◌then◌else◌, Result, ok, err, oversized_frame,
}
use snake_multiplayer.Protocol.Bytes.{u32_bytes, bytes_word}

abbrev pub server_recv_max_message_size : ℕ
server_recv_max_message_size = 64

abbrev pub client_recv_max_message_size : ℕ
client_recv_max_message_size = 32768

-- What is handed to `send`: the length as a `uint32_t`, and the bytes.
unfoldable pub frame : List ℕ → List ℕ
frame bytes = u32_bytes (length bytes % 2 ^ 32) ++ bytes

-- The frames found, what stays in the buffer, and whether the loop met a length above the limit.
pub record Parsed : Type 0 where
  pub frames : List (List ℕ)
  pub buffer : List ℕ
  pub oversized : Bool

-- The `while` loop. A round takes four bytes at least.
unfoldable pub parse_loop : ℕ → ℕ → List (List ℕ) → List ℕ → Parsed
parse_loop limit zero frames buffer = record { frames = frames; buffer = buffer; oversized = false }
parse_loop limit (suc fuel) frames buffer =
    let len = bytes_word (take 4 buffer) in
    let next =
      parse_loop limit fuel (frames ++ (take len (drop 4 buffer) ∷ [])) (drop (4 + len) buffer) in
    if ltb (length buffer) 4
    then record { frames = frames; buffer = buffer; oversized = false }
    else if ltb limit len
    then record { frames = frames; buffer = buffer; oversized = true }
    else if ltb (length buffer) (4 + len)
    then record { frames = frames; buffer = buffer; oversized = false }
    else next

-- The loop on the buffer with the received bytes at its end.
unfoldable pub parse : ℕ → List ℕ → List ℕ → Parsed
parse limit buffer input = parse_loop limit (length (buffer ++ input)) [] (buffer ++ input)

-- The server's parser: with `oversized` it puts the connection on the list to disconnect, and
-- still returns the frames in front.
unfoldable pub server_parse : List ℕ → List ℕ → Parsed
server_parse = parse server_recv_max_message_size

-- The client's parser throws instead.
unfoldable pub client_parse : List ℕ → List ℕ → Result (List (List ℕ) × List ℕ)
client_parse buffer input =
    let p = parse client_recv_max_message_size buffer input in
    if p.oversized then err oversized_frame else ok (p.frames, p.buffer)
