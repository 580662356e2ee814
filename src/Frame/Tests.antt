-- ===== src/Frame/Tests.antt =====
-- Two frames that arrive in three pieces, and a client's join and input.
use snake_multiplayer.Base.{
  ℕ, ◌<◌, ◌≡◌, refl, List, [], ◌∷◌, ◌++◌, append-nil, if◌then◌else◌, arith, concat, All, false, ok,
  replicate,
}
use snake_multiplayer.Base.Int.{ℤ, pos}
use snake_multiplayer.Protocol.Bytes.{u32_bytes, word_bytes}
use snake_multiplayer.Protocol.Types.{Header, MessageVariant, client_input, client_join}
use snake_multiplayer.Protocol.Valid.{IsHeaderOf}
use snake_multiplayer.Frame.{frame, parse}
use snake_multiplayer.Frame.Loop.{parse-append}
use snake_multiplayer.Frame.Stream.{stream, receive, receive-stream}
use snake_multiplayer.Frame.Session.{
  IsClientMessage, serialised, from_client, deserialise_all, deserialise_all-receive,
}

abbrev two_messages : List (List ℕ)
two_messages = (9 ∷ 8 ∷ []) ∷ (7 ∷ []) ∷ []

abbrev three_pieces : List (List ℕ)
three_pieces = (2 ∷ 0 ∷ 0 ∷ []) ∷ (0 ∷ 9 ∷ 8 ∷ 1 ∷ 0 ∷ []) ∷ (0 ∷ 0 ∷ 7 ∷ []) ∷ []

pieces_of_two : concat three_pieces ≡ stream two_messages
unfolding frame u32_bytes word_bytes
pieces_of_two = refl

receive-stream_example :
    receive 64 [] three_pieces ≡ record { frames = two_messages; buffer = []; oversized = false }
receive-stream_example =
    receive-stream 64 two_messages three_pieces (omega arith) (omega arith, (omega arith, tt))
      pieces_of_two

parse-append_example : parse 64 (2 ∷ []) ((0 ∷ 0 ∷ []) ++ (0 ∷ 9 ∷ 8 ∷ [])) ≡ (
    let p = parse 64 (2 ∷ []) (0 ∷ 0 ∷ []) in
    let q = parse 64 p.buffer (0 ∷ 9 ∷ 8 ∷ []) in
    if p.oversized
    then record p { buffer = p.buffer ++ (0 ∷ 9 ∷ 8 ∷ []) }
    else record q { frames = p.frames ++ q.frames })
parse-append_example = parse-append 64 (2 ∷ []) (0 ∷ 0 ∷ []) (0 ∷ 9 ∷ 8 ∷ [])

abbrev header_of : ℤ → Header
header_of t = record {
  message_type = t;
  client_id = pos 0;
  sequence = pos 0;
  transact_time = pos 0;
}

header_of-IsHeaderOf : (n : ℕ) → n < 6 → IsHeaderOf (pos n) (header_of (pos n))
header_of-IsHeaderOf n lt = record {
  kind = refl;
  kind_fits = omega arith;
  client_id_fits = omega arith;
  sequence_fits = omega arith;
  transact_time_fits = omega arith;
}

abbrev join_and_turn : List MessageVariant
join_and_turn =
    client_join (record { hdr = header_of (pos 1); username = b'a' ∷ replicate 15 0 })
    ∷ client_input (record { hdr = header_of (pos 4); input = b'<' })
    ∷ []

join_and_turn-IsClientMessage : All IsClientMessage join_and_turn
join_and_turn-IsClientMessage =
    ((header_of-IsHeaderOf 1 (omega arith), refl), (header_of-IsHeaderOf 4 (omega arith), tt))

deserialise_all-receive_example :
    ((receive 64 [] (stream (serialised join_and_turn) ∷ [])).oversized ≡ false)
    × (deserialise_all (pos 5) (receive 64 [] (stream (serialised join_and_turn) ∷ [])).frames
        ≡ ok (from_client (pos 5) join_and_turn))
deserialise_all-receive_example =
    deserialise_all-receive (pos 5) join_and_turn (stream (serialised join_and_turn) ∷ [])
      join_and_turn-IsClientMessage (append-nil (stream (serialised join_and_turn)))
