-- ===== src/MessageLog.antt =====
-- include/common/MessageLogWriter.h and include/common/MessageLogReader.h. A log file is its bytes;
-- the reader's file stream is what it has not read yet.
pub mod Replay
mod Tests
use snake_multiplayer.Base.{
  ℕ, zero, suc, ◌+◌, Bool, true, false, List, [], ◌∷◌, ◌++◌, length, take, drop, ltb, if◌then◌else◌,
  Option, none, some, Result, ok, err, ◌>>=◌, truncated_record, time_goes_back, stuck,
}
use snake_multiplayer.Base.Int.{ℤ, pos, ◌==ℤ◌, ltb_ℤ}
use snake_multiplayer.Protocol.Bytes.{bytes_word}
use snake_multiplayer.Protocol.Types.{MessageVariant, header}
use snake_multiplayer.Protocol.Read.{deserialise}
use snake_multiplayer.Frame.{frame}

-- `MessageLogWriter::log` writes the length and the bytes to the end of the file.
unfoldable pub log : List ℕ → List ℕ → List ℕ
log out msg = out ++ frame msg

pub record MessageLogReader : Type 0 where
  pub input : List ℕ
  pub current_transact_time : ℤ
  pub output_buffer : Option MessageVariant

-- The constructor, on the contents of the file.
abbrev pub open_log : List ℕ → MessageLogReader
open_log file = record { input = file; current_transact_time = pos 0; output_buffer = none }

-- One record: `none` at the end of the file, also where fewer than four bytes are left, after which
-- every read of the stream fails.
unfoldable pub read_record : List ℕ → Result (Option (MessageVariant × List ℕ))
read_record input =
    let len = bytes_word (take 4 input) in
    let rest = drop 4 input in
    if ltb (length input) 4
    then ok none
    else if ltb (length rest) len
    then err truncated_record
    else do msg ← deserialise (take len rest); ok (some (msg, drop len rest))

unfoldable pub first : MessageLogReader → Result (Option MessageVariant × MessageLogReader)
first r = do
  found ← read_record r.input
  ok (elim found [
    | none ↦ (none, record r { input = [] })
    | some (msg, rest) ↦ (some msg, record r { input = rest })
  ])

abbrev pub transact_time : MessageVariant → ℤ
transact_time msg = (header msg).transact_time

-- The `while` loop of `nextBatch`. A round takes four bytes at least.
unfoldable pub batch_loop :
    ℕ → List ℕ → ℤ → List MessageVariant → Result (List MessageVariant × MessageLogReader)
batch_loop zero input now output = err stuck
batch_loop (suc fuel) input now output = elim (read_record input) [
  | err e ↦ err e
  | ok none ↦ ok (output, record { input = []; current_transact_time = now; output_buffer = none })
  | ok (some (pm, rest)) ↦
      let first_time = batch_loop fuel rest (transact_time pm) (output ++ (pm ∷ [])) in
      let same_time = batch_loop fuel rest now (output ++ (pm ∷ [])) in
      if now ==ℤ pos 0
      then first_time
      else if transact_time pm ==ℤ now
      then same_time
      else if ltb_ℤ now (transact_time pm)
      then ok (
        output,
        record { input = rest; current_transact_time = transact_time pm; output_buffer = some pm },
      )
      else err time_goes_back
]

unfoldable pub next_batch : MessageLogReader → Result (List MessageVariant × MessageLogReader)
next_batch r = elim r.output_buffer [
  | none ↦ batch_loop (suc (length r.input)) r.input r.current_transact_time []
  | some m ↦ batch_loop (suc (length r.input)) r.input (transact_time m) (m ∷ [])
]
