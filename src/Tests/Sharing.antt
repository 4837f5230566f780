-- ===== src/Tests/Sharing.antt =====
-- The body of a message and the buffer that it lies in.
use zanarkand.Prelude.{◌≡◌, refl, [], ◌∷◌, take, drop, replicate, arith}
use zanarkand.Prelude.Int.{pos}
use zanarkand.Io.{Reader, IoError, peek, discard}
use zanarkand.Io.Array.{contents}
use zanarkand.Io.View.{stream}
use zanarkand.Error.{ok}
use zanarkand.Message.{zero_game_event, decode_header, decode_game_event}
use zanarkand.Message.Wire.{encode_header}
use zanarkand.Message.GameEvent.{encode_ipc, encode_game_event}
use zanarkand.Message.Sharing.{body_slice, body_slice_overwritten}
use zanarkand.Tests.Data.{event}

-- A game event that is buffered, and 40 bytes that are not.
abbrev before : Reader
before = record {
  used = [];
  buf = encode_game_event event;
  stale = replicate 20 0;
  rd = replicate 40 5 ∷ [];
  rd_err = IoError.eof;
}

abbrev after : Reader
after = discard 18 (discard 16 before)

decodes : decode_game_event zero_game_event before ≡ ok (event, after)
unfolding encode_game_event decode_game_event decode_header peek encode_header encode_ipc
decodes = refl

body_slice_overwritten_example :
    (contents (body_slice event after) after ≡ event.body)
    × (contents (body_slice event after) (peek (pos 16) after).after
        ≡ take 2 (drop (body_slice event after).start (stream after)))
unfolding encode_game_event encode_header encode_ipc peek
body_slice_overwritten_example =
    body_slice_overwritten zero_game_event event before after decodes 16 (omega arith) (omega arith)
