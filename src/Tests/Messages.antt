-- ===== src/Tests/Messages.antt =====
-- message.go
use zanarkand.Prelude.{drop, ◌≡◌, refl, [], ◌∷◌, ◌++◌, arith}
use zanarkand.Io.{peek, Reader, IoError}
use zanarkand.Io.View.{stream}
use zanarkand.Error.Printed.{Library, error_text}
use zanarkand.Prelude.Radix.{show, digits_of}
use zanarkand.Prelude.Int.{pos}
use zanarkand.Prelude.Format.{codes, show_int}
use zanarkand.Error.{
  not_enough_data, wrapped, capture_handle, unknown_input, text, unknown_mode, ok, panic, io,
}
use zanarkand.Message.{
  GameEventMessage, zero_game_event, decode_game_event, decode_header, decode_keepalive,
}
use zanarkand.Message.Wire.{encode_header}
use zanarkand.Message.GameEvent.{encode_game_event, encode_ipc, decode_game_event-encode}
use zanarkand.Message.Borrowed.{decode_keepalive_borrows}
use zanarkand.Prelude.Bytes.{le_bytes}
use zanarkand.Message.Cases.{Decoded, decode_game_event-Decoded}
use zanarkand.Message.Json.{game_event_json, IsJsonOf, game_event_json-encode}
use zanarkand.Tests.Data.{buffered, event_header, event, event_fits}

abbrev at_header : Reader
at_header = buffered (encode_header event_header ++ (9 ∷ [])) 20

header_stream : stream at_header ≡ encode_header event_header ++ (9 ∷ [])
unfolding encode_header
header_stream = refl

abbrev at_event : Reader
at_event = buffered (encode_game_event event ++ (9 ∷ [])) 20

decode_game_event-encode_example :
    (r' : Reader) × (decode_game_event zero_game_event at_event ≡ ok (event, r'))
    × (stream r' ≡ 9 ∷ [])
unfolding encode_header encode_ipc encode_game_event
decode_game_event-encode_example =
    decode_game_event-encode event zero_game_event (9 ∷ []) at_event event_fits (omega arith) refl

game_event_json-encode_example :
    (d : GameEventMessage) × (r' : Reader) × (decode_game_event zero_game_event at_event
      ≡ ok (d, r'))
    × IsJsonOf event (game_event_json d)
unfolding encode_header encode_ipc encode_game_event
game_event_json-encode_example =
    game_event_json-encode event zero_game_event (9 ∷ []) at_event event_fits (omega arith) refl

-- A message that announces 20 bytes, all of them there.
abbrev at_stub : Reader
at_stub = buffered (encode_header record event_header { length = 20 } ++ (1 ∷ 2 ∷ 3 ∷ 4 ∷ [])) 20

stub_panics : decode_game_event zero_game_event at_stub ≡ panic
unfolding encode_header decode_game_event decode_header peek
stub_panics = refl

decode_game_event-Decoded_example :
    Decoded zero_game_event at_event (decode_game_event zero_game_event at_event)
decode_game_event-Decoded_example = decode_game_event-Decoded zero_game_event at_event (omega arith)

abbrev at_end : Reader
at_end = buffered (1 ∷ 2 ∷ []) 20

-- The texts of the standard library, as far as they are printed.
abbrev go_texts : Library
go_texts = record { io_text = λ e. codes "EOF"; foreign_text = λ n. [] }

-- The text that message_test.go expects.
eof_text :
    error_text go_texts (not_enough_data (pos 16) 12 (io IoError.eof))
    ≡ codes "not enough data: expected 16 bytes but received 12: EOF"
unfolding error_text show_int show digits_of
eof_text = refl

-- A mode that is not known is reported with the same words twice.
mode_text :
    error_text go_texts
      (wrapped capture_handle (unknown_input (text (unknown_mode (codes "tape")))))
    ≡ codes "capture handle: unknown input type: unknown input type: tape"
unfolding error_text
mode_text = refl

-- A keepalive that announces 20 bytes, and four bytes that follow it.
abbrev at_short_ping : Reader
at_short_ping =
    buffered
      (encode_header record event_header { length = 20 }
        ++ (le_bytes 4 9 ++ (le_bytes 4 1000 ++ (5 ∷ []))))
      20

decode_keepalive_borrows_example :
    (r' : Reader) × (decode_keepalive at_short_ping
      ≡ ok (record { header = record event_header { length = 20 }; id = 9; timestamp = 1000 }, r'))
    × (stream r' ≡ drop 20 (stream at_short_ping))
decode_keepalive_borrows_example =
    decode_keepalive_borrows (record event_header { length = 20 }) 9 1000 (5 ∷ []) at_short_ping
      (record {
        length_fits = omega arith;
        source_fits = omega arith;
        target_fits = omega arith;
        segment_fits = omega arith;
        padding_fits = omega arith;
      })
      (omega arith) (omega arith) (omega arith) (omega arith) refl
