-- ===== src/Tests/Printing.antt =====
-- The texts that are printed.
use zanarkand.Prelude.{◌≡◌, ◌++◌, refl, [], ◌∷◌}
use zanarkand.Message.{GameEventMessage}
use zanarkand.Message.Texts.{game_event_text}
use zanarkand.Prelude.Int.{negsuc}
use zanarkand.Prelude.Radix.{show}
use zanarkand.Prelude.Format.{codes, sprintf, show_int}
use zanarkand.Frame.{compressor_name}
use zanarkand.Frame.Text.{frame_text}
use zanarkand.Tests.Data.{event, no_frame}

-- The same message with another body prints alike.
abbrev with_other_body : GameEventMessage
with_other_body = record event { body = [] }

-- The texts of a message and of a frame.
event_text :
    game_event_text event
    ≡ codes "Segment - size: 34, source: 1, target: 2, segment: 3"
      ++ ((b'\n' ∷ [])
          ++ (codes "Message - server: 5, opcode: 0x3AF, timestamp: 1000" ++ (b'\n' ∷ [])))
unfolding game_event_text sprintf show
event_text = refl

frame_shown :
    frame_text (record no_frame { timestamp = negsuc 0; compression = 2 })
    ≡ codes
        "Frame - magic: 0x0, timestamp: -1, size: 0, count: 0, compression: Oodle, connection: 0"
unfolding frame_text sprintf show show_int compressor_name
frame_shown = refl
