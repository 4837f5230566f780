-- ===== src/Tests/Subscribing.antt =====
-- The subscribers, and the messages that they are called with.
use zanarkand.Subscriber.{
  Channel, filtered_out, game_event_subscribe, game_event_handle, new_keepalive_subscriber,
}
use zanarkand.Subscriber.Agreement.{as_subscriber, process_frames-agree}
use zanarkand.Prelude.{
  ◌⊎◌, not, false, ℕ, ◌≡◌, inl, ◌≢◌, refl, All, map, List, [], ◌∷◌, ◌++◌, true, arith,
}
use zanarkand.Error.{decoding_failure, not_enough_data, io, ok}
use zanarkand.Tests.Data.{
  flow, zero_flow, empty_reset, subscriber, handler, buffered, event_header, event, ping,
  plain_wire, source, target, incoming, event_fits, ping_fits,
}
use zanarkand.Prelude.Int.{pos}
use zanarkand.Prelude.Bytes.{Bytes}
use zanarkand.Io.{Reader, new_reader, IoError}
use zanarkand.Io.View.{stream}
use zanarkand.Message.{KeepaliveMessage}
use zanarkand.Message.Wire.{encode_header}
use zanarkand.Message.GameEvent.{encode_ipc, encode_game_event}
use zanarkand.Message.Keepalive.{encode_keepalive}
use zanarkand.Frame.Direction.{direction, direction_of, is_private, neither}
use zanarkand.Subscriber.Subscribe.{subscribe_game_events, subscribe_keepalives}
use zanarkand.Sniffer.{stopped, packet, returned, process_frames, Turn, default_size}
use zanarkand.Sniffer.Start.{is_active}
use zanarkand.Frame.Wire.{Wire, encode_frame}
use zanarkand.Reassembler.{run, reader_size}
use zanarkand.Reassembler.Pieces.{IsPiece, encode_frames}
use zanarkand.Sniffer.Pipeline.{turns}
use zanarkand.Subscriber.Pipeline.{
  EventFrame, taken_for_length, subscribe_game_events-encode, KeepaliveFrame,
  subscribe_keepalives-encode,
}
use zanarkand.Reassembler.Delivery.{packet_of}
use zanarkand.Sniffer.Simulation.{over}
use zanarkand.Subscriber.GameEvents.{Passes, cleared, delivered, game_event_subscribe-encode}

-- A reader over a frame's body, as `ProcessFrames` makes it.
abbrev over_body : Bytes → Reader
over_body s = new_reader default_size (s ∷ []) IoError.eof

-- A frame with a game event, and one behind it.
abbrev event_wire : Wire
event_wire = record plain_wire { length = 74; body = encode_game_event event }

event_frame : EventFrame event_wire event
unfolding encode_header encode_ipc encode_game_event
event_frame = record {
  wire_fits = omega arith;
  plain = refl;
  rest = [];
  body_is = refl;
  some_messages = omega arith;
  fits = event_fits;
  segment_is = refl;
  has_opcode = omega arith;
}

abbrev event_pieces : List (List Wire)
event_pieces = (event_wire ∷ plain_wire ∷ []) ∷ []

event_pieces_are : All (IsPiece reader_size) event_pieces
unfolding encode_frame encode_header encode_ipc encode_game_event
event_pieces_are = ((λ k. cc, omega arith, (omega arith, (omega arith, tt))), tt)

subscribe_game_events-encode_example :
    (got : ℕ) × (subscribe_game_events zero_flow empty_reset stopped true source target subscriber (
        turns
          (run flow 3
            (new_reader reader_size (map encode_frames event_pieces) IoError.eof)).packets)
      ≡ record {
        spawned = not (is_active stopped);
        state = subscriber;
        ended = returned (taken_for_length event got);
      })
subscribe_game_events-encode_example =
    subscribe_game_events-encode source target zero_flow flow empty_reset stopped subscriber
      event_wire (plain_wire ∷ []) event event_pieces IoError.eof 3 refl event_frame
      event_pieces_are (omega arith)

-- A frame with a keepalive, and one behind it.
abbrev ping_wire : Wire
ping_wire = record plain_wire { length = 64; body = encode_keepalive ping }

ping_frame : KeepaliveFrame ping_wire ping
unfolding encode_header encode_keepalive
ping_frame = record {
  wire_fits = omega arith;
  plain = refl;
  body_is = refl;
  some_messages = omega arith;
  fits = ping_fits;
  segment_is = inl refl;
}

abbrev ping_pieces : List (List Wire)
ping_pieces = (ping_wire ∷ plain_wire ∷ []) ∷ []

ping_pieces_are : All (IsPiece reader_size) ping_pieces
unfolding encode_frame encode_header encode_keepalive
ping_pieces_are = ((λ k. cc, omega arith, (omega arith, (omega arith, tt))), tt)

subscribe_keepalives-encode_example :
    subscribe_keepalives zero_flow empty_reset stopped true new_keepalive_subscriber (
      turns
        (run flow 3 (new_reader reader_size (map encode_frames ping_pieces) IoError.eof)).packets)
    ≡ record {
      spawned = not (is_active stopped);
      state = new_keepalive_subscriber;
      ended = returned (decoding_failure (not_enough_data (pos 16) 8 (io IoError.eof)));
    }
subscribe_keepalives-encode_example =
    subscribe_keepalives-encode zero_flow flow empty_reset stopped new_keepalive_subscriber
      ping_wire (plain_wire ∷ []) ping ping_pieces IoError.eof 3 refl ping_frame ping_pieces_are
      (omega arith)

abbrev at_ping : Reader
at_ping = buffered (encode_header ping.header ++ (9 ∷ [])) 20

abbrev at_event : Reader
at_event = buffered (encode_game_event event ++ (9 ∷ [])) 20

abbrev at_last : Reader
at_last = over_body (encode_keepalive ping)

abbrev no_pings : Channel KeepaliveMessage
no_pings = record { received = []; closed = false }

abbrev schedule : List (Turn (Bytes × Bytes))
schedule = record { pick = packet (packet_of flow plain_wire); active = false } ∷ []

-- From a public address to a private one.
incoming_side : direction source target incoming ≢ neither
unfolding direction direction_of is_private
incoming_side e = cc

game_event_subscribe-encode_example :
    (a : Reader) × (stream a ≡ 9 ∷ [])
    × (((¬ Passes subscriber.opcodes event.opcode)
          × (game_event_subscribe source target subscriber incoming event_header at_event
              ≡ (subscriber, ok a)))
        ⊎ (Passes subscriber.opcodes event.opcode
            × (game_event_subscribe source target subscriber incoming event_header at_event
                ≡ (delivered (direction source target incoming) subscriber (cleared event), ok a))))
unfolding encode_header encode_ipc encode_game_event
game_event_subscribe-encode_example =
    game_event_subscribe-encode source target incoming subscriber event (9 ∷ []) at_event event_fits
      refl (omega arith) refl incoming_side refl refl

process_frames-agree_example :
    process_frames zero_flow empty_reset
      (game_event_subscribe source target)
      true
      0
      (as_subscriber handler)
      schedule
    ≡ over as_subscriber (
        process_frames zero_flow empty_reset
          (game_event_handle source target)
          true
          0
          handler
          schedule)
process_frames-agree_example =
    process_frames-agree source target zero_flow empty_reset true schedule 0 handler

nothing_filtered : filtered_out subscriber.opcodes event.opcode ≡ false
unfolding filtered_out
nothing_filtered = refl

abbrev at_written_ping : Reader
at_written_ping = buffered (encode_keepalive ping ++ (9 ∷ [])) 20
