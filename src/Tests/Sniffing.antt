-- ===== src/Tests/Sniffing.antt =====
-- sniffer.go
use zanarkand.Tests.Data.{
  device, flow, zero_flow, empty_reset, subscriber, buffered, event_header, plain_wire, zlib_wire,
  source, target, zlib_fits,
}
use zanarkand.Prelude.{
  ℕ, ◌-◌, ◌≡◌, ◌≢◌, refl, sym, ap, ◌∙◌, false, List, [], ◌∷◌, ◌++◌, true, some, none, arith, length,
  All, map, length-append, drop, take-append_eq, drop-append_eq,
}
use zanarkand.Prelude.Int.{pos}
use zanarkand.Prelude.Bytes.{Bytes}
use zanarkand.Io.{IoError, Reader, new_reader, peek, discard}
use zanarkand.Io.Peek.{Shows, peek-Shows, Passed, Shows-Passed}
use zanarkand.Error.{ok, io, Error, unwrap_method, is_eof}
use zanarkand.Error.Printed.{Library, error_text}
use zanarkand.Prelude.Radix.{decimal, show}
use zanarkand.Prelude.Format.{codes}
use zanarkand.Message.Wire.{encode_header}
use zanarkand.Reassembler.Delivery.{packet_of}
use zanarkand.Sniffer.{stopped, packet, process_frames, panicked, returned, waiting, FrameHandler}
use zanarkand.Sniffer.Start.{
  Event, packet as got, tick, start, ended, calls_before, first_end, start-ended,
}
use zanarkand.Sniffer.Config.{
  SnifferOption, with_data_buffer_size, file, new_sniffer, NewSniffer, MadeWith, last_data,
  last_err, new_sniffer_lem,
}
use zanarkand.Sniffer.Frames.{process_frames_zlib, process_frames-is_eof}
use zanarkand.Sniffer.Pipeline.{Framed, FramedFits, turns, deliver_all, process_frames-run}
use zanarkand.Reassembler.{run, reader_size}
use zanarkand.Reassembler.Pieces.{IsPiece, encode_frames}
use zanarkand.Frame.Wire.{Wire, WireFits, encode_frame}
use zanarkand.Frame.{Frame}
use zanarkand.Sniffer.Messages.{Segment, encode_segments, Takes}
use zanarkand.Subscriber.{game_event_subscribe}

process_frames_zlib_example :
    process_frames zero_flow empty_reset
      (game_event_subscribe source target)
      true
      0
      subscriber
      (record { pick = packet (packet_of flow zlib_wire); active = true } ∷ [])
    ≡ (subscriber, panicked)
process_frames_zlib_example =
    process_frames_zlib zero_flow flow empty_reset (game_event_subscribe source target) subscriber
      zlib_wire true [] zlib_fits refl

-- A handler that keeps the payloads.
abbrev pub payloads : FrameHandler (Bytes × Bytes) (List Bytes)
payloads s f h r =
    let p = peek (pos (h.length - 16)) r in
    (s ++ (p.bytes ∷ []), ok (discard (h.length - 16) p.after))

abbrev pub add_payload : List Bytes → Segment → List Bytes
add_payload s g = s ++ (g.payload ∷ [])

pub payloads_taken : (f : Frame (Bytes × Bytes)) → Takes payloads f add_payload
payloads_taken f s g rest r fit e =
    let n : ℕ = g.header.length - 16 in
    let eq : length g.payload ≡ n = omega (arith, fit.length_is) in
    let sh : Shows n r (peek (pos n) r) =
      peek-Shows n r (omega (arith, fit.in_buffer))
        (omega (arith, ap length e, length-append g.payload rest)) in
    let p : Passed n r (discard n (peek (pos n) r).after) = Shows-Passed sh in
    (
      discard n (peek (pos n) r).after,
      rw (sh.shown, e, take-append_eq n g.payload rest (sym eq)),
      p.rest ∙ ap (drop n) e ∙ drop-append_eq n g.payload rest (sym eq),
      p.rest_size,
    )

abbrev segments : List Segment
segments =
    record { header = record event_header { length = 18 }; payload = 7 ∷ 8 ∷ [] }
    ∷ record { header = record event_header { length = 16 }; payload = [] }
    ∷ []

abbrev at_segments : Reader
at_segments = buffered (encode_segments segments ++ (9 ∷ [])) 20

-- A frame with these two messages, twice in one piece of a stream.
abbrev pub framed : Framed
framed = record {
  wire = record plain_wire { length = 74; count = 2; body = encode_segments segments };
  segments = segments;
}

pub framed_fits : FramedFits framed
unfolding encode_header
framed_fits = record {
  wire_fits = omega arith;
  plain = refl;
  body_is = refl;
  count_is = refl;
  segments_fit = (omega arith, (omega arith, tt));
}

abbrev twice : List (List Wire)
twice = (framed.wire ∷ framed.wire ∷ []) ∷ []

twice_are : All (IsPiece reader_size) twice
unfolding encode_frame encode_header
twice_are = ((λ k. cc, omega arith, (omega arith, (omega arith, tt))), tt)

process_frames-run_example :
    process_frames zero_flow empty_reset payloads true 0 []
      (turns (run flow 3 (new_reader reader_size (map encode_frames twice) IoError.eof)).packets)
    ≡ (deliver_all zero_flow flow (λ f. add_payload) [] (framed ∷ framed ∷ []), waiting)
process_frames-run_example =
    process_frames-run zero_flow flow (λ f. add_payload) empty_reset payloads payloads_taken
      (framed ∷ framed ∷ []) twice IoError.eof 3 [] refl (framed_fits, (framed_fits, tt)) twice_are
      (omega arith)

-- A packet of TCP, a tick of the clock, and the end of the source.
abbrev events : List (Event ℕ ℕ)
events =
    got (some (record { network_flow = some 1; transport = some (2, true); timestamp = 3 }))
    ∷ tick 4
    ∷ got none
    ∷ []

start-ended_example : start events ≡ ended (calls_before events) (first_end events)
start-ended_example = start-ended events

abbrev options : List SnifferOption
options = with_data_buffer_size (pos 5) ∷ []

abbrev name : Bytes
name = 7 ∷ []

abbrev made : NewSniffer ℕ
made = record { state = stopped; data_capacity = 5; err_capacity = 1; handle = 1 }

new_sniffer_lem_example :
    MadeWith (last_data options (pos 200)) (last_err options (pos 1)) device file name made
    × (name ≢ [])
unfolding new_sniffer
new_sniffer_lem_example = new_sniffer_lem device file name options made refl

-- A frame that announces a message and has two bytes of it.
abbrev short_wire : Wire
short_wire = record plain_wire { length = 42; count = 1; body = 7 ∷ 8 ∷ [] }

short_fits : WireFits short_wire
short_fits = omega arith

abbrev go_texts : Library
go_texts = record { io_text = λ e. codes "EOF"; foreign_text = λ n. [] }

process_frames-is_eof_example :
    (x : Error) × (process_frames zero_flow empty_reset
        (game_event_subscribe source target)
        true
        0
        subscriber
        (record { pick = packet (packet_of flow short_wire); active = true } ∷ [])
      ≡ (subscriber, returned x))
    × (error_text go_texts x
        ≡ codes "unable to decode message: "
          ++ (codes "not enough data: expected 16 bytes but received "
              ++ (show decimal 2 ++ (codes ": " ++ codes "EOF"))))
    × (unwrap_method (unwrap_method x) ≡ io IoError.eof)
    × (is_eof (unwrap_method x) ≡ false)
    × (is_eof x ≡ false)
process_frames-is_eof_example =
    process_frames-is_eof go_texts zero_flow flow empty_reset (game_event_subscribe source target)
      subscriber short_wire true [] short_fits refl (omega arith) (omega arith)
