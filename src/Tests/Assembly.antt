-- ===== src/Tests/Assembly.antt =====
-- sniffer.go and reassembler.go: the assembler's calls, at one frame in two segments and at whole frames.
use zanarkand.Prelude.{
  All, ℕ, ◌≡◌, refl, Bool, true, false, List, [], ◌∷◌, ◌==◌, map, length, update, arith,
  eq_zero_false, if◌then◌else◌,
}
use zanarkand.Prelude.Bytes.{Bytes}
use zanarkand.Io.View.{flat}
use zanarkand.Error.{text, less_read}
use zanarkand.Frame.Wire.{Wire, encode_frame}
use zanarkand.Sniffer.Assembly.{
  would_block, assemble, hand_over, Stream, unopened, live, left, selecting, between, calling,
  Assembly, new_assembly, cancel, Steps, here, then_step,
}
use zanarkand.Sniffer.Assembly.Order.{CutsAs, history, Steps-CutsAs}
use zanarkand.Reassembler.Streams.{of_stream}
use zanarkand.Reassembler.Pieces.{round_first, IsPiece, encode_frames}
use zanarkand.Io.{Reader, new_reader}
use zanarkand.Reassembler.{Round, sent, round, reader_size}
use zanarkand.Reassembler.Delivery.{packet_of}
use zanarkand.Sniffer.Assembly.Hung.{IsHung, Gave, Hangs, nobody, Steps-Hangs}
use zanarkand.Sniffer.Assembly.Full.{NeedsRoom, at_send, Steps-IsHung_full}
use zanarkand.Sniffer.Assembly.Whole.{CaughtUp}
use zanarkand.Message.Wire.{encode_header}
use zanarkand.Sniffer.{process_frames, waiting}
use zanarkand.Sniffer.Pipeline.{Framed, turns, deliver_from}
use zanarkand.Sniffer.Assembly.Handled.{wires_in, frames_in, Steps-deliver_from}
use zanarkand.Tests.Data.{plain_wire, zlib_wire, flow, zero_flow, empty_reset}
use zanarkand.Tests.Sniffing.{payloads, payloads_taken, add_payload, framed, framed_fits}

-- A call that is over once nothing is unread.
abbrev at_rest : {F : Type 0} → Round F → Bool
at_rest (sent p after) = length (flat after.rd) == 0
at_rest _ = true

abbrev all_read : {F : Type 0} → Stream F → Bool
all_read unopened = true
all_read (live net now) = at_rest (round net now)
all_read (left net e ps) = length (flat ps) == 0

all_read-NeedsRoom : {F : Type 0} → NeedsRoom {F = F} all_read
all_read-NeedsRoom net now after p goes some_left =
    rw goes (eq_zero_false (length (flat after.rd)) some_left)

all_read-CaughtUp : {F : Type 0} → CaughtUp {F = F} all_read
all_read-CaughtUp net r t stops = rw stops refl

-- The first 41 of a frame's 42 bytes.
abbrev front_part : Bytes
front_part = encode_frame record plain_wire { body = 7 ∷ [] }

-- `dataCh` with room for one packet, and a packet in it.
abbrev at_full : Assembly ℕ
at_full = record (new_assembly 1) { queue = (9, packet_of 4 plain_wire) ∷ [] }

abbrev whole : List Wire
whole = plain_wire ∷ zlib_wire ∷ []

whole-IsPiece : IsPiece reader_size whole
unfolding encode_frame
whole-IsPiece = (λ k. cc, omega arith, (omega arith, (omega arith, tt)))

Steps-IsHung_full_example :
    (t : Assembly ℕ) × Steps all_read false at_full t
    × IsHung false all_read 0 t
    × Gave 0
        (encode_frames whole)
        (8 ∷ [])
        (at_send 4 (encode_frames whole ∷ []))
        (at_send 4 (encode_frames whole ∷ (8 ∷ []) ∷ []))
        at_full
        t
    × (t.queue ≡ at_full.queue)
    × (t.taken ≡ at_full.taken)
Steps-IsHung_full_example =
    Steps-IsHung_full all_read 4 at_full 0 plain_wire (zlib_wire ∷ []) 8 [] all_read-NeedsRoom refl
      refl refl refl whole-IsPiece

-- A stream with a byte that nobody reads, and the call that gave it.
abbrev at_call : Assembly ℕ
at_call = record (new_assembly 200) {
  starter = calling 0 selecting;
  streams =
      update (new_assembly {F = ℕ} 200).streams 0 (left 4 (text (less_read 41 42)) ((8 ∷ []) ∷ []));
}

hung : IsHung true all_read 0 at_call
hung = record {
  place = selecting;
  at_call = refl;
  not_read = refl;
  unread = nobody 4 (text (less_read 41 42)) ((8 ∷ []) ∷ []) refl;
}

Steps-Hangs_example : Hangs true all_read 0 at_call (record at_call { cancelled = true })
Steps-Hangs_example = Steps-Hangs true all_read hung (then_step here cancel)

-- Pieces of two streams, in turn.
abbrev pieces : List (ℕ × List Framed)
pieces = (0, framed ∷ framed ∷ []) ∷ (1, framed ∷ []) ∷ (0, framed ∷ []) ∷ []

-- A stream from a server to a client, and the one back.
abbrev flow_of : ℕ → Bytes × Bytes
flow_of i = if i == 0 then flow else (flow.1, flow.0)

pieces_are : All (λ x. IsPiece reader_size x.1) (wires_in pieces)
unfolding encode_frame encode_header
pieces_are = (
  (λ k. cc, omega arith, (omega arith, (omega arith, tt))),
  ((λ k. cc, omega arith, (omega arith, tt)), ((λ k. cc, omega arith, (omega arith, tt)), tt)),
)

Steps-deliver_from_example :
    (t : Assembly (Bytes × Bytes)) × Steps all_read true (new_assembly 200) t
    × (t.starter ≡ between selecting)
    × (t.handed ≡ map (λ x. (x.0, encode_frames x.1)) (wires_in pieces))
    × (process_frames zero_flow empty_reset payloads true 0 [] (turns (map (λ x. x.1) t.taken))
        ≡ (deliver_from zero_flow (λ f. add_payload) [] (frames_in flow_of pieces), waiting))
Steps-deliver_from_example =
    Steps-deliver_from all_read flow_of zero_flow (λ f. add_payload) empty_reset payloads
      payloads_taken 200 pieces [] all_read-CaughtUp pieces_are
      (framed_fits, (framed_fits, (framed_fits, (framed_fits, tt))))

abbrev net : ℕ
net = 4

-- The first packet of a piece is received, and another piece is given behind it.
abbrev behind_first : Reader
behind_first =
    (round_first net reader_size plain_wire (zlib_wire ∷ []) [] would_block (omega arith)
      whole-IsPiece).0

abbrev given_whole : Assembly ℕ
given_whole = record (new_assembly 200) {
  starter = calling 0 selecting;
  streams =
      update (new_assembly {F = ℕ} 200).streams 0
        (live net (new_reader reader_size (encode_frames whole ∷ []) would_block));
  handed = (0, encode_frames whole) ∷ [];
}

abbrev received_first : Assembly ℕ
received_first = record given_whole {
  streams = update given_whole.streams 0 (live net behind_first);
  taken = (0, packet_of net plain_wire) ∷ [];
}

to_first : Steps all_read true (new_assembly 200) received_first
to_first = then_step (then_step here (assemble selecting 0 net (encode_frames whole) refl refl)) (
    hand_over 0 refl
      (round_first net reader_size plain_wire (zlib_wire ∷ []) [] would_block (omega arith)
        whole-IsPiece).1
      refl refl)

Steps-CutsAs_example :
    CutsAs
      (received_first.streams 0)
      (of_stream 0 received_first.handed)
      (of_stream 0 (history received_first))
Steps-CutsAs_example = Steps-CutsAs to_first 0
