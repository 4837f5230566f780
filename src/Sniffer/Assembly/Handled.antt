-- ===== src/Sniffer/Assembly/Handled.antt =====
-- From captured pieces of any number of streams to the calls of a handler.
use mathlib.Core.List.{map-append}
use mathlib.Core.Path.{ap₂}
use zanarkand.Prelude.{ℕ, ◌≡◌, refl, sym, ap, ◌∙◌, Bool, true, List, [], ◌∷◌, ◌++◌, map, All}
use zanarkand.Reassembler.{Packet, reader_size}
use zanarkand.Reassembler.Delivery.{packet_of}
use zanarkand.Reassembler.Pieces.{IsPiece, encode_frames}
use zanarkand.Frame.{Frame}
use zanarkand.Frame.Wire.{Wire}
use zanarkand.Sniffer.{FrameHandler, Reset, process_frames, waiting}
use zanarkand.Sniffer.Messages.{Segment, Takes}
use zanarkand.Sniffer.Pipeline.{
  map-map, Framed, FramedFits, turns, packet_on, on_flow, packet_on-on_flow, deliver_from,
  process_frames-encode,
}
use zanarkand.Sniffer.Assembly.{Stream, selecting, between, Assembly, new_assembly, Steps}
use zanarkand.Sniffer.Assembly.Sending.{packets_of}
use zanarkand.Sniffer.Assembly.Whole.{CaughtUp, packets_in, Steps-whole}

-- Pieces of streams, by their frames.
abbrev pub wires_in : List (ℕ × List Framed) → List (ℕ × List Wire)
wires_in = map (λ x. (x.0, map (λ m. m.wire) x.1))

-- All frames, in the order of the pieces, each with the flow of its stream.
abbrev pub frames_in : {F : Type 0} → (ℕ → F) → List (ℕ × List Framed) → List (F × Framed)
frames_in net [] = []
frames_in net ((i, ms) ∷ pieces) = on_flow (net i) ms ++ frames_in net pieces

-- The packets without the numbers of their streams.
packets_in-wires_in :
    {F : Type 0} (net : ℕ → F) (pieces : List (ℕ × List Framed))
    → map (λ x. x.1) (packets_in net (wires_in pieces)) ≡ map packet_on (frames_in net pieces)
packets_in-wires_in net [] = refl
packets_in-wires_in net ((i, ms) ∷ pieces) =
    let ws : List Wire = map (λ m. m.wire) ms in
    map-append (λ x. x.1) (packets_of (net i) i ws) (packets_in net (wires_in pieces))
    ∙ ap₂ ◌++◌
        (map-map (λ x. x.1) (λ w. (i, packet_of (net i) w)) ws ∙ sym (packet_on-on_flow (net i) ms))
        (packets_in-wires_in net pieces)
    ∙ sym (map-append packet_on (on_flow (net i) ms) (frames_in net pieces))

module _ {F S : Type 0} (returns : Stream F → Bool) (net : ℕ → F) (z : F)
    (step : Frame F → S → Segment → S) (reset : Reset) (fn : FrameHandler F S)
    (takes : (f : Frame F) → Takes fn f (step f)) where
  -- From the state in front of the loop of `Start`, with any number of streams whose pieces come in any
  -- order: if each piece holds whole frames that fit the reader, every frame fits its fields, is not
  -- compressed with zlib and holds exactly its messages, each message fits its fields and the reader over
  -- its frame, and the handler takes exactly the payload of each, then there are steps behind which the
  -- assembler has given exactly the bytes of these pieces, in order, `Start` is between two captured packets
  -- again, and a reader has received packets on which `ProcessFrames`,
  -- while the sniffer is active, calls the handler with every message of every frame, in the order of
  -- the pieces and with the flow of its stream, and waits for the next packet.
  pub Steps-deliver_from :
      (size : ℕ) (pieces : List (ℕ × List Framed)) (s : S)
      → CaughtUp returns
      → All (λ x. IsPiece reader_size x.1) (wires_in pieces)
      → All (λ x. FramedFits x.1) (frames_in net pieces)
      → (t : Assembly F) × Steps returns true (new_assembly size) t
        × (t.starter ≡ between selecting)
        × (t.handed ≡ map (λ x. (x.0, encode_frames x.1)) (wires_in pieces))
        × (process_frames z reset fn true 0 s (turns (map (λ x. x.1) t.taken))
            ≡ (deliver_from z step s (frames_in net pieces), waiting))
  Steps-deliver_from size pieces s done are fits =
      let (t, steps, back, handed, taken) =
        Steps-whole returns net size (wires_in pieces) done are in
      (
        t,
        steps,
        back,
        handed,
        ap (λ (ps : List (Packet F)). process_frames z reset fn true 0 s (turns ps))
              (ap (map (λ x. x.1)) taken ∙ packets_in-wires_in net pieces)
            ∙ process_frames-encode z step reset fn takes (frames_in net pieces) s fits,
      )
