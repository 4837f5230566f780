-- ===== src/Sniffer/Pipeline.antt =====
-- From the bytes of a TCP stream to the calls of a handler: the stream's loop, `NextFrame` and
-- `ProcessFrames` together.
use zanarkand.Prelude.{
  ℕ, ◌<◌, ◌≡◌, refl, sym, ap, ◌∙◌, subst, true, false, List, [], ◌∷◌, ◌++◌, ◌==◌, length, map, All,
  arith,
}
use zanarkand.Prelude.Bytes.{Bytes}
use zanarkand.Io.{IoError, Reader, new_reader, size}
use zanarkand.Io.Fill.{size-new}
use zanarkand.Error.{ok}
use zanarkand.Frame.{Frame, compression_zlib}
use zanarkand.Frame.Wire.{Wire, WireFits}
use zanarkand.Reassembler.{Packet, Run, run, reader_size}
use zanarkand.Reassembler.Delivery.{packet_of}
use zanarkand.Reassembler.Pieces.{IsPiece, encode_frames, all_frames, run-delivers_pieces}
use zanarkand.Sniffer.{
  FrameHandler, Reset, Turn, packet, waiting, default_size, message_reader, process_messages,
  frame_done, with_reader, with_frame, process_frames,
}
use zanarkand.Sniffer.Frames.{frame_on, next_frame-packet_of}
use zanarkand.Sniffer.Messages.{
  Segment, SegmentFits, encode_segments, fold_segments, Takes, process_messages-encode,
}

-- A frame with the messages in it.
pub record Framed : Type 0 where
  pub wire : Wire
  pub segments : List Segment

-- A frame that is not compressed with zlib, and holds exactly its messages.
pub record FramedFits (m : Framed) : Type 0 where
  pub wire_fits : WireFits m.wire
  pub plain : (m.wire.compression == compression_zlib) ≡ false
  pub body_is : m.wire.body ≡ encode_segments m.segments
  pub count_is : m.wire.count ≡ length m.segments
  pub segments_fit : All (SegmentFits default_size) m.segments

-- A schedule that picks these packets while the sniffer is active.
abbrev pub turns : {F : Type 0} → List (Packet F) → List (Turn F)
turns = map (λ p. record { pick = packet p; active = true })

pub map-map :
    {A B C : Type 0} (f : B → C) (g : A → B) (xs : List A)
    → map f (map g xs) ≡ map (λ x. f (g x)) xs
map-map f g [] = refl
map-map f g (x ∷ xs) = ap (◌∷◌ (f (g x))) (map-map f g xs)

-- A frame that fits, of a stream with this flow.
abbrev pub packet_on : {F : Type 0} → F × Framed → Packet F
packet_on (net, m) = packet_of net m.wire

module _ {F S : Type 0} (z : F) (step : Frame F → S → Segment → S) where
  -- All messages of all frames, one by one, each frame with the flow of its stream.
  abbrev pub deliver_from : S → List (F × Framed) → S
  deliver_from s [] = s
  deliver_from s ((net, m) ∷ ms) =
      deliver_from (fold_segments (step (frame_on z net m.wire)) s m.segments) ms

  module _ (reset : Reset) (fn : FrameHandler F S)
      (takes : (f : Frame F) → Takes fn f (step f)) where
    -- Over the packets of such frames, `ProcessFrames` calls the handler with every message.
    pub process_frames-encode :
        (ms : List (F × Framed)) (s : S)
        → All (λ x. FramedFits x.1) ms
        → process_frames z reset fn true 0 s (turns (map packet_on ms))
          ≡ (deliver_from s ms, waiting)
    unfolding process_frames with_frame with_reader message_reader frame_done
    process_frames-encode [] s h = refl
    process_frames-encode ((net, m) ∷ ms) s (h, hs) =
        let f : Frame F = frame_on z net m.wire in
        let r : Reader = new_reader default_size (m.wire.body ∷ []) IoError.eof in
        let same : size r ≡ default_size = size-new default_size (m.wire.body ∷ []) IoError.eof in
        let (t, p, _) =
          process_messages-encode fn f (step f) m.segments s [] r (takes f) (omega (arith, same))
            (subst (λ k. All (SegmentFits k) m.segments) (sym same) h.segments_fit)
            (ap (λ (b : Bytes). b ++ []) h.body_is) in
        let all : process_messages fn f m.wire.count s r
            ≡ (fold_segments (step f) s m.segments, ok t) =
          ap (λ n. process_messages fn f n s r) h.count_is ∙ p in
        rw (next_frame-packet_of z net m.wire h.wire_fits) (
          rw h.plain (
            rw all
              (rw h.plain (process_frames-encode ms (fold_segments (step f) s m.segments) hs))))

-- Frames of one stream.
abbrev pub on_flow : {F : Type 0} → F → List Framed → List (F × Framed)
on_flow net = map (λ m. (net, m))

pub packet_on-on_flow :
    {F : Type 0} (net : F) (ms : List Framed)
    → map packet_on (on_flow net ms) ≡ map (packet_of net) (map (λ m. m.wire) ms)
packet_on-on_flow net ms =
    map-map packet_on (λ m. (net, m)) ms ∙ sym (map-map (packet_of net) (λ m. m.wire) ms)

All-on_flow :
    {F : Type 0} (net : F) (ms : List Framed)
    → All FramedFits ms
    → All (λ x. FramedFits x.1) (on_flow net ms)
All-on_flow net [] hs = tt
All-on_flow net (m ∷ ms) (h, hs) = (h, All-on_flow net ms hs)

module _ {F S : Type 0} (z net : F) (step : Frame F → S → Segment → S) where
  abbrev pub deliver_all : S → List Framed → S
  deliver_all s ms = deliver_from z step s (on_flow net ms)

  module _ (reset : Reset) (fn : FrameHandler F S)
      (takes : (f : Frame F) → Takes fn f (step f)) where
    -- On a TCP stream whose pieces each hold whole frames that fit the reader, from the reader that the
    -- code starts with: if every frame fits its fields, is not compressed with zlib and holds exactly its
    -- messages, each message fits its fields and the reader over its frame, and the handler takes exactly
    -- the payload of each, then `ProcessFrames`, on the packets that the stream's loop sends in a round
    -- for each frame and one more, while the sniffer is active, calls the handler with every message of
    -- every frame, in order, and waits for the next packet.
    pub process_frames-run :
        (ms : List Framed) (pieces : List (List Wire)) (e : IoError) (fuel : ℕ) (s : S)
        → map (λ m. m.wire) ms ≡ all_frames pieces
        → All FramedFits ms
        → All (IsPiece reader_size) pieces
        → length (all_frames pieces) < fuel
        → process_frames z reset fn true 0 s
            (turns (run net fuel (new_reader reader_size (map encode_frames pieces) e)).packets)
          ≡ (deliver_all s ms, waiting)
    process_frames-run ms pieces e fuel s same fits are k =
        let sent : (run net fuel (new_reader reader_size (map encode_frames pieces) e)).packets
            ≡ map packet_on (on_flow net ms) =
          ap (λ (x : Run F). x.packets)
            (run-delivers_pieces net reader_size pieces e fuel (omega arith) are k)
          ∙ ap (map (packet_of net)) (sym same)
          ∙ sym (packet_on-on_flow net ms) in
        ap (λ (ps : List (Packet F)). process_frames z reset fn true 0 s (turns ps)) sent
        ∙ process_frames-encode z step reset fn takes (on_flow net ms) s (All-on_flow net ms fits)
