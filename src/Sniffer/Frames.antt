-- ===== src/Sniffer/Frames.antt =====
-- `NextFrame` on what the reassembler sends, and `ProcessFrames` on a compressed frame.
use zanarkand.Prelude.{
  append-nil, ap, ℕ, zero, suc, ◌<◌, arith, ◌++◌, ◌≡◌, sym, ◌∙◌, Bool, true, List, [], ◌∷◌, length,
  ==_iff, ◌==◌, false, refl,
}
use zanarkand.Io.{IoError, Reader, new_reader}
use zanarkand.Io.View.{stream}
use zanarkand.Error.Printed.{Library, error_text}
use zanarkand.Prelude.Radix.{decimal, show}
use zanarkand.Prelude.Format.{codes}
use zanarkand.Message.{decode_header}
use zanarkand.Message.Wire.{decode_header-is_eof}
use zanarkand.Error.{ok, err, io, Error, decoding_failure, unwrap_method, is_eof}
use zanarkand.Frame.{Frame, zero_frame, compression_zlib}
use zanarkand.Frame.Wire.{
  Wire, WireFits, frame_of, encode_frame, length-encode_frame, decode_frame-encode,
}
use zanarkand.Reassembler.Delivery.{packet_of}
use zanarkand.Sniffer.{
  packet, next_frame, pick_frame, check_length, FrameHandler, Reset, Turn, panicked, process_frames,
  with_frame, with_reader, message_reader, pooled, frame_done, returned, default_size,
  process_messages,
}

-- The frame that the subscriber sees for `w` on the flow `net`.
abbrev pub frame_on : {F : Type 0} → F → F → Wire → Frame F
frame_on z net w = record (frame_of (zero_frame z) w) { flow = net }

-- Once `Start` has set the context, `NextFrame` turns the packet of a frame that fits its fields
-- into that frame, with the flow of its stream.
pub next_frame-packet_of :
    {F : Type 0} (z net : F) (w : Wire)
    → WireFits w
    → next_frame z true (packet (packet_of net w)) ≡ ok (frame_on z net w)
unfolding next_frame pick_frame check_length
next_frame-packet_of z net w h =
    rw (decode_frame-encode (zero_frame z) w [] h) (
      rw
        ((==_iff w.length (length (encode_frame w))).1 (h.length_is ∙ sym (length-encode_frame w))))

-- Where the first frame is marked as compressed with zlib and fits its fields, `ProcessFrames`
-- panics before any message of it is read, whatever the handler, the zlib reader and the rest of
-- the schedule are: the pool is empty.
pub process_frames_zlib :
    {F S : Type 0} (z net : F) (reset : Reset) (fn : FrameHandler F S) (s : S) (w : Wire)
    (active : Bool) (ts : List (Turn F))
    → WireFits w
    → w.compression ≡ compression_zlib
    → process_frames z reset fn true 0 s
        (record { pick = packet (packet_of net w); active = active } ∷ ts)
      ≡ (s, panicked)
unfolding process_frames with_frame with_reader message_reader pooled
process_frames_zlib z net reset fn s w active ts h c = rw (next_frame-packet_of z net w h) (rw c)

-- An error in the messages of a frame ends the loop with it.
pub process_frames_err :
    {F S : Type 0} (z net : F) (reset : Reset) (fn : FrameHandler F S) (s t : S) (w : Wire)
    (e : Error) (active : Bool) (ts : List (Turn F))
    → WireFits w
    → (w.compression == compression_zlib) ≡ false
    → process_messages fn
        (frame_on z net w)
        w.count
        s
        (new_reader default_size (w.body ∷ []) IoError.eof)
      ≡ (t, err e)
    → process_frames z reset fn true 0 s
        (record { pick = packet (packet_of net w); active = active } ∷ ts)
      ≡ (t, returned e)
unfolding process_frames with_frame with_reader message_reader frame_done
process_frames_err z net reset fn s t w e active ts h plain fails =
    rw (next_frame-packet_of z net w h) (rw plain (rw fails refl))

-- A header that cannot be decoded ends the loop over the messages.
process_messages_err :
    {F S : Type 0} (fn : FrameHandler F S) (f : Frame F) (n : ℕ) (s : S) (r : Reader) (e : Error)
    → 0 < n
    → decode_header r ≡ err e
    → process_messages fn f n s r ≡ (s, err (decoding_failure e))
unfolding process_messages
process_messages_err fn f zero s r e h fails = absurd (omega arith)
process_messages_err fn f (suc n) s r e h fails = rw fails refl

-- What `ProcessFrames` returns where the first frame fits its fields, is not compressed with
-- zlib and announces messages, but has a body of less than 16 bytes: the handler is not called, and the error
-- says that a message cannot be decoded
-- and how many bytes of a header there were, up to io.EOF. By its `Unwrap` methods the error leads to io.EOF,
-- but `errors.Is` finds io.EOF neither in it nor in the error of `Decode` in it.
pub process_frames-is_eof :
    {F S : Type 0} (l : Library) (z net : F) (reset : Reset) (fn : FrameHandler F S) (s : S)
    (w : Wire) (active : Bool) (ts : List (Turn F))
    → WireFits w
    → (w.compression == compression_zlib) ≡ false
    → 0 < w.count
    → length w.body < 16
    → (x : Error) × (process_frames z reset fn true 0 s
          (record { pick = packet (packet_of net w); active = active } ∷ ts)
        ≡ (s, returned x))
      × (error_text l x
          ≡ codes "unable to decode message: "
            ++ (codes "not enough data: expected 16 bytes but received "
                ++ (show decimal (length w.body) ++ (codes ": " ++ l.io_text IoError.eof))))
      × (unwrap_method (unwrap_method x) ≡ io IoError.eof)
      × (is_eof (unwrap_method x) ≡ false)
      × (is_eof x ≡ false)
unfolding process_messages unwrap_method is_eof error_text
process_frames-is_eof l z net reset fn s w active ts h plain some_left short =
    let r : Reader = new_reader default_size (w.body ∷ []) IoError.eof in
    let all : stream r ≡ w.body = append-nil w.body in
    let (e, fails, prints, chain, hidden) =
      decode_header-is_eof l r (omega arith) (omega (arith, ap length all)) refl in
    (
      decoding_failure e,
      process_frames_err z net reset fn s s w (decoding_failure e) active ts h plain
          (process_messages_err fn (frame_on z net w) w.count s r e some_left fails),
      ap (◌++◌ (codes "unable to decode message: ")) (
          prints
          ∙ ap
              (λ (n : ℕ).
                codes "not enough data: expected 16 bytes but received "
                ++ (show decimal n ++ (codes ": " ++ l.io_text IoError.eof)))
              (ap length all)),
      chain,
      hidden,
      refl,
    )
