-- ===== src/Subscriber/Pipeline.antt =====
-- From the bytes of a TCP stream to the channels of `GameEventSubscriber`: the stream's loop, `NextFrame`,
-- `ProcessFrames` and the handler together.
use zanarkand.Prelude.{
  not, ◌⊎◌, ℕ, suc, ◌+◌, ◌-◌, ◌*◌, ◌<◌, ◌≡◌, sym, ap, ◌∙◌, true, false, List, [], ◌∷◌, ◌++◌, ◌==◌,
  length, map, All, arith, append-nil,
}
use zanarkand.Prelude.Int.{pos}
use zanarkand.Prelude.Bytes.{Bytes}
use zanarkand.Io.{IoError, Reader, new_reader}
use zanarkand.Io.Fill.{size-new}
use zanarkand.Error.{Error, io, not_enough_data, decoding_failure, err}
use zanarkand.Sniffer.Start.{is_active}
use zanarkand.Subscriber.Subscribe.{subscribe_game_events, subscribe_keepalives}
use zanarkand.Subscriber.Keepalives.{process_messages-encode_keepalive}
use zanarkand.Message.Keepalive.{encode_keepalive, KeepaliveFits}
use zanarkand.Message.{KeepaliveMessage, server_ping, server_pong, game_event, GameEventMessage}
use zanarkand.Message.GameEvent.{encode_game_event, GameEventFits}
use zanarkand.Frame.{Frame, compression_zlib}
use zanarkand.Frame.Wire.{Wire, WireFits}
use zanarkand.Frame.Direction.{Ip}
use zanarkand.Reassembler.{Packet, Run, run, reader_size}
use zanarkand.Reassembler.Delivery.{packet_of}
use zanarkand.Reassembler.Pieces.{IsPiece, encode_frames, all_frames, run-delivers_pieces}
use zanarkand.Sniffer.{
  SnifferState, FrameHandler, Ended, Reset, returned, default_size, process_messages,
  process_frames,
}
use zanarkand.Sniffer.Frames.{frame_on, process_frames_err}
use zanarkand.Sniffer.Pipeline.{turns}
use zanarkand.Subscriber.{Channel, keepalive_subscribe, GameEventSubscriber, game_event_subscribe}
use zanarkand.Subscriber.GameEvents.{process_messages-encode_game_event}

-- An error in the first frame of a stream ends the loop.
process_frames-first :
    {F S : Type 0} (z net : F) (reset : Reset) (fn : FrameHandler F S) (s t : S) (w : Wire)
    (ws : List Wire) (x : Error) (pieces : List (List Wire)) (e : IoError) (fuel : ℕ)
    → w ∷ ws ≡ all_frames pieces
    → WireFits w
    → (w.compression == compression_zlib) ≡ false
    → process_messages fn
        (frame_on z net w)
        w.count
        s
        (new_reader default_size (w.body ∷ []) IoError.eof)
      ≡ (t, err x)
    → All (IsPiece reader_size) pieces
    → length (all_frames pieces) < fuel
    → process_frames z reset fn true 0 s
        (turns (run net fuel (new_reader reader_size (map encode_frames pieces) e)).packets)
      ≡ (t, returned x)
process_frames-first {F} z net reset fn s t w ws x pieces e fuel same fits plain fails are k =
    let sent : (run net fuel (new_reader reader_size (map encode_frames pieces) e)).packets
        ≡ map (packet_of net) (w ∷ ws) =
      ap (λ (y : Run F). y.packets)
        (run-delivers_pieces net reader_size pieces e fuel (omega arith) are k)
      ∙ ap (map (packet_of net)) (sym same) in
    ap (λ (ps : List (Packet F)). process_frames z reset fn true 0 s (turns ps)) sent
    ∙ process_frames_err z net reset fn s t w x true (turns (map (packet_of net) ws)) fits plain
        fails

-- A frame that is not compressed with zlib, with a game event as its first message.
pub record EventFrame (w : Wire) (m : GameEventMessage) : Type 0 where
  pub wire_fits : WireFits w
  pub plain : (w.compression == compression_zlib) ≡ false
  pub rest : Bytes
  pub body_is : w.body ≡ encode_game_event m ++ rest
  pub some_messages : 0 < w.count
  pub fits : GameEventFits m
  pub segment_is : m.header.segment ≡ game_event
  pub has_opcode : 0 < m.opcode

-- How the decoding of a message ends whose IPC header is taken for a length.
abbrev pub taken_for_length : GameEventMessage → ℕ → Error
taken_for_length m got =
    decoding_failure
      (not_enough_data (pos (m.reserved + 65536 * m.opcode - 16)) got (io IoError.buffer_full))

module _ {F : Type 0} (src_ip dst_ip : F → Ip) (z net : F) (reset : Reset) where
  process_messages-EventFrame :
      (g : GameEventSubscriber) (f : Frame F) (w : Wire) (m : GameEventMessage)
      → EventFrame w m
      → (got : ℕ) × (process_messages
            (game_event_subscribe src_ip dst_ip)
            f
            w.count
            g
            (new_reader default_size (w.body ∷ []) IoError.eof)
          ≡ (g, err (taken_for_length m got)))
  process_messages-EventFrame g f w m h =
      let r : Reader = new_reader default_size (w.body ∷ []) IoError.eof in
      let (got, p) =
        process_messages-encode_game_event src_ip dst_ip f g (w.count - 1) m h.rest r h.fits
          h.segment_is h.has_opcode (size-new default_size (w.body ∷ []) IoError.eof)
          (append-nil w.body ∙ h.body_is) in
      let n : w.count ≡ suc (w.count - 1) = omega (arith, h.some_messages) in
      (got, ap (λ k. process_messages (game_event_subscribe src_ip dst_ip) f k g r) n ∙ p)

  -- On a TCP stream whose pieces each hold whole frames that fit the reader, from the reader that the
  -- code starts with: if the first frame fits its fields, is not compressed with zlib and starts with a game
  -- event that fits its fields and has an opcode other than 0, then `Subscribe` of `GameEventSubscriber`,
  -- behind the start of the sniffer and on the packets that the stream's loop sends in a round for each frame
  -- and one more, while the sniffer is active, returns a decoding error, and neither this message nor any
  -- later one is delivered, whatever the direction, the filter and the channels are.
  pub subscribe_game_events-encode :
      (found : SnifferState) (g : GameEventSubscriber) (w : Wire) (ws : List Wire)
      (m : GameEventMessage) (pieces : List (List Wire)) (e : IoError) (fuel : ℕ)
      → w ∷ ws ≡ all_frames pieces
      → EventFrame w m
      → All (IsPiece reader_size) pieces
      → length (all_frames pieces) < fuel
      → (got : ℕ) × (subscribe_game_events z reset found true src_ip dst_ip g
            (turns (run net fuel (new_reader reader_size (map encode_frames pieces) e)).packets)
          ≡ record {
            spawned = not (is_active found);
            state = g;
            ended = returned (taken_for_length m got);
          })
  unfolding subscribe_game_events
  subscribe_game_events-encode found g w ws m pieces e fuel same h are k =
      let (got, p) = process_messages-EventFrame g (frame_on z net w) w m h in
      (
        got,
        ap
            (λ (x : GameEventSubscriber × Ended). record {
              spawned = not (is_active found);
              state = x.0;
              ended = x.1;
            })
            (process_frames-first z net reset (game_event_subscribe src_ip dst_ip) g g w ws
              (taken_for_length m got) pieces e fuel same h.wire_fits h.plain p are k),
      )

-- A frame that is not compressed with zlib, and holds one keepalive of 24 bytes.
pub record KeepaliveFrame (w : Wire) (m : KeepaliveMessage) : Type 0 where
  pub wire_fits : WireFits w
  pub plain : (w.compression == compression_zlib) ≡ false
  pub body_is : w.body ≡ encode_keepalive m
  pub some_messages : 0 < w.count
  pub fits : KeepaliveFits m
  pub segment_is : (m.header.segment ≡ server_ping) ⊎ (m.header.segment ≡ server_pong)

process_messages-KeepaliveFrame :
    {F : Type 0} (k : Channel KeepaliveMessage) (f : Frame F) (w : Wire) (m : KeepaliveMessage)
    → KeepaliveFrame w m
    → process_messages keepalive_subscribe f w.count k
        (new_reader default_size (w.body ∷ []) IoError.eof)
      ≡ (k, err (decoding_failure (not_enough_data (pos 16) 8 (io IoError.eof))))
process_messages-KeepaliveFrame k f w m h =
    let r : Reader = new_reader default_size (w.body ∷ []) IoError.eof in
    let n : w.count ≡ suc (w.count - 1) = omega (arith, h.some_messages) in
    ap (λ j. process_messages keepalive_subscribe f j k r) n
    ∙ process_messages-encode_keepalive f k (w.count - 1) m r h.fits h.segment_is
        (omega (arith, size-new default_size (w.body ∷ []) IoError.eof))
        (append-nil w.body ∙ h.body_is)

-- Likewise, if the first frame fits its fields, is not compressed with zlib and holds one keepalive that fits
-- its fields, then `Subscribe` of `KeepaliveSubscriber` returns a decoding error that says that 8 of 16 bytes
-- were there before io.EOF, and no keepalive is delivered: on a TCP stream whose pieces each hold whole
-- frames that fit the reader, from the reader that the code starts with, behind the start of the sniffer,
-- on the packets that the stream's loop sends in a round for each frame and one more, while the sniffer
-- is active.
pub subscribe_keepalives-encode :
    {F : Type 0} (z net : F) (reset : Reset) (found : SnifferState) (k : Channel KeepaliveMessage)
    (w : Wire) (ws : List Wire) (m : KeepaliveMessage) (pieces : List (List Wire)) (e : IoError)
    (fuel : ℕ)
    → w ∷ ws ≡ all_frames pieces
    → KeepaliveFrame w m
    → All (IsPiece reader_size) pieces
    → length (all_frames pieces) < fuel
    → subscribe_keepalives z reset found true k
        (turns (run net fuel (new_reader reader_size (map encode_frames pieces) e)).packets)
      ≡ record {
        spawned = not (is_active found);
        state = k;
        ended = returned (decoding_failure (not_enough_data (pos 16) 8 (io IoError.eof)));
      }
unfolding subscribe_keepalives
subscribe_keepalives-encode z net reset found k w ws m pieces e fuel same h are n =
    ap
      (λ (x : Channel KeepaliveMessage × Ended). record {
        spawned = not (is_active found);
        state = x.0;
        ended = x.1;
      })
      (process_frames-first z net reset keepalive_subscribe k k w ws
        (decoding_failure (not_enough_data (pos 16) 8 (io IoError.eof))) pieces e fuel same
        h.wire_fits h.plain (process_messages-KeepaliveFrame k (frame_on z net w) w m h) are n)
