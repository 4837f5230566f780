-- ===== src/Tests/Interleaving.antt =====
-- Two streams on one channel.
use zanarkand.Prelude.{update, ℕ, ◌≤◌, ◌≡◌, refl, List, [], ◌∷◌, map, All, arith}
use zanarkand.Prelude.Bytes.{Bytes}
use zanarkand.Io.{IoError, Reader, new_reader}
use zanarkand.Frame.Wire.{Wire, encode_frame}
use zanarkand.Reassembler.{Packet, run, reader_size}
use zanarkand.Reassembler.Reading.{IsFrame}
use zanarkand.Reassembler.Delivery.{delivers, packet_of}
use zanarkand.Reassembler.Pieces.{
  IsPiece, encode_frames, all_frames, run-delivers_pieces, round_first,
}
use zanarkand.Reassembler.Streams.{
  System, open_stream, send, receive, Reach, start, next, live, initial,
}
use zanarkand.Sniffer.Handover.{Handed, Reach-Handed}
use zanarkand.Tests.Data.{plain_wire, zlib_wire, flow, zero_flow}

plain-IsFrame : IsFrame plain_wire
plain-IsFrame = omega arith

zlib-IsFrame : IsFrame zlib_wire
zlib-IsFrame = omega arith

abbrev both : List Wire
both = plain_wire ∷ zlib_wire ∷ []

both-IsPiece : (n : ℕ) → 84 ≤ n → IsPiece n both
unfolding encode_frame
both-IsPiece n h = (λ k. cc, omega arith, (plain-IsFrame, (zlib-IsFrame, tt)))

abbrev pieces : List (List Wire)
pieces = both ∷ both ∷ []

run-delivers_pieces_example :
    run 4 5 (new_reader 200 (map encode_frames pieces) IoError.eof)
    ≡ delivers {F = ℕ} 4 (all_frames pieces) IoError.eof
run-delivers_pieces_example =
    run-delivers_pieces 4 200 pieces IoError.eof 5 (omega arith)
      (both-IsPiece 200 (omega arith), (both-IsPiece 200 (omega arith), tt)) (omega arith)

abbrev reader : Reader
reader = new_reader reader_size (map encode_frames pieces) IoError.eof

abbrev after : Reader
after =
    (round_first flow reader_size plain_wire (zlib_wire ∷ []) (map encode_frames (both ∷ []))
      IoError.eof (omega arith) (both-IsPiece reader_size (omega arith))).0

abbrev opened_one : System (Bytes × Bytes)
opened_one = record (initial 200 1) {
  streams = update (initial {F = Bytes × Bytes} 200 1).streams 0 (live flow reader reader);
  opened = 1;
}

abbrev sent_one : System (Bytes × Bytes)
sent_one = record opened_one {
  streams = update opened_one.streams 0 (live flow reader after);
  queue = (0, packet_of flow plain_wire) ∷ [];
}

abbrev received_one : System (Bytes × Bytes)
received_one = record sent_one { queue = []; received = (0, packet_of flow plain_wire) ∷ [] }

reached : Reach 200 1 received_one
reached =
    next
      (next (next start (open_stream flow (map encode_frames pieces) IoError.eof)) (
        send 0 refl
          (round_first flow reader_size plain_wire (zlib_wire ∷ []) (map encode_frames (both ∷ []))
            IoError.eof (omega arith) (both-IsPiece reader_size (omega arith))).1
          (omega arith)))
      (receive refl)

Reach-Handed_example :
    All (λ (x : ℕ × Packet (Bytes × Bytes)). Handed zero_flow x.1) received_one.received
Reach-Handed_example = Reach-Handed zero_flow reached
