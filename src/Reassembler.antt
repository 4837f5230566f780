-- ===== src/Reassembler.antt =====
-- reassembler.go: `frameStream.run`, which cuts one TCP stream into frames, and the error channel.
-- `F` stands for `gopacket.Flow`. A send on `dataCh` waits until there is room, so what is sent is the
-- list of packets in their order.
pub mod Reading
pub mod Rounds
pub mod Delivery
pub mod Buffered
pub mod Pieces
pub mod More
pub mod Faults
pub mod Streams
use zanarkand.Prelude.{
  ◌*◌, ℕ, zero, suc, Option, none, some, List, [], ◌∷◌, ◌++◌, ltb, ◌==◌, if◌then◌else◌, length,
}
use zanarkand.Prelude.Int.{pos}
use zanarkand.Prelude.Bytes.{Bytes, slice, le}
use zanarkand.Io.{IoError, Reader, Peeked, peek, Filled, read, new_reader}
use zanarkand.Error.{
  Error, Text, syncing, peeking, reading, less_read, io, text, wrapped, reassembly_error, Outcome,
  ok, err, panic,
}
use zanarkand.Frame.{frame_header_length, discard_until_valid}

-- `reassembledPacket`
pub record Packet (F : Type 0) : Type 0 where
  pub body : Bytes
  pub flow : F

-- What one round of the loop does: a packet sent and the reader behind it, or an error reported and
-- the loop left. `stuck` is no behaviour of the code: the search for the magic bytes ran out of fuel.
pub data Round (F : Type 0) : Type 0 where
  sent : Packet F → Reader → Round F
  stopped : Error → Round F
  stuck : Round F

module _ {F : Type 0} (net : F) where
  -- The tests after `reader.Read(data)`, where `data` has `n` bytes.
  send : ℕ → Filled → Option IoError → Round F
  send n q (some e) = stopped (wrapped (reading n) (io e))
  send n q none =
      if length q.bytes == n
      then sent (record { body = q.bytes; flow = net }) q.after
      else stopped (text (less_read (length q.bytes) n))

  -- `data := make([]byte, int(length))` and the read into it.
  pub read_frame : ℕ → Reader → Round F
  read_frame n r = let q = read n r in send n q q.err

  take_frame : Peeked → Option IoError → Round F
  take_frame p (some e) = stopped (wrapped peeking (io e))
  take_frame p none = read_frame (le (slice 24 28 p.bytes)) p.after

  pub after_sync : Option (Outcome Reader) → Round F
  after_sync (some (ok r)) = let p = peek (pos frame_header_length) r in take_frame p p.err
  after_sync (some (err e)) = stopped (wrapped syncing e)
  after_sync _ = stuck

  pub round : Reader → Round F
  round r = after_sync (discard_until_valid r)

-- The packets sent so far, and the error that ended the loop; `none` while it goes on.
pub record Run (F : Type 0) : Type 0 where
  pub packets : List (Packet F)
  pub ended : Option Error

add_packet : {F : Type 0} → Packet F → Run F → Run F
add_packet p s = record s { packets = p ∷ s.packets }

-- What the loop does after a round, with what its later rounds do.
after_round : {F : Type 0} → (Reader → Run F) → Round F → Run F
after_round later (sent p r) = add_packet p (later r)
after_round later (stopped e) = record { packets = []; ended = some e }
after_round later stuck = record { packets = []; ended = none }

-- `frameStream.run` for `fuel` rounds.
pub run : {F : Type 0} → F → ℕ → Reader → Run F
run net zero r = record { packets = []; ended = none }
run net (suc fuel) r = after_round (run net fuel) (round net r)

-- `bufio.NewReaderSize(&f.r, 128*1024)` over the stream's reassembled pieces.
abbrev pub reader_size : ℕ
reader_size = 128 * 1024

-- The error channel, with its capacity and what is in it.
pub record ErrorChannel : Type 0 where
  pub capacity : ℕ
  pub queue : List Error

-- `reportError`: a send that drops the error where the channel is nil, or full. No reader waits on it.
unfoldable pub report_error : Option ErrorChannel → Error → Option ErrorChannel
report_error none e = none
report_error (some c) e =
    if ltb (length c.queue) c.capacity
    then some (record c { queue = c.queue ++ (reassembly_error e ∷ []) })
    else some c
