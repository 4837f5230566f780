-- ===== src/Tests/Streams.antt =====
-- reassembler.go
use zanarkand.Prelude.{
  ℕ, ◌≡◌, refl, [], ◌∷◌, ◌++◌, All, none, arith, drop, length-drop, replicate, zero, suc,
}
use zanarkand.Prelude.Bytes.{Bytes}
use zanarkand.Io.{Reader, eof, new_reader}
use zanarkand.Error.{Error, text, less_read, reassembly_error}
use zanarkand.Frame.Wire.{encode_frame}
use zanarkand.Frame.Sync.{IsSynced}
use zanarkand.Reassembler.{run, ErrorChannel}
use zanarkand.Reassembler.Reading.{Quiet, IsFrame}
use zanarkand.Reassembler.Faults.{run_empty, IsCut, run-IsCut}
use zanarkand.Sniffer.{default_size}
use zanarkand.Tests.Data.{buffered, plain_wire, zlib_wire}

abbrev net : ℕ
net = 4

-- A stray byte, two frames and a stray byte.
abbrev two_frames : Reader
two_frames = buffered (1 ∷ (encode_frame plain_wire ++ (encode_frame zlib_wire ++ (9 ∷ [])))) 20

abbrev tail : Bytes
tail = 9 ∷ []

Quiet-tail : (j : ℕ) → ¬ IsSynced (drop j tail)
Quiet-tail j k = omega (arith, length-drop j tail, k.0)

plain-IsFrame : IsFrame plain_wire
plain-IsFrame = omega arith

zlib-IsFrame : IsFrame zlib_wire
zlib-IsFrame = omega arith

Quiet-start : Quiet (1 ∷ []) (encode_frame plain_wire ++ (encode_frame zlib_wire ++ (9 ∷ [])))
unfolding encode_frame
Quiet-start zero h k = omega (arith, k.1)
Quiet-start (suc j) h k = absurd (omega arith)

run-IsCut_example : All (IsCut net) (run net 3 two_frames).packets
unfolding encode_frame
run-IsCut_example = run-IsCut net 3 two_frames (omega arith)

-- A frame that announces no bytes.
abbrev at_zero : Reader
at_zero = buffered (encode_frame record plain_wire { length = 0 }) 20

run_empty_example :
    run net 3 at_zero
    ≡ record { packets = replicate 3 (record { body = []; flow = net }); ended = none }
unfolding encode_frame
run_empty_example = run_empty net 3 at_zero (omega arith) (omega arith) (omega arith, refl) refl

-- The first 41 of a frame's 42 bytes, and the last one behind them.
abbrev first_part : Bytes
first_part = encode_frame record plain_wire { body = 7 ∷ [] }

abbrev at_split : Reader
at_split = new_reader default_size (first_part ∷ (8 ∷ []) ∷ []) eof

abbrev full_channel : ErrorChannel
full_channel = record { capacity = 1; queue = reassembly_error (text (less_read 1 2)) ∷ [] }

abbrev some_error : Error
some_error = text (less_read 3 4)
