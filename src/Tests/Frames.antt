-- ===== src/Tests/Frames.antt =====
-- frame.go
use zanarkand.Frame.{decode_frame, set_fields, discard_until_valid}
use zanarkand.Prelude.{◌≡◌, ◌<◌, ◌≤◌, ◌+◌, ◌⊎◌, ◌↔◌, true, [], ◌∷◌, ◌++◌, arith, length}
use zanarkand.Prelude.Int.{pos}
use zanarkand.Prelude.Bytes.{Bytes, slice, le}
use zanarkand.Io.{Reader}
use zanarkand.Error.{ok, err, panic, not_enough_data, no_error}
use zanarkand.Frame.Wire.{encode_frame, frame_of, decode_frame-encode, Announces, decode_frame_lem}
use zanarkand.Frame.Sync.{Sync, discard_until_valid-Sync}
use zanarkand.Frame.Direction.{is_private, v4, IsPrivateV4, is_private_v4}
use zanarkand.Tests.Data.{buffered, plain_wire, no_frame, plain_fits}

decode_frame-encode_example :
    decode_frame no_frame (encode_frame plain_wire) (1 ∷ []) ≡ ok (frame_of no_frame plain_wire)
decode_frame-encode_example = decode_frame-encode no_frame plain_wire (1 ∷ []) plain_fits

abbrev two_bytes : Bytes
two_bytes = 1 ∷ 2 ∷ []

decode_frame_lem_example :
    ((length two_bytes < 40)
      × (decode_frame no_frame two_bytes []
          ≡ err (not_enough_data (pos 40) (length two_bytes) no_error)))
    ⊎ ((40 ≤ length two_bytes)
        × ((le (slice 24 28 two_bytes) < 40) ⊎ (length two_bytes + 0 < le (slice 24 28 two_bytes)))
        × (decode_frame no_frame two_bytes [] ≡ panic))
    ⊎ (Announces two_bytes [] (le (slice 24 28 two_bytes))
        × (decode_frame no_frame two_bytes []
            ≡ ok (record (set_fields no_frame two_bytes) {
              body = slice 40 (le (slice 24 28 two_bytes)) (two_bytes ++ []);
            })))
decode_frame_lem_example = decode_frame_lem no_frame two_bytes []

-- Two stray bytes in front of a frame.
abbrev at_stray : Reader
at_stray = buffered (1 ∷ 2 ∷ encode_frame plain_wire) 20

discard_until_valid-Sync_example : Sync at_stray (discard_until_valid at_stray)
unfolding encode_frame
discard_until_valid-Sync_example = discard_until_valid-Sync at_stray (omega arith)

is_private_v4_example : (is_private (v4 192 168 0 1) ≡ true) ↔ IsPrivateV4 192 168 0
is_private_v4_example =
    is_private_v4 192 168 0 1 (omega arith) (omega arith) (omega arith) (omega arith)
