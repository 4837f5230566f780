-- ===== src/Frame.antt =====
-- frame.go: the frame that bundles messages, its decoding, and the search for its magic bytes.
-- `F` stands for `gopacket.Flow`.
pub mod Direction
pub mod Sync
pub mod More
pub mod Wire
pub mod Json
pub mod Text
use zanarkand.Prelude.{
  ℕ, zero, suc, ◌+◌, ◌-◌, ◌*◌, ◌/◌, ◌%◌, ◌^◌, Bool, true, false, ◌||◌, Option, none, some, List, [],
  ◌∷◌, ◌++◌, ltb, ◌==◌, if◌then◌else◌, length, take, drop, get_elem?, map,
}
use zanarkand.Prelude.Int.{ℤ, pos, negsuc}
use zanarkand.Prelude.Bytes.{Bytes, slice, le}
use zanarkand.Io.{IoError, Reader, Peeked, peek, discard}
use zanarkand.Io.View.{stream}
use zanarkand.Error.{Error, no_error, io, not_enough_data, Outcome, ok, err, panic}

abbrev pub frame_header_length : ℕ
frame_header_length = 40

abbrev pub frame_magic_le : ℕ
frame_magic_le = 0xE2465DFF41A05252

abbrev pub compression_none : ℕ
compression_none = 0

abbrev pub compression_zlib : ℕ
compression_zlib = 1

abbrev pub compression_oodle : ℕ
compression_oodle = 2

-- What `Compressor.String` prints.
pub data CompressorName : Type 0 where
  none_name zlib_name oodle_name unknown_name : CompressorName

unfoldable pub compressor_name : ℕ → CompressorName
compressor_name c =
    if c == compression_none
    then none_name
    else if c == compression_zlib
    then zlib_name
    else if c == compression_oodle
    then oodle_name
    else unknown_name

-- `timestamp` is in nanoseconds since the epoch.
pub record Frame (F : Type 0) : Type 0 where
  pub magic : ℕ
  pub timestamp : ℤ
  pub length : ℕ
  pub connection : ℕ
  pub count : ℕ
  pub reserved1 : ℕ
  pub compression : ℕ
  pub reserved2 : ℕ
  pub reserved3 : ℕ
  pub body : Bytes
  pub flow : F

-- `new(Frame)`, over the zero value of `gopacket.Flow`.
abbrev pub zero_frame : {F : Type 0} → F → Frame F
zero_frame z = record {
  magic = 0;
  timestamp = pos 0;
  length = 0;
  connection = 0;
  count = 0;
  reserved1 = 0;
  compression = 0;
  reserved2 = 0;
  reserved3 = 0;
  body = [];
  flow = z;
}

-- The int64 of a bit pattern below 2 ^ 64.
abbrev pub signed64 : ℕ → ℤ
signed64 n = if ltb n (2 ^ 63) then pos n else negsuc (2 ^ 64 - n - 1)

-- `time.Unix(0, 0).Add(time.Duration(ms) * time.Millisecond)`: the product wraps as an int64.
abbrev pub time_of : ℕ → ℤ
time_of ms = signed64 (ms * 1_000_000 % 2 ^ 64)

-- `Timestamp.Unix()`, which rounds towards minus infinity.
abbrev pub unix : ℤ → ℤ
unix (pos n) = pos (n / 1_000_000_000)
unix (negsuc n) = negsuc (n / 1_000_000_000)

-- The assignments of `Decode` before the body.
unfoldable pub set_fields : {F : Type 0} → Frame F → Bytes → Frame F
set_fields f p = record f {
  magic = le (slice 0 8 p);
  timestamp = time_of (le (slice 16 24 p));
  length = le (slice 24 28 p);
  connection = le (slice 28 30 p);
  compression = le (slice 33 34 p);
  count = le (slice 30 32 p);
}

-- `p[frameHeaderLength:f.Length]`; `spare` is what stands behind `p` up to its capacity. Go panics
-- where the end is before the start or past the capacity.
unfoldable pub set_body : {F : Type 0} → Frame F → Bytes → Outcome (Frame F)
set_body f array =
    if ltb f.length frame_header_length || ltb (length array) f.length
    then panic
    else ok (record f { body = slice frame_header_length f.length array })

-- `Frame.Decode` of the slice `p`.
unfoldable pub decode_frame : {F : Type 0} → Frame F → Bytes → Bytes → Outcome (Frame F)
decode_frame f p spare =
    if ltb (length p) frame_header_length
    then err (not_enough_data (pos frame_header_length) (length p) no_error)
    else set_body (set_fields f p) (p ++ spare)

-- What `MarshalJSON` hands to `json.Marshal` beside the frame's exported fields.
pub record FrameJson : Type 0 where
  pub data_ints : List ℕ
  pub unix_seconds : ℤ

-- int32(n)
abbrev pub int32 : ℤ → ℤ
int32 (pos n) = let w = n % 2 ^ 32 in if ltb w (2 ^ 31) then pos w else negsuc (2 ^ 32 - w - 1)
int32 (negsuc n) = let w = n % 2 ^ 32 in if ltb w (2 ^ 31) then negsuc w else pos (2 ^ 32 - w - 1)

pub frame_json : {F : Type 0} → Frame F → FrameJson
frame_json f = record { data_ints = map (λ b. b) f.body; unix_seconds = int32 (unix f.timestamp) }

pub validate_magic : Bytes → Bool
validate_magic header = le header == frame_magic_le

-- One round of the loop of `discardUntilValid`, with what the later rounds give.
synced : Peeked → Option IoError → Bool → Option (Outcome Reader) → Option (Outcome Reader)
synced p (some e) valid more = some (err (io e))
synced p none true more = some (ok p.after)
synced p none false more = more

-- `none` means that the fuel ran out.
discard_loop : ℕ → Reader → Option (Outcome Reader)
unfolding synced
discard_loop zero r = none
discard_loop (suc fuel) r =
    let p = peek (pos 8) r in
    let more = discard_loop fuel (discard 1 p.after) in synced p p.err (validate_magic p.bytes) more

-- Each round takes a byte off the stream, so a round for each byte and one more are enough.
unfoldable pub discard_until_valid : Reader → Option (Outcome Reader)
unfolding discard_loop validate_magic
discard_until_valid r = discard_loop (suc (length (stream r))) r
