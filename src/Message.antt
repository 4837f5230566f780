-- ===== src/Message.antt =====
-- message.go: the generic header of a segment, and the two messages that are decoded.
-- A uint16 or uint32 is a number below 2 ^ 16 or 2 ^ 32. A `Timestamp` made by `time.Unix(n, 0)` is n.
pub mod Wire
pub mod Body
pub mod GameEvent
pub mod Cases
pub mod Borrowed
pub mod Sharing
pub mod Json
pub mod Texts
pub mod Keepalive
use zanarkand.Prelude.{
  ℕ, ◌+◌, ◌-◌, ◌<◌, Option, none, some, List, [], ◌∷◌, ◌++◌, ltb, leb, if◌then◌else◌, length, take,
  drop, ◌%◌,
}
use zanarkand.Prelude.Int.{ℤ, pos, sub_ℕ}
use zanarkand.Prelude.Bytes.{Bytes, slice, le}
use zanarkand.Io.{IoError, Reader, Peeked, peek, discard}
use zanarkand.Error.{Error, io, not_enough_data, Outcome, ok, err, panic, ◌>>=◌}

-- The segment types.
abbrev pub session_init : ℕ
session_init = 1

abbrev pub session_recv : ℕ
session_recv = 2

abbrev pub game_event : ℕ
game_event = 3

abbrev pub server_ping : ℕ
server_ping = 7

abbrev pub server_pong : ℕ
server_pong = 8

abbrev pub encrypt_init : ℕ
encrypt_init = 9

abbrev pub encrypt_recv : ℕ
encrypt_recv = 10

pub record GenericHeader : Type 0 where
  pub length : ℕ
  pub source_actor : ℕ
  pub target_actor : ℕ
  pub segment : ℕ
  pub padding : ℕ

abbrev pub zero_header : GenericHeader
zero_header = record { length = 0; source_actor = 0; target_actor = 0; segment = 0; padding = 0 }

-- The fields of the 16 bytes of a header.
abbrev pub header_of : Bytes → GenericHeader
header_of p = record {
  length = le (slice 0 4 p);
  source_actor = le (slice 4 8 p);
  target_actor = le (slice 8 12 p);
  segment = le (slice 12 14 p);
  padding = le (slice 14 16 p);
}

-- The error that both kinds of `Decode` make of a `Peek` for `n` bytes that failed.
abbrev pub short_peek : ℤ → Peeked → IoError → Error
short_peek n p e = not_enough_data n (length p.bytes) (io e)

-- The test of the error that `Peek` gave: the error return, or the code behind it.
abbrev pub checked {ℓ} : {A : Type ℓ} → ℤ → Peeked → Option IoError → Outcome A → Outcome A
checked n p (some e) next = err (short_peek n p e)
checked n p none next = next

-- `GenericHeader.Decode`. It sets every field, so the old value of the receiver is not read.
unfoldable pub decode_header : Reader → Outcome (GenericHeader × Reader)
decode_header r =
    let p = peek (pos 16) r in checked (pos 16) p p.err (ok (header_of p.bytes, discard 16 p.after))

-- `reserved` to `body` of `GameEventMessage`.
pub record GameEventMessage : Type 0 where
  pub header : GenericHeader
  pub reserved : ℕ
  pub opcode : ℕ
  pub padding2 : ℕ
  pub server_id : ℕ
  pub timestamp : ℕ
  pub padding3 : ℕ
  pub body : Bytes

-- `Reset`
abbrev pub zero_game_event : GameEventMessage
zero_game_event = record {
  header = zero_header;
  reserved = 0;
  opcode = 0;
  padding2 = 0;
  server_id = 0;
  timestamp = 0;
  padding3 = 0;
  body = [];
}

-- The assignments of `Decode` to the message `m`; `padding2` and `padding3` keep their old values.
abbrev pub set_game_event : GameEventMessage → GenericHeader → Bytes → GameEventMessage
set_game_event m h p = record m {
  header = h;
  reserved = le (slice 0 2 p);
  opcode = le (slice 2 4 p);
  server_id = le (slice 6 8 p);
  timestamp = le (slice 8 12 p);
  body = drop 16 p;
}

-- The rest of `GameEventMessage.Decode`, behind the header. `data[16:]` panics on a shorter slice.
pub game_event_body :
    GameEventMessage → GenericHeader → Reader → Outcome (GameEventMessage × Reader)
game_event_body m h r =
    let remaining = sub_ℕ h.length 16 in
    let p = peek remaining r in
    checked remaining p p.err (
      if ltb (length p.bytes) 16
      then panic
      else ok (set_game_event m h p.bytes, discard (length p.bytes) p.after))

-- `GameEventMessage.Decode`
unfoldable pub decode_game_event : GameEventMessage → Reader → Outcome (GameEventMessage × Reader)
unfolding game_event_body
decode_game_event m r = do (h, r') ← decode_header r; game_event_body m h r'

pub record KeepaliveMessage : Type 0 where
  pub header : GenericHeader
  pub id : ℕ
  pub timestamp : ℕ

-- `Reset`
abbrev pub zero_keepalive : KeepaliveMessage
zero_keepalive = record { header = zero_header; id = 0; timestamp = 0 }

-- The rest of `KeepaliveMessage.Decode`. `data[0:4]` and `data[4:8]` may reach past the slice, up to
-- its capacity: into the buffer's array behind it.
keepalive_body : GenericHeader → Reader → Outcome (KeepaliveMessage × Reader)
keepalive_body h r =
    let remaining = sub_ℕ h.length 16 in
    let p = peek remaining r in
    let array = p.bytes ++ p.spare in
    checked remaining p p.err (
      if ltb (length array) 8
      then panic
      else ok (
        record { header = h; id = le (slice 0 4 array); timestamp = le (slice 4 8 array) },
        discard (length p.bytes) p.after,
      ))

-- `KeepaliveMessage.Decode`. It sets every field.
unfoldable pub decode_keepalive : Reader → Outcome (KeepaliveMessage × Reader)
unfolding keepalive_body
decode_keepalive r = do (h, r') ← decode_header r; keepalive_body h r'
