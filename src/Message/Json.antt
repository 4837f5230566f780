-- ===== src/Message/Json.antt =====
-- What the `MarshalJSON` methods of message.go hand to encoding/json, as records of the exported fields.
use zanarkand.Prelude.{
  map_same, ◌-◌, ◌%◌, ℕ, ◌+◌, ◌^◌, ◌≤◌, ◌<◌, ◌≡◌, refl, inl, inr, le_or_lt, ltb-true, ltb-false,
  List, ◌++◌, map, arith, length,
}
use zanarkand.Prelude.Int.{ℤ, pos, negsuc}
use zanarkand.Prelude.Bytes.{Bytes}
use zanarkand.Io.{Reader, size}
use zanarkand.Io.View.{stream}
use zanarkand.Error.{ok}
use zanarkand.Frame.{int32}
use zanarkand.Message.{GenericHeader, GameEventMessage, KeepaliveMessage, decode_game_event}
use zanarkand.Message.GameEvent.{encode_game_event, GameEventFits, decode_game_event-encode}

pub record GameEventJson : Type 0 where
  pub header : GenericHeader
  pub opcode : ℕ
  pub server_id : ℕ
  pub data_ints : List ℕ
  pub timestamp : ℤ

-- `GameEventMessage.MarshalJSON`
unfoldable pub game_event_json : GameEventMessage → GameEventJson
game_event_json m = record {
  header = m.header;
  opcode = m.opcode;
  server_id = m.server_id;
  data_ints = map (λ b. b) m.body;
  timestamp = int32 (pos m.timestamp);
}

pub record KeepaliveJson : Type 0 where
  pub header : GenericHeader
  pub id : ℕ
  pub timestamp : ℤ

-- `KeepaliveMessage.MarshalJSON`
unfoldable pub keepalive_json : KeepaliveMessage → KeepaliveJson
keepalive_json m = record { header = m.header; id = m.id; timestamp = int32 (pos m.timestamp) }

-- What is printed for a time of 32 bits: from 2 ^ 31 seconds on, in 2038, a time before 1970.
pub data Prints (n : ℕ) : ℤ → Type 0 where
  early : n < 2 ^ 31 → Prints n (pos n)
  late : (d : ℕ) → 2 ^ 31 ≤ n → n + d + 1 ≡ 2 ^ 32 → Prints n (negsuc d)

int32-Prints : (n : ℕ) → n < 2 ^ 32 → Prints n (int32 (pos n))
int32-Prints n h =
    let same : n % 2 ^ 32 ≡ n = omega arith in
    rw same (elim (le_or_lt (2 ^ 31) n) [
      | inl big ↦ rw (ltb-false n (2 ^ 31) big) (late (2 ^ 32 - n - 1) big (omega arith))
      | inr small ↦ rw (ltb-true n (2 ^ 31) small) (early small)
    ])

-- What is printed for a game event.
pub record IsJsonOf (m : GameEventMessage) (j : GameEventJson) : Type 0 where
  pub same_header : j.header ≡ m.header
  pub same_opcode : j.opcode ≡ m.opcode
  pub same_server : j.server_id ≡ m.server_id
  pub body_ints : j.data_ints ≡ m.body
  pub time_prints : Prints m.timestamp j.timestamp

-- A written game event that fits its fields and whose bytes behind the header fit the buffer is decoded
-- to a message whose JSON has the event's header, opcode, server and body, and its time up to 2 ^ 31
-- seconds; from then on a time before 1970 is printed.
pub game_event_json-encode :
    (m m' : GameEventMessage) (rest : Bytes) (r : Reader)
    → GameEventFits m
    → 16 + length m.body ≤ size r
    → stream r ≡ encode_game_event m ++ rest
    → (d : GameEventMessage) × (r' : Reader) × (decode_game_event m' r ≡ ok (d, r'))
      × IsJsonOf m (game_event_json d)
unfolding game_event_json
game_event_json-encode m m' rest r f fits e =
    let (r', d, left) = decode_game_event-encode m m' rest r f fits e in
    (
      record m { padding2 = m'.padding2; padding3 = m'.padding3 },
      r',
      d,
      record {
        same_header = refl;
        same_opcode = refl;
        same_server = refl;
        body_ints = map_same m.body;
        time_prints = int32-Prints m.timestamp f.timestamp_fits;
      },
    )
