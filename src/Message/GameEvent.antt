-- ===== src/Message/GameEvent.antt =====
-- `GameEventMessage.Decode` on what a server writes.
use zanarkand.Message.Body.{game_event_body_reads}
use zanarkand.Prelude.{
  take-append_eq, drop-append_eq, ◌+◌, ◌-◌, ◌^◌, ◌≤◌, ◌<◌, ◌≡◌, ap, ◌∙◌, ◌++◌, arith, length, take,
  drop, append_assoc, length-append,
}
use zanarkand.Prelude.Bytes.{Bytes, le_bytes, le-le_bytes}
use zanarkand.Io.{Reader, size}
use zanarkand.Io.View.{stream}
use zanarkand.Error.{ok}
use zanarkand.Message.{GameEventMessage, decode_game_event, set_game_event}
use zanarkand.Message.Wire.{decode_header-encode, encode_header, HeaderFits}

unfoldable pub encode_ipc : GameEventMessage → Bytes
encode_ipc m =
    le_bytes 2 m.reserved
    ++ (le_bytes 2 m.opcode
        ++ (le_bytes 2 m.padding2
            ++ (le_bytes 2 m.server_id
                ++ (le_bytes 4 m.timestamp ++ (le_bytes 4 m.padding3 ++ m.body)))))

unfoldable pub encode_game_event : GameEventMessage → Bytes
encode_game_event m = encode_header m.header ++ encode_ipc m

pub record GameEventFits (m : GameEventMessage) : Type 0 where
  pub header_fits : HeaderFits m.header
  pub length_is : m.header.length ≡ 32 + length m.body
  pub reserved_fits : m.reserved < 2 ^ 16
  pub opcode_fits : m.opcode < 2 ^ 16
  pub server_fits : m.server_id < 2 ^ 16
  pub timestamp_fits : m.timestamp < 2 ^ 32

pub length-encode_ipc : (m : GameEventMessage) → length (encode_ipc m) ≡ 16 + length m.body
unfolding encode_ipc
length-encode_ipc m = omega arith

set_game_event-encode :
    (m m' : GameEventMessage)
    → GameEventFits m
    → set_game_event m' m.header (encode_ipc m)
      ≡ record m { padding2 = m'.padding2; padding3 = m'.padding3 }
unfolding encode_ipc
set_game_event-encode m m' f = λ i. record {
  header = m.header;
  reserved = le-le_bytes 2 m.reserved f.reserved_fits i;
  opcode = le-le_bytes 2 m.opcode f.opcode_fits i;
  padding2 = m'.padding2;
  server_id = le-le_bytes 2 m.server_id f.server_fits i;
  timestamp = le-le_bytes 4 m.timestamp f.timestamp_fits i;
  padding3 = m'.padding3;
  body = m.body;
}

-- `Decode` reads back a written game event that fits its fields and whose bytes behind the header
-- fit the buffer, whatever follows it, and leaves what follows. The two paddings keep the values
-- that the receiver `m'` had.
pub decode_game_event-encode :
    (m m' : GameEventMessage) (rest : Bytes) (r : Reader)
    → GameEventFits m
    → 16 + length m.body ≤ size r
    → stream r ≡ encode_game_event m ++ rest
    → (r' : Reader) × (decode_game_event m' r
        ≡ ok (record m { padding2 = m'.padding2; padding3 = m'.padding3 }, r'))
      × (stream r' ≡ rest)
unfolding encode_game_event decode_game_event
decode_game_event-encode m m' rest r f fits e =
    let ipc = encode_ipc m in
    let n = m.header.length - 16 in
    let (r', d, after, kept) =
      decode_header-encode m.header (ipc ++ rest) r f.header_fits (omega arith)
        (e ∙ append_assoc (encode_header m.header) ipc rest) in
    let eq : n ≡ length ipc = omega (arith, length-encode_ipc m, f.length_is) in
    let (t, b, q) =
      game_event_body_reads m' m.header r' (omega (arith, f.length_is))
        (omega (arith, kept, f.length_is))
        (omega (arith, eq, ap length after, length-append ipc rest)) in
    let shown : take n (stream r') ≡ ipc = ap (take n) after ∙ take-append_eq n ipc rest eq in
    (
      t,
      rw d (
          b
          ∙ ap (λ (x : Bytes). ok (set_game_event m' m.header x, t)) shown
          ∙ ap (λ (x : GameEventMessage). ok (x, t)) (set_game_event-encode m m' f)),
      q.rest ∙ ap (drop n) after ∙ drop-append_eq n ipc rest eq,
    )
