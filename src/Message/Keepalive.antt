-- ===== src/Message/Keepalive.antt =====
-- `KeepaliveMessage.Decode` on what a server writes.
use zanarkand.Prelude.{
  ◌^◌, ◌≤◌, ◌<◌, ◌≡◌, ap, ◌∙◌, [], ◌++◌, arith, length, take, drop, append_assoc, ltb-false,
}
use zanarkand.Prelude.Int.{pos}
use zanarkand.Prelude.Bytes.{Bytes, le_bytes, le-le_bytes}
use zanarkand.Io.{Reader, peek, size, discard}
use zanarkand.Io.Peek.{Shows, peek-Shows, Shows-Passed}
use zanarkand.Io.View.{stream}
use zanarkand.Error.{ok, err, not_enough_data, io}
use zanarkand.Message.{KeepaliveMessage, decode_keepalive, keepalive_body}
use zanarkand.Message.Wire.{encode_header, HeaderFits, decode_header-encode, decode_header_short}

unfoldable pub encode_keepalive : KeepaliveMessage → Bytes
encode_keepalive m = encode_header m.header ++ (le_bytes 4 m.id ++ le_bytes 4 m.timestamp)

pub record KeepaliveFits (m : KeepaliveMessage) : Type 0 where
  pub header_fits : HeaderFits m.header
  pub length_is : m.header.length ≡ 24
  pub id_fits : m.id < 2 ^ 32
  pub timestamp_fits : m.timestamp < 2 ^ 32

payload : KeepaliveMessage → Bytes → Bytes
payload m rest = le_bytes 4 m.id ++ (le_bytes 4 m.timestamp ++ rest)

keepalive_body-encode :
    (m : KeepaliveMessage) (rest : Bytes) (r : Reader)
    → KeepaliveFits m
    → 8 ≤ size r
    → stream r ≡ payload m rest
    → (r' : Reader) × (keepalive_body m.header r ≡ ok (m, r')) × (stream r' ≡ rest)
unfolding payload keepalive_body
keepalive_body-encode m rest r f hs e =
    let s : Shows 8 r (peek (pos 8) r) = peek-Shows 8 r hs (omega (arith, ap length e)) in
    (
      discard 8 (peek (pos 8) r).after,
      rw f.length_is (
          rw (s.no_err, s.shown, e)
            (rw
              (ltb-false (length (take 8 (payload m rest) ++ (peek (pos 8) r).spare)) 8
                (omega arith))
              (λ i. ok (
                record {
                  header = record m.header { length = 24 };
                  id = le-le_bytes 4 m.id f.id_fits i;
                  timestamp = le-le_bytes 4 m.timestamp f.timestamp_fits i;
                },
                discard 8 (peek (pos 8) r).after,
              )))),
      (Shows-Passed s).rest ∙ ap (drop 8) e,
    )

-- With a buffer of at least 16 bytes `Decode` reads back a written keepalive of 24 bytes, whatever
-- follows it, and leaves what follows.
pub decode_keepalive-encode :
    (m : KeepaliveMessage) (rest : Bytes) (r : Reader)
    → KeepaliveFits m
    → 16 ≤ size r
    → stream r ≡ encode_keepalive m ++ rest
    → (r' : Reader) × (decode_keepalive r ≡ ok (m, r')) × (stream r' ≡ rest)
unfolding encode_keepalive decode_keepalive payload
decode_keepalive-encode m rest r f hs e =
    let (r', d, after, kept) =
      decode_header-encode m.header (payload m rest) r f.header_fits hs
        (e ∙ append_assoc (encode_header m.header) (payload m []) rest) in
    let (t, b, left) = keepalive_body-encode m rest r' f (omega (arith, kept)) after in
    (t, rw d b, left)

-- With fewer than 16 bytes left there is no header, and `Decode` returns its error.
pub decode_keepalive_short :
    (r : Reader)
    → 16 ≤ size r
    → length (stream r) < 16
    → decode_keepalive r ≡ err (not_enough_data (pos 16) (length (stream r)) (io r.rd_err))
unfolding decode_keepalive
decode_keepalive_short r hs hl = rw (decode_header_short r hs hl)
