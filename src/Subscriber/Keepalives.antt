-- ===== src/Subscriber/Keepalives.antt =====
-- What the keepalive subscriber makes of the last message of a frame.
use zanarkand.Prelude.{
  ℕ, suc, ◌≤◌, ◌≡◌, ◌⊎◌, inl, inr, ap, ◌∙◌, ◌++◌, length, take, drop, true, false, refl, [], ◌∷◌,
  arith,
}
use zanarkand.Prelude.Int.{pos}
use zanarkand.Prelude.Bytes.{Bytes, le_bytes}
use zanarkand.Io.{IoError, Reader, size}
use zanarkand.Io.View.{stream}
use zanarkand.Error.{io, not_enough_data, decoding_failure, ok, panic, err}
use mathlib.Core.Path.{ap₂}
use zanarkand.Message.{header_of, server_ping, server_pong, GenericHeader, KeepaliveMessage}
use zanarkand.Message.Wire.{
  length-encode_header, drop-encode_header, header_of-encode, decode_header_reads,
}
use zanarkand.Message.Keepalive.{
  decode_keepalive-encode, encode_keepalive, KeepaliveFits, decode_keepalive_short,
}
use zanarkand.Frame.{Frame}
use zanarkand.Sniffer.{process_messages}
use zanarkand.Subscriber.{
  Channel, received_message, is_keepalive, keepalive_subscribe, close_keepalives,
}

is_keepalive_lem :
    (h : GenericHeader)
    → (h.segment ≡ server_ping) ⊎ (h.segment ≡ server_pong)
    → is_keepalive h ≡ true
unfolding is_keepalive
is_keepalive_lem h (inl e) = ground arith
is_keepalive_lem h (inr e) = ground arith

-- A keepalive that fits its fields and ends its frame's bytes is never delivered. Its header is
-- read before the handler is called; the handler reads a header again, finds only the eight bytes
-- of the payload, and the loop ends with a decoding error.
pub process_messages-encode_keepalive :
    {F : Type 0} (f : Frame F) (k : Channel KeepaliveMessage) (n : ℕ) (m : KeepaliveMessage)
    (r : Reader)
    → KeepaliveFits m
    → (m.header.segment ≡ server_ping) ⊎ (m.header.segment ≡ server_pong)
    → 16 ≤ size r
    → stream r ≡ encode_keepalive m
    → process_messages keepalive_subscribe f (suc n) k r
      ≡ (k, err (decoding_failure (not_enough_data (pos 16) 8 (io r.rd_err))))
unfolding process_messages keepalive_subscribe received_message encode_keepalive
process_messages-encode_keepalive f k n m r fits seg hs e =
    let payload : Bytes = le_bytes 4 m.id ++ le_bytes 4 m.timestamp in
    let (a, d, p) =
      decode_header_reads r hs
        (omega (arith, ap length e, length-encode_header m.header payload)) in
    let h : header_of (take 16 (stream r)) ≡ m.header =
      ap (λ (s : Bytes). header_of (take 16 s)) e
      ∙ header_of-encode m.header payload fits.header_fits in
    let after : stream a ≡ payload =
      p.rest ∙ ap (drop 16) e ∙ drop-encode_header m.header payload in
    rw d (
      rw h (
        rw (is_keepalive_lem m.header seg) (
          rw
            (decode_keepalive_short a (omega (arith, p.rest_size)) (omega (arith, ap length after)))
            (ap₂
              (λ (j : ℕ) (x : IoError).
                (k, err (decoding_failure (not_enough_data (pos 16) j (io x)))))
              (ap length after) p.rest_err))))

-- A handler that is called at the start of a keepalive that fits its fields, header included, sends the
-- written keepalive and leaves the reader behind it. `Close` closes the channel and keeps what was
-- received; a second `Close` panics, and so does the handler on a keepalive behind `Close`.
keepalive_subscribe-encode :
    {F : Type 0} (f : Frame F) (k : Channel KeepaliveMessage) (m : KeepaliveMessage) (rest : Bytes)
    (r : Reader)
    → k.closed ≡ false
    → KeepaliveFits m
    → (m.header.segment ≡ server_ping) ⊎ (m.header.segment ≡ server_pong)
    → 16 ≤ size r
    → stream r ≡ encode_keepalive m ++ rest
    → (r' : Reader) × (stream r' ≡ rest)
      × (keepalive_subscribe k f m.header r
          ≡ (record k { received = k.received ++ (m ∷ []) }, ok r'))
      × (close_keepalives k ≡ ok (record k { closed = true }))
      × (close_keepalives (record k { closed = true }) ≡ panic)
      × (keepalive_subscribe (record k { closed = true }) f m.header r
          ≡ (record k { closed = true }, panic))
unfolding keepalive_subscribe received_message close_keepalives
keepalive_subscribe-encode f k m rest r still fits seg hs e =
    let (r', d, left) = decode_keepalive-encode m rest r fits hs e in
    let is : is_keepalive m.header ≡ true = is_keepalive_lem m.header seg in
    (r', left, rw is (rw d (rw still refl)), rw still refl, refl, rw is (rw d refl))
