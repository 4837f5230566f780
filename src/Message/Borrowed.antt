-- ===== src/Message/Borrowed.antt =====
-- `KeepaliveMessage.Decode` of a message that announces less than a keepalive has.
use zanarkand.Prelude.{
  ℕ, ◌+◌, ◌-◌, ◌^◌, ◌≤◌, ◌<◌, ◌≡◌, sym, ap, ◌∙◌, ◌++◌, length, take, drop, take-append-drop,
  append_assoc, take_length_le, drop-drop, ltb-false, arith,
}
use zanarkand.Prelude.Int.{sub_ℕ_pos}
use zanarkand.Prelude.Bytes.{Bytes, le_bytes, le-le_bytes}
use zanarkand.Io.{Reader, discard}
use zanarkand.Io.Peek.{peek_front_of, stream-discard}
use zanarkand.Io.View.{stream}
use zanarkand.Error.{ok}
use zanarkand.Message.{GenericHeader, header_of, decode_keepalive, decode_header, keepalive_body}
use zanarkand.Message.Wire.{
  encode_header, HeaderFits, header_of-encode, length-encode_header, drop-encode_header,
}

-- The eight bytes behind the header, whatever is announced.
keepalive_body_borrows :
    (h : GenericHeader) (id time : ℕ) (rest : Bytes) (r : Reader)
    → 16 ≤ h.length
    → h.length < 24
    → id < 2 ^ 32
    → time < 2 ^ 32
    → r.buf ≡ le_bytes 4 id ++ (le_bytes 4 time ++ rest)
    → keepalive_body h r
      ≡ ok (record { header = h; id = id; timestamp = time }, discard (h.length - 16) r)
unfolding keepalive_body
keepalive_body_borrows h id time rest r lo hi fi ft e =
    let n : ℕ = h.length - 16 in
    let next : Bytes = le_bytes 4 id ++ (le_bytes 4 time ++ (rest ++ r.stale)) in
    let fits : n ≤ length r.buf = omega (arith, ap length e) in
    let array : take n r.buf ++ (drop n r.buf ++ r.stale) ≡ next =
      sym (append_assoc (take n r.buf) (drop n r.buf) r.stale)
      ∙ ap (λ (b : Bytes). b ++ r.stale) (take-append-drop n r.buf ∙ e) in
    rw (sub_ℕ_pos h.length 16 lo) (
      rw (peek_front_of n r fits) (
        rw (array, take_length_le n r.buf fits)
          (rw (ltb-false (length next) 8 (omega arith)) (λ i. ok (
            record { header = h; id = le-le_bytes 4 id fi i; timestamp = le-le_bytes 4 time ft i },
            discard n r,
          )))))

-- A header that stands in the buffer.
decode_header_buffered :
    (h : GenericHeader) (next : Bytes) (r : Reader)
    → HeaderFits h
    → 16 ≤ length r.buf
    → r.buf ≡ encode_header h ++ next
    → decode_header r ≡ ok (h, discard 16 r)
unfolding decode_header
decode_header_buffered h next r f there e = rw (peek_front_of 16 r there) (
    ap (λ (x : GenericHeader). ok (x, discard 16 r))
      (ap (λ (b : Bytes). header_of (take 16 b)) e ∙ header_of-encode h next f))

-- A keepalive that announces 16 to 23 bytes, with any eight bytes behind its header in the buffer, is
-- decoded without an error: its number and its time are these eight bytes, also where they belong to
-- what follows the message, and the reader goes on behind what was announced, so it gives the bytes
-- past that once more.
pub decode_keepalive_borrows :
    (h : GenericHeader) (id time : ℕ) (rest : Bytes) (r : Reader)
    → HeaderFits h
    → 16 ≤ h.length
    → h.length < 24
    → id < 2 ^ 32
    → time < 2 ^ 32
    → r.buf ≡ encode_header h ++ (le_bytes 4 id ++ (le_bytes 4 time ++ rest))
    → (r' : Reader) × (decode_keepalive r
        ≡ ok (record { header = h; id = id; timestamp = time }, r'))
      × (stream r' ≡ drop h.length (stream r))
unfolding decode_keepalive
decode_keepalive_borrows h id time rest r f lo hi fi ft e =
    let next : Bytes = le_bytes 4 id ++ (le_bytes 4 time ++ rest) in
    let there : 16 ≤ length r.buf = omega (arith, ap length e, length-encode_header h next) in
    let t : Reader = discard 16 r in
    let behind : t.buf ≡ next = ap (drop 16) e ∙ drop-encode_header h next in
    let fits : h.length - 16 ≤ length t.buf = omega (arith, ap length behind) in
    let all : 16 + (h.length - 16) ≡ h.length = omega arith in
    (
      discard (h.length - 16) t,
      rw (decode_header_buffered h next r f there e)
          (keepalive_body_borrows h id time rest t lo hi fi ft behind),
      stream-discard (h.length - 16) t fits
          ∙ ap (drop (h.length - 16)) (stream-discard 16 r there)
          ∙ drop-drop 16 (h.length - 16) (stream r)
          ∙ ap (λ (k : ℕ). drop k (stream r)) all,
    )
