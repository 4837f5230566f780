-- ===== src/Message/Wire.antt =====
-- The wire format, described by what writes it, and the decoders on it.
use zanarkand.Io.Peek.{peek_short, peek_short_bytes, Shows, peek-Shows, Passed, Shows-Passed}
use zanarkand.Error.Printed.{Library, error_text}
use zanarkand.Prelude.Radix.{decimal, show, digits_of}
use zanarkand.Prelude.Format.{codes, show_int}
use zanarkand.Error.{not_enough_data, io, err, Error, unwrap_method, is_eof, ok}
use zanarkand.Io.{IoError, Reader, peek, size, discard}
use zanarkand.Prelude.{
  false, ◌-◌, ◌^◌, ◌≤◌, ◌<◌, ◌≡◌, refl, ap, ◌∙◌, ◌++◌, arith, length, take, drop,
}
use zanarkand.Prelude.Int.{pos, sub_ℕ, sub_ℕ_pos}
use zanarkand.Prelude.Bytes.{Bytes, le_bytes, le-le_bytes}
use zanarkand.Io.View.{stream}
use zanarkand.Message.{GenericHeader, header_of, decode_header}

unfoldable pub encode_header : GenericHeader → Bytes
encode_header h =
    le_bytes 4 h.length
    ++ (le_bytes 4 h.source_actor
        ++ (le_bytes 4 h.target_actor ++ (le_bytes 2 h.segment ++ le_bytes 2 h.padding)))

pub record HeaderFits (h : GenericHeader) : Type 0 where
  pub length_fits : h.length < 2 ^ 32
  pub source_fits : h.source_actor < 2 ^ 32
  pub target_fits : h.target_actor < 2 ^ 32
  pub segment_fits : h.segment < 2 ^ 16
  pub padding_fits : h.padding < 2 ^ 16

pub header_of-encode :
    (h : GenericHeader) (rest : Bytes)
    → HeaderFits h
    → header_of (take 16 (encode_header h ++ rest)) ≡ h
unfolding encode_header
header_of-encode h rest f = λ i. record {
  length = le-le_bytes 4 h.length f.length_fits i;
  source_actor = le-le_bytes 4 h.source_actor f.source_fits i;
  target_actor = le-le_bytes 4 h.target_actor f.target_fits i;
  segment = le-le_bytes 2 h.segment f.segment_fits i;
  padding = le-le_bytes 2 h.padding f.padding_fits i;
}

-- Where 16 bytes are left, `Decode` reads them and goes past them.
pub decode_header_reads :
    (r : Reader)
    → 16 ≤ size r
    → 16 ≤ length (stream r)
    → (r' : Reader) × (decode_header r ≡ ok (header_of (take 16 (stream r)), r')) × Passed 16 r r'
unfolding decode_header
decode_header_reads r hs hl =
    let s : Shows 16 r (peek (pos 16) r) = peek-Shows 16 r hs hl in
    (discard 16 (peek (pos 16) r).after, rw (s.no_err, s.shown), Shows-Passed s)

pub length-encode_header :
    (h : GenericHeader) (rest : Bytes) → 16 ≤ length (encode_header h ++ rest)
unfolding encode_header
length-encode_header h rest = omega arith

pub drop-encode_header :
    (h : GenericHeader) (rest : Bytes) → drop 16 (encode_header h ++ rest) ≡ rest
unfolding encode_header
drop-encode_header h rest = refl

-- With a buffer of at least 16 bytes a decoded header is the one that was written, and what follows
-- it is left.
pub decode_header-encode :
    (h : GenericHeader) (rest : Bytes) (r : Reader)
    → HeaderFits h
    → 16 ≤ size r
    → stream r ≡ encode_header h ++ rest
    → (r' : Reader) × (decode_header r ≡ ok (h, r')) × (stream r' ≡ rest) × (size r' ≡ size r)
decode_header-encode h rest r f hs e =
    let (r', d, p) =
      decode_header_reads r hs (omega (arith, ap length e, length-encode_header h rest)) in
    (
      r',
      d
          ∙ ap (λ (x : GenericHeader). ok (x, r'))
              (ap (λ (s : Bytes). header_of (take 16 s)) e ∙ header_of-encode h rest f),
      p.rest ∙ ap (drop 16) e ∙ drop-encode_header h rest,
      p.rest_size,
    )

-- `Peek` for all that a header announces shows it, where the stream and the buffer hold it.
pub body_peek :
    (h : GenericHeader) (r : Reader)
    → 16 ≤ h.length
    → h.length - 16 ≤ size r
    → h.length - 16 ≤ length (stream r)
    → Shows (h.length - 16) r (peek (sub_ℕ h.length 16) r)
body_peek h r hl hs hn = rw (sub_ℕ_pos h.length 16 hl) (peek-Shows (h.length - 16) r hs hn)

-- With fewer than 16 bytes left, `Decode` says how many there were and why no more came.
pub decode_header_short :
    (r : Reader)
    → 16 ≤ size r
    → length (stream r) < 16
    → decode_header r ≡ err (not_enough_data (pos 16) (length (stream r)) (io r.rd_err))
unfolding decode_header
decode_header_short r hs hl = rw ((peek_short 16 r hs hl).an_err, peek_short_bytes 16 r hs hl)

-- Where the stream ends with io.EOF inside a header, the error says that 16 bytes were expected, how many
-- there were, and the text of io.EOF. The `Unwrap` method of the error gives io.EOF, but
-- `errors.Is(e, io.EOF)` does not find it.
pub decode_header-is_eof :
    (l : Library) (r : Reader)
    → 16 ≤ size r
    → length (stream r) < 16
    → r.rd_err ≡ IoError.eof
    → (e : Error) × (decode_header r ≡ err e)
      × (error_text l e
          ≡ codes "not enough data: expected 16 bytes but received "
            ++ (show decimal (length (stream r)) ++ (codes ": " ++ l.io_text IoError.eof)))
      × (unwrap_method e ≡ io IoError.eof)
      × (is_eof e ≡ false)
unfolding is_eof unwrap_method error_text show_int show digits_of
decode_header-is_eof l r hs hl e = (
  not_enough_data (pos 16) (length (stream r)) (io r.rd_err),
  decode_header_short r hs hl,
  rw e refl,
  ap io e,
  refl,
)
