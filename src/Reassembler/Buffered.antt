-- ===== src/Reassembler/Buffered.antt =====
-- A round on a reader with the next frame in its buffer, or with the next piece below it.
use zanarkand.Prelude.{
  ℕ, ◌+◌, ◌≤◌, ◌≡◌, refl, sym, ap, ◌∙◌, List, [], ◌∷◌, ◌++◌, some, length, take, length-append,
  take-append_eq, take-append_le, length-drop, subst, append_assoc, arith,
}
use mathlib.Core.Path.{ap₂}
use zanarkand.Prelude.Int.{pos}
use zanarkand.Prelude.Bytes.{Bytes, le}
use zanarkand.Io.{Reader, peek, size, slide, discard}
use zanarkand.Io.View.{flat, stream, slide-Same}
use zanarkand.Io.Fill.{peek_after, fill_piece, with_piece}
use zanarkand.Io.Peek.{peek_buffered}
use zanarkand.Error.{ok}
use zanarkand.Frame.Sync.{IsSynced, discard_until_valid_here}
use zanarkand.Frame.Wire.{Wire, encode_frame, length-encode_frame}
use zanarkand.Reassembler.{sent, round, after_sync, read_frame}
use zanarkand.Reassembler.Reading.{
  announced, announced-encode, IsFrame, frame-IsSynced, after_sync_reads, read_frame_sends,
}
use zanarkand.Reassembler.Delivery.{packet_of}

module _ {F : Type 0} (net : F) (r : Reader) where
  -- Where the search stops at once, the round goes on from the reader behind the look at the magic bytes.
  round_here :
      8 ≤ size r
      → IsSynced (stream r)
      → round net r ≡ after_sync net (some (ok (peek (pos 8) r).after))
  unfolding round
  round_here hs here = ap (after_sync net) (discard_until_valid_here r hs here)

  -- A frame that is buffered whole is sent.
  pub round_buffered :
      (w : Wire) (rest : Bytes)
      → IsFrame w
      → 40 ≤ size r
      → r.buf ≡ encode_frame w ++ rest
      → round net r ≡ sent (packet_of net w) (discard (length (encode_frame w)) r)
  round_buffered w rest h hs e =
      let n : ℕ = length (encode_frame w) in
      let more : Bytes = rest ++ flat r.rd in
      let st : stream r ≡ encode_frame w ++ more =
        ap (λ (b : Bytes). b ++ flat r.rd) e ∙ append_assoc (encode_frame w) rest (flat r.rd) in
      let fits : 40 + length w.body + length rest ≡ length r.buf =
        omega (arith, ap length e, length-append (encode_frame w) rest, length-encode_frame w) in
      let all : length r.buf + length (flat r.rd) ≡ length (stream r) =
        sym (length-append r.buf (flat r.rd)) in
      let (t, kept, buffered, same, read) = after_sync_reads net r hs (omega arith) in
      let l : announced (stream r) ≡ n =
        ap announced st
        ∙ announced-encode w more h.fits
        ∙ h.fits.length_is
        ∙ sym (length-encode_frame w) in
      round_here (omega arith) (subst IsSynced (sym st) (frame-IsSynced w more h))
      ∙ ap (λ (x : Reader). after_sync net (some (ok x))) (peek_buffered 8 r (omega arith))
      ∙ read
      ∙ ap₂ (λ (k : ℕ) (x : Reader). read_frame net k x) l (same (omega arith))
      ∙ read_frame_sends net r n (omega (arith, length-encode_frame w))
          (omega (arith, length-encode_frame w))
      ∙ ap (λ (b : Bytes). sent (record { body = b; flow = net }) (discard n r))
          (ap (take n) e ∙ take-append_eq n (encode_frame w) rest refl)

-- On an empty buffer a round is that of the reader with the next piece in its buffer.
pub round_piece :
    {F : Type 0} (net : F) (r : Reader) (c : Bytes) (cs : List Bytes)
    → r.buf ≡ []
    → r.rd ≡ c ∷ cs
    → 40 ≤ length c
    → length c ≤ size r
    → IsSynced c
    → round net r ≡ round net (with_piece c cs (slide r))
round_piece net r c cs eb er lo hi here =
    let t : Reader = with_piece c cs (slide r) in
    let whole : stream r ≡ c ++ flat cs = ap₂ (λ (b : Bytes) (x : List Bytes). b ++ flat x) eb er in
    let synced : IsSynced (c ++ flat cs) = (
      omega (arith, length-append c (flat cs)),
      ap le (take-append_le 8 c (flat cs) here.0) ∙ here.1,
    ) in
    let room : size t ≡ size r =
      omega
        (arith, (slide-Same r).same_size, ap length eb, length-drop (length c) (slide r).stale) in
    round_here net r (omega arith) (subst IsSynced (sym whole) synced)
    ∙ ap (λ (x : Reader). after_sync net (some (ok x)))
        (peek_after 8 r
          ∙ fill_piece 8 r c cs eb er (omega arith) (omega arith) hi
          ∙ sym (peek_buffered 8 t (omega arith)))
    ∙ sym (round_here net t (omega (arith, room)) synced)
