-- ===== src/Reassembler/Rounds.antt =====
-- One round of the loop of `frameStream.run`.
use zanarkand.Reassembler.Reading.{
  announced, announced-append, after_sync_reads, read_frame_sends, read_frame_stops, Quiet,
  drop_junk, Sync-skips, IsFrame, frame-IsSynced, announced-encode, Behind,
}
use zanarkand.Io.Fill.{peek_after, fill_piece}
use zanarkand.Io.Peek.{Shows, peek-Shows, peek_short, stream-discard, size-discard}
use zanarkand.Io.View.{flat, Same_trans, stream, flat_nil, Same}
use zanarkand.Frame.Sync.{
  discard_until_valid_here, IsSynced, SyncedAt, Nowhere, Sync, discard_until_valid-Sync,
}
use mathlib.Core.Path.{ap₂}
use zanarkand.Prelude.{
  zero_or_pos, ℕ, ◌+◌, ◌≤◌, ◌<◌, ◌≡◌, refl, sym, ap, ◌∙◌, inl, inr, le_or_lt, List, [], ◌∷◌, ◌++◌,
  some, length, take, drop, length-append, take-append_le, take-append_eq, arith, subst,
}
use zanarkand.Prelude.Int.{pos}
use zanarkand.Prelude.Bytes.{Bytes, le}
use zanarkand.Io.{Reader, peek, size, discard, read}
use zanarkand.Error.{io, wrapped, text, syncing, peeking, less_read, ok}
use zanarkand.Frame.{discard_until_valid}
use zanarkand.Frame.Wire.{Wire, encode_frame, length-encode_frame}
use zanarkand.Reassembler.{Round, sent, stopped, round, after_sync, take_frame, read_frame, send}

module _ {F : Type 0} (net : F) where
  -- A round sends the next frame, past any junk, where all that is left is buffered.
  pub round_sends :
      (r : Reader) (junk rest : Bytes) (w : Wire)
      → IsFrame w
      → 40 ≤ size r
      → r.rd ≡ []
      → stream r ≡ junk ++ (encode_frame w ++ rest)
      → Quiet junk (encode_frame w ++ rest)
      → (r' : Reader) × (round net r ≡ sent (record { body = encode_frame w; flow = net }) r')
        × Behind r r' rest
  unfolding round
  round_sends r junk rest w h hs hr e quiet =
      let s : Bytes = encode_frame w ++ rest in
      let (a, found, at, k) =
        Sync-skips r junk s (discard_until_valid r) e quiet (frame-IsSynced w rest h)
          (discard_until_valid-Sync r (omega arith)) in
      let long : 40 + length w.body + length rest ≡ length (stream a) =
        omega (arith, ap length at, length-append (encode_frame w) rest, length-encode_frame w) in
      let (t, kept, buffered, same, read) =
        after_sync_reads net a (omega (arith, k.same_size)) (omega (arith, long)) in
      let n : announced (stream a) ≡ length (encode_frame w) =
        ap announced at
        ∙ announced-encode w rest h.fits
        ∙ h.fits.length_is
        ∙ sym (length-encode_frame w) in
      let all : stream t ≡ t.buf = flat_nil t (kept.same_end (k.same_end hr)) in
      let buf : t.buf ≡ s = sym all ∙ kept.same_stream ∙ at in
      let m : length (encode_frame w) ≤ length t.buf =
        omega (arith, ap length buf, length-append (encode_frame w) rest) in
      (
        discard (length (encode_frame w)) t,
        ap (after_sync net) found
            ∙ read
            ∙ ap (λ (x : ℕ). read_frame net x t) n
            ∙ read_frame_sends net t (length (encode_frame w))
                (omega (arith, length-encode_frame w)) m
            ∙ ap
                (λ (x : Bytes).
                  sent (record { body = x; flow = net }) (discard (length (encode_frame w)) t))
                (ap (take (length (encode_frame w))) buf
                  ∙ take-append_eq (length (encode_frame w)) (encode_frame w) rest refl),
        record {
          left =
              stream-discard (length (encode_frame w)) t m
              ∙ ap (drop (length (encode_frame w))) (kept.same_stream ∙ at)
              ∙ drop_junk (encode_frame w) rest;
          same_size = size-discard (length (encode_frame w)) t ∙ kept.same_size ∙ k.same_size;
          same_err = kept.same_err ∙ k.same_err;
          all_read = kept.same_end (k.same_end hr);
        },
      )

  -- A round ends the loop where no frame starts any more.
  pub round_ends :
      (r : Reader) → 8 ≤ size r → Nowhere r → round net r ≡ stopped (wrapped syncing (io r.rd_err))
  unfolding round after_sync
  round_ends r hs none_left = ends (discard_until_valid-Sync r hs)
    where
      ends :
          Sync r (discard_until_valid r)
          → after_sync net (discard_until_valid r) ≡ stopped (wrapped syncing (io r.rd_err))
      ends (inl (r', e, s)) = absurd (none_left s.skipped (subst IsSynced s.rest s.found))
      ends (inr (e, n)) = rw e

  read_frame_zero : (r : Reader) → read_frame net 0 r ≡ sent (record { body = []; flow = net }) r
  unfolding read_frame send read
  read_frame_zero r = refl

  -- Behind the search at a place where a frame may start: too few bytes for a header, a frame of
  -- announced length 0, one that is buffered whole, or one that is not.
  pub data AtFrame (a : Reader) : Round F → Type 0 where
    no_header : length (stream a) < 40 → AtFrame a (stopped (wrapped peeking (io a.rd_err)))
    empty :
        (t : Reader)
        → Same a t
        → announced (stream a) ≡ 0
        → AtFrame a (sent (record { body = []; flow = net }) t)
    whole :
        (t : Reader)
        → Same a t
        → 40 ≤ length (stream a)
        → 0 < announced (stream a)
        → announced (stream a) ≤ length t.buf
        → AtFrame a (
            sent
              (record { body = take (announced (stream a)) t.buf; flow = net })
              (discard (announced (stream a)) t))
    in_part :
        (t : Reader)
        → Same a t
        → length t.buf < announced (stream a)
        → AtFrame a (stopped (text (less_read (length t.buf) (announced (stream a)))))

  after_sync_short :
      (a : Reader)
      → 40 ≤ size a
      → length (stream a) < 40
      → after_sync net (some (ok a)) ≡ stopped (wrapped peeking (io a.rd_err))
  unfolding after_sync take_frame
  after_sync_short a hs short = rw (peek_short 40 a hs short).an_err

  after_sync-AtFrame : (a : Reader) → 40 ≤ size a → AtFrame a (after_sync net (some (ok a)))
  after_sync-AtFrame a hs = elim (le_or_lt 40 (length (stream a))) [
    | inr short ↦ rw (after_sync_short a hs short) (no_header short)
    | inl long ↦
        let (t, kept, buffered, same, read) = after_sync_reads net a hs long in
        rw read (elim (zero_or_pos (announced (stream a))) [
          | inl none_left ↦ rw none_left (rw (read_frame_zero t) (empty t kept none_left))
          | inr some_left ↦ elim (le_or_lt (announced (stream a)) (length t.buf)) [
            | inl all ↦
                rw (read_frame_sends net t (announced (stream a)) some_left all)
                  (whole t kept long some_left all)
            | inr part ↦
                rw (read_frame_stops net t (announced (stream a)) (omega arith) part)
                  (in_part t kept part)
          ]
        ])
  ]

  -- Whatever a round does, it does at the place where the search has stopped.
  pub data RoundOf (r : Reader) : Round F → Type 0 where
    no_frame : Nowhere r → RoundOf r (stopped (wrapped syncing (io r.rd_err)))
    at_frame : {a : Reader} {o : Round F} → SyncedAt r a → AtFrame a o → RoundOf r o

  pub round-RoundOf : (r : Reader) → 40 ≤ size r → RoundOf r (round net r)
  unfolding round
  round-RoundOf r hs = by_sync (discard_until_valid-Sync r (omega arith))
    where
      by_sync : Sync r (discard_until_valid r) → RoundOf r (after_sync net (discard_until_valid r))
      by_sync (inl (a, e, s)) =
          rw e (at_frame s (after_sync-AtFrame a (omega (arith, s.same_size))))
      by_sync (inr (e, n)) = rw e (unfold after_sync in no_frame n)

  -- A round on a reader with an empty buffer, below which the first piece of the stream starts
  -- with a frame, holds its 40 bytes of header, fits the buffer and ends before the announced
  -- length, reports that less was read than announced, and so the stream is given up.
  pub round_split :
      (r : Reader) (c : Bytes) (cs : List Bytes)
      → r.buf ≡ []
      → r.rd ≡ c ∷ cs
      → 40 ≤ length c
      → length c ≤ size r
      → IsSynced c
      → length c < announced c
      → round net r ≡ stopped (text (less_read (length c) (announced c)))
  unfolding round
  round_split r c cs eb er lo hi here more =
      let whole : stream r ≡ c ++ flat cs =
        ap₂ (λ (b : Bytes) (x : List Bytes). b ++ flat x) eb er in
      let long : length c + length (flat cs) ≡ length (stream r) =
        sym (length-append c (flat cs)) ∙ ap length (sym whole) in
      let front : take 8 (stream r) ≡ take 8 c =
        ap (take 8) whole ∙ take-append_le 8 c (flat cs) here.0 in
      let a : Reader = (peek (pos 8) r).after in
      let buf : a.buf ≡ c =
        ap (λ (x : Reader). x.buf)
          (peek_after 8 r ∙ fill_piece 8 r c cs eb er (omega arith) (omega arith) hi) in
      let s : Shows 8 r (peek (pos 8) r) = peek-Shows 8 r (omega arith) (omega (arith, long)) in
      let (t, kept, buffered, same, read) =
        after_sync_reads net a (omega (arith, s.kept.same_size))
          (omega (arith, long, ap length s.kept.same_stream)) in
      let tb : t.buf ≡ c = ap (λ (x : Reader). x.buf) (same (omega (arith, ap length buf))) ∙ buf in
      let n : announced (stream a) ≡ announced c =
        ap announced (s.kept.same_stream ∙ whole) ∙ announced-append c (flat cs) (omega arith) in
      ap (after_sync net)
        (discard_until_valid_here r (omega arith) (omega (arith, long), ap le front ∙ here.1))
      ∙ read
      ∙ read_frame_stops net t (announced (stream a)) (omega (arith, ap length tb))
          (omega (arith, ap length tb, n))
      ∙ ap₂ (λ (x y : ℕ). stopped (text (less_read x y))) (ap length tb) n

  -- A frame that announces length 0 gives an empty packet, and the reader stays before it.
  pub round_empty :
      (r : Reader)
      → 40 ≤ size r
      → 40 ≤ length (stream r)
      → IsSynced (stream r)
      → announced (stream r) ≡ 0
      → (t : Reader) × (round net r ≡ sent (record { body = []; flow = net }) t) × Same r t
  unfolding round
  round_empty r hs hl here n =
      let a : Reader = (peek (pos 8) r).after in
      let s : Shows 8 r (peek (pos 8) r) = peek-Shows 8 r (omega arith) here.0 in
      let (t, kept, buffered, same, read) =
        after_sync_reads net a (omega (arith, s.kept.same_size))
          (omega (arith, ap length s.kept.same_stream)) in
      let zero_length : announced (stream a) ≡ 0 = ap announced s.kept.same_stream ∙ n in
      (
        t,
        ap (after_sync net) (discard_until_valid_here r (omega arith) here)
            ∙ read
            ∙ ap (λ (k : ℕ). read_frame net k t) zero_length
            ∙ read_frame_zero t,
        Same_trans s.kept kept,
      )
