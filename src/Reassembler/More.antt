-- ===== src/Reassembler/More.antt =====
-- A round that sends a frame sends the same frame where more pieces follow, or the stream has ended.
use zanarkand.Prelude.{
  ℕ, ◌<◌, ◌≡◌, ◌≢◌, refl, sym, ◌∙◌, Option, none, some, List, Bool-cases, Option-cases, zero_or_pos,
  inl, inr, length, ◌==◌, arith,
}
use zanarkand.Prelude.Int.{pos}
use zanarkand.Prelude.Bytes.{Bytes, slice, le}
use zanarkand.Io.{IoError, Reader, Peeked, Filled, peek, read}
use zanarkand.Io.Peek.{read_buffered}
use zanarkand.Io.More.{more, peek_more, peek_buffers}
use mathlib.Core.Path.{ap₂}
use zanarkand.Error.{Error, text, less_read, wrapped, syncing, peeking, io, Outcome, ok, err, panic}
use zanarkand.Frame.{discard_until_valid}
use zanarkand.Frame.More.{discard_until_valid-more}
use zanarkand.Reassembler.{
  Packet, Round, sent, stopped, stuck, send, read_frame, take_frame, after_sync, round,
}

module _ {F : Type 0} (net : F) (ps : List Bytes) (e : IoError) where
  sent_stopped :
      {x : Round F} {p : Packet F} {a : Reader} {d : Error} → x ≡ sent p a → x ≢ stopped d
  sent_stopped h k = cc

  sent_stuck : {p : Packet F} {a : Reader} → stuck ≢ sent p a
  sent_stuck k = cc

  sent-injective : {p q : Packet F} {a b : Reader} → sent p a ≡ sent q b → (p ≡ q) × (a ≡ b)
  sent-injective h = (cc, cc)

  read_zero :
      (r : Reader) → read 0 (more r ps e) ≡ record (read 0 r) { after = more (read 0 r).after ps e }
  unfolding read
  read_zero r = refl

  -- With bytes in the buffer a read does not look below it.
  read_more :
      (n : ℕ) (r : Reader)
      → 0 < length r.buf
      → read n (more r ps e) ≡ record (read n r) { after = more (read n r).after ps e }
  read_more n r h = elim (zero_or_pos n) [
    | inl none_wanted ↦ rw none_wanted (read_zero r)
    | inr some_wanted ↦
        rw (read_buffered n (more r ps e) some_wanted h) (rw (read_buffered n r some_wanted h) refl)
  ]

  send_more :
      (n : ℕ) (q : Filled) (o : Option IoError) (p : Packet F) (a : Reader)
      → send net n q o ≡ sent p a
      → send net n (record q { after = more q.after ps e }) o ≡ sent p (more a ps e)
  unfolding send
  send_more n q (some d) p a h = absurd (sent_stopped h refl)
  send_more n q none p a h = elim (Bool-cases (length q.bytes == n)) [
    | inr short ↦
        let bad : send net n q none ≡ stopped (text (less_read (length q.bytes) n)) =
          rw short refl in
        absurd (sent_stopped h bad)
    | inl whole ↦
        let same : send net n q none ≡ sent (record { body = q.bytes; flow = net }) q.after =
          rw whole refl in
        let (pa, ra) = sent-injective (sym same ∙ h) in
        rw whole (ap₂ (λ (x : Packet F) (y : Reader). sent x (more y ps e)) pa ra)
  ]

  read_frame_more :
      (n : ℕ) (r a : Reader) (p : Packet F)
      → 0 < length r.buf
      → read_frame net n r ≡ sent p a
      → read_frame net n (more r ps e) ≡ sent p (more a ps e)
  unfolding read_frame
  read_frame_more n r a p hb h = rw (read_more n r hb) (send_more n (read n r) (read n r).err p a h)

  take_frame_more :
      (x : Peeked) (o : Option IoError) (p : Packet F) (a : Reader)
      → (o ≡ none → 0 < length x.after.buf)
      → take_frame net x o ≡ sent p a
      → take_frame net (record x { after = more x.after ps e }) o ≡ sent p (more a ps e)
  unfolding take_frame
  take_frame_more x (some d) p a hb h = absurd (sent_stopped h refl)
  take_frame_more x none p a hb h =
      read_frame_more (le (slice 24 28 x.bytes)) x.after a p (hb refl) h

  stuck_none : stuck ≡ after_sync net none
  unfolding after_sync
  stuck_none = refl

  stuck_panic : stuck ≡ after_sync net (some panic)
  unfolding after_sync
  stuck_panic = refl

  stopped_err : (d : Error) → after_sync net (some (err d)) ≡ stopped (wrapped syncing d)
  unfolding after_sync
  stopped_err d = refl

  stopped_peek :
      (r : Reader) (d : IoError)
      → (peek (pos 40) r).err ≡ some d
      → after_sync net (some (ok r)) ≡ stopped (wrapped peeking (io d))
  unfolding after_sync take_frame
  stopped_peek r d failed = rw failed refl

  after_sync_more :
      (r a : Reader) (p : Packet F)
      → after_sync net (some (ok r)) ≡ sent p a
      → after_sync net (some (ok (more r ps e))) ≡ sent p (more a ps e)
  unfolding after_sync
  after_sync_more r a p h = elim (Option-cases (peek (pos 40) r).err) [
    | inr (d, failed) ↦ absurd (sent_stopped h (stopped_peek r d failed))
    | inl fine ↦ rw (peek_more 40 r ps e fine) (
        take_frame_more (peek (pos 40) r) (peek (pos 40) r).err p a
          (λ o. omega (arith, peek_buffers 40 r fine)) h)
  ]

  by_sync :
      (r a : Reader) (p : Packet F) (o : Option (Outcome Reader))
      → discard_until_valid r ≡ o
      → after_sync net o ≡ sent p a
      → after_sync net (discard_until_valid (more r ps e)) ≡ sent p (more a ps e)
  by_sync r a p none s h = absurd (sent_stuck (stuck_none ∙ h))
  by_sync r a p (some (err d)) s h = absurd (sent_stopped h (stopped_err d))
  by_sync r a p (some panic) s h = absurd (sent_stuck (stuck_panic ∙ h))
  by_sync r a p (some (ok x)) s h =
      rw (discard_until_valid-more ps e r x s) (after_sync_more x a p h)

  -- The same packet is sent, and what follows is left below.
  pub round_more :
      (r a : Reader) (p : Packet F)
      → round net r ≡ sent p a
      → round net (more r ps e) ≡ sent p (more a ps e)
  unfolding round
  round_more r a p h = by_sync r a p (discard_until_valid r) refl h
