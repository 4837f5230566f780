-- ===== src/Message/Body.antt =====
-- `GameEventMessage.Decode` behind the header, case by case.
use zanarkand.Io.Peek.{peek_short, peek_short_bytes, Shows, Fails, peek_full, Passed, Shows-Passed}
use zanarkand.Prelude.{
  ℕ, ◌-◌, ◌≤◌, ◌<◌, ◌≡◌, arith, length, take, take_length_le, ltb-false, ltb-true,
}
use zanarkand.Prelude.Int.{pos, negsuc, sub_ℕ, sub_ℕ_pos, sub_ℕ_neg}
use zanarkand.Prelude.Bytes.{Bytes}
use zanarkand.Io.{IoError, Reader, peek, size, discard}
use zanarkand.Io.View.{stream}
use zanarkand.Error.{io, not_enough_data, ok, err, panic}
use zanarkand.Message.{
  GenericHeader, header_of, GameEventMessage, decode_game_event, game_event_body, set_game_event,
}
use zanarkand.Message.Wire.{decode_header_reads, body_peek}

-- The header at the front of a byte string.
abbrev pub front : Bytes → GenericHeader
front s = header_of (take 16 s)

module _ (m : GameEventMessage) (h : GenericHeader) (r : Reader) where
  pub game_event_body_reads :
      32 ≤ h.length
      → h.length - 16 ≤ size r
      → h.length - 16 ≤ length (stream r)
      → (r' : Reader) × (game_event_body m h r
          ≡ ok (set_game_event m h (take (h.length - 16) (stream r)), r'))
        × Passed (h.length - 16) r r'
  unfolding game_event_body
  game_event_body_reads hl hs hn =
      let s : Shows (h.length - 16) r (peek (sub_ℕ h.length 16) r) =
        body_peek h r (omega arith) hs hn in
      let l : length (take (h.length - 16) (stream r)) ≡ h.length - 16 = take_length_le _ _ hn in
      (
        discard (h.length - 16) (peek (sub_ℕ h.length 16) r).after,
        rw (s.no_err, s.shown, l) (rw (ltb-false (h.length - 16) 16 (omega arith))),
        Shows-Passed s,
      )

  pub game_event_body_panics :
      16 ≤ h.length
      → h.length < 32
      → h.length - 16 ≤ size r
      → h.length - 16 ≤ length (stream r)
      → game_event_body m h r ≡ panic
  unfolding game_event_body
  game_event_body_panics lo hi hs hn =
      let s : Shows (h.length - 16) r (peek (sub_ℕ h.length 16) r) = body_peek h r lo hs hn in
      let l : length (take (h.length - 16) (stream r)) ≡ h.length - 16 = take_length_le _ _ hn in
      rw (s.no_err, s.shown, l) (rw (ltb-true (h.length - 16) 16 (omega arith)))

  -- Any failure of the second `Peek` is returned with what it was asked for.
  pub game_event_body_full :
      16 ≤ h.length
      → size r < h.length - 16
      → (got : ℕ) × (game_event_body m h r
          ≡ err (not_enough_data (pos (h.length - 16)) got (io IoError.buffer_full)))
  unfolding game_event_body
  game_event_body_full lo hs =
      let f : Fails r IoError.buffer_full (peek (pos (h.length - 16)) r) =
        peek_full (h.length - 16) r hs in
      (length (peek (pos (h.length - 16)) r).bytes, rw (sub_ℕ_pos h.length 16 lo) (rw f.an_err))

  pub game_event_body_short :
      16 ≤ h.length
      → h.length - 16 ≤ size r
      → length (stream r) < h.length - 16
      → game_event_body m h r
        ≡ err (not_enough_data (pos (h.length - 16)) (length (stream r)) (io r.rd_err))
  unfolding game_event_body
  game_event_body_short lo hs hn =
      rw (sub_ℕ_pos h.length 16 lo)
        (rw ((peek_short (h.length - 16) r hs hn).an_err, peek_short_bytes (h.length - 16) r hs hn))

  pub game_event_body_negative :
      h.length < 16
      → game_event_body m h r
        ≡ err (not_enough_data (negsuc (16 - h.length - 1)) 0 (io IoError.negative_count))
  unfolding game_event_body peek
  game_event_body_negative hl = rw (sub_ℕ_neg h.length 16 hl)

-- What `Decode` has after the header, for any stream of 16 bytes or more.
pub after_header :
    (m : GameEventMessage) (r : Reader)
    → 16 ≤ size r
    → 16 ≤ length (stream r)
    → (r' : Reader) × (decode_game_event m r ≡ game_event_body m (front (stream r)) r')
      × Passed 16 r r'
unfolding decode_game_event
after_header m r hs hl = let (r', d, p) = decode_header_reads r hs hl in (r', rw d, p)
