-- ===== src/Message/Cases.antt =====
-- `GameEventMessage.Decode` on any input.
use zanarkand.Message.Body.{
  front, game_event_body_reads, game_event_body_panics, game_event_body_full, game_event_body_short,
  game_event_body_negative, after_header,
}
use zanarkand.Prelude.{
  subst, le_or_lt, inl, inr, ℕ, ◌+◌, ◌-◌, ◌≤◌, ◌<◌, ◌≡◌, ap, ◌∙◌, arith, length, take, drop,
  length-drop,
}
use zanarkand.Prelude.Int.{pos, negsuc}
use zanarkand.Prelude.Bytes.{Bytes}
use zanarkand.Io.{IoError, Reader, size}
use zanarkand.Io.Peek.{Passed, Passed-trans}
use zanarkand.Io.View.{stream}
use zanarkand.Error.{Outcome, io, not_enough_data, ok, err, panic, ok-injective}
use zanarkand.Message.{GameEventMessage, decode_game_event, set_game_event}
use zanarkand.Message.Wire.{decode_header_short}

-- With a buffer of at least 16 bytes, a message that announces 16 to 31 bytes, all of them there,
-- makes `Decode` panic.
decode_game_event_panics :
    (m : GameEventMessage) (r : Reader)
    → 16 ≤ size r
    → 16 ≤ (front (stream r)).length
    → (front (stream r)).length < 32
    → (front (stream r)).length ≤ length (stream r)
    → decode_game_event m r ≡ panic
decode_game_event_panics m r hs lo hi there =
    let h = front (stream r) in
    let (r', d, p) = after_header m r hs (omega arith) in
    let left : length (stream r') ≡ length (stream r) - 16 =
      ap length p.rest ∙ length-drop 16 (stream r) in
    d ∙ game_event_body_panics m h r' lo hi (omega (arith, p.rest_size)) (omega (arith, left))

-- With a buffer of at least 16 bytes, a message whose announced bytes behind the header are more
-- than the buffer's size is refused with `bufio.ErrBufferFull`, also where all of its bytes are
-- there.
pub decode_game_event_too_long :
    (m : GameEventMessage) (r : Reader)
    → 16 ≤ size r
    → 16 ≤ length (stream r)
    → size r + 16 < (front (stream r)).length
    → (got : ℕ) × (decode_game_event m r
        ≡ err (not_enough_data (pos ((front (stream r)).length - 16)) got (io IoError.buffer_full)))
decode_game_event_too_long m r hs hl big =
    let (r', d, p) = after_header m r hs hl in
    let (got, b) =
      game_event_body_full m (front (stream r)) r' (omega arith) (omega (arith, p.rest_size)) in
    (got, d ∙ b)

decode_game_event_short :
    (m : GameEventMessage) (r : Reader)
    → 16 ≤ size r
    → length (stream r) < 16
    → decode_game_event m r ≡ err (not_enough_data (pos 16) (length (stream r)) (io r.rd_err))
unfolding decode_game_event
decode_game_event_short m r hs hl = rw (decode_header_short r hs hl)

-- What a success tells of the reader before it and after it.
pub record Took (r r' : Reader) (n : ℕ) : Type 0 where
  pub announced : 32 ≤ n
  pub fits : n - 16 ≤ size r
  pub there : n ≤ length (stream r)
  pub passed : Passed n r r'

-- What `Decode` makes of the stream of `r`, for the message `m`: `n` is the length that is announced.
pub data Decoded (m : GameEventMessage) (r : Reader)
    : Outcome (GameEventMessage × Reader) → Type 0 where
  no_header :
      length (stream r) < 16
      → Decoded m r (err (not_enough_data (pos 16) (length (stream r)) (io r.rd_err)))
  below_header :
      16 ≤ length (stream r)
      → (front (stream r)).length < 16
      → Decoded m r (
          err (
            not_enough_data
              (negsuc (16 - (front (stream r)).length - 1))
              0
              (io IoError.negative_count)))
  too_long :
      (got : ℕ)
      → 16 ≤ length (stream r)
      → size r + 16 < (front (stream r)).length
      → Decoded m r (
          err (not_enough_data (pos ((front (stream r)).length - 16)) got (io IoError.buffer_full)))
  cut_short :
      16 ≤ length (stream r)
      → (front (stream r)).length ≤ size r + 16
      → length (stream r) < (front (stream r)).length
      → Decoded m r (
          err (
            not_enough_data
              (pos ((front (stream r)).length - 16))
              (length (stream r) - 16)
              (io r.rd_err)))
  no_ipc_header :
      16 ≤ (front (stream r)).length
      → (front (stream r)).length < 32
      → (front (stream r)).length ≤ length (stream r)
      → Decoded m r panic
  whole :
      (r' : Reader)
      → Took r r' (front (stream r)).length
      → Decoded m r (
          ok (
            set_game_event m
                (front (stream r))
                (take ((front (stream r)).length - 16) (drop 16 (stream r))),
            r',
          ))

module _ (m : GameEventMessage) (r : Reader) (hs : 16 ≤ size r) where
  -- Behind a header that announces at least its own length and fits the buffer.
  in_buffer-Decoded :
      16 ≤ length (stream r)
      → 16 ≤ (front (stream r)).length
      → (front (stream r)).length ≤ size r + 16
      → Decoded m r (decode_game_event m r)
  in_buffer-Decoded long lo fits =
      let h = front (stream r) in
      let (t, d, p) = after_header m r hs long in
      let left : length (stream t) ≡ length (stream r) - 16 =
        ap length p.rest ∙ length-drop 16 (stream r) in
      elim (le_or_lt h.length (length (stream r))) [
        | inr short ↦
            rw
              (d
                ∙ game_event_body_short m h t lo (omega (arith, p.rest_size)) (omega (arith, left))
                ∙ ap (λ (n : ℕ). err (not_enough_data (pos (h.length - 16)) n (io t.rd_err))) left
                ∙ ap
                    (λ (e : IoError).
                      err (not_enough_data (pos (h.length - 16)) (length (stream r) - 16) (io e)))
                    p.rest_err)
              (cut_short long fits short)
        | inl there ↦ elim (le_or_lt 32 h.length) [
          | inr small ↦
              rw (decode_game_event_panics m r hs lo small there) (no_ipc_header lo small there)
          | inl big ↦
              let (u, b, q) =
                game_event_body_reads m h t big (omega (arith, p.rest_size))
                  (omega (arith, left)) in
              let all : 16 + (h.length - 16) ≡ h.length = omega arith in
              rw
                (d
                  ∙ b
                  ∙ ap (λ (s : Bytes). ok (set_game_event m h (take (h.length - 16) s), u)) p.rest)
                (whole u (record {
                  announced = big;
                  fits = omega arith;
                  there = there;
                  passed = subst (λ k. Passed k r u) all (Passed-trans p q);
                }))
        ]
      ]

  -- With a buffer of at least 16 bytes, `Decode` answers each input in one of six ways. Fewer than 16
  -- bytes, or fewer than announced, are an error with the reader's own error; a length below 16 is an
  -- error for a negative count; what is announced behind the header and does not fit the buffer is
  -- refused with `bufio.ErrBufferFull`, also where all of it is there; a length from 16 to 31, all of it
  -- there, makes it panic; and else the message has the fields at their places, and exactly the
  -- announced bytes are taken off the reader.
  pub decode_game_event-Decoded : Decoded m r (decode_game_event m r)
  decode_game_event-Decoded = elim (le_or_lt 16 (length (stream r))) [
    | inr short ↦ rw (decode_game_event_short m r hs short) (no_header short)
    | inl long ↦ elim (le_or_lt 16 (front (stream r)).length) [
      | inr low ↦
          let (t, d, p) = after_header m r hs long in
          rw (d ∙ game_event_body_negative m (front (stream r)) t low) (below_header long low)
      | inl lo ↦ elim (le_or_lt (front (stream r)).length (size r + 16)) [
        | inr big ↦
            let (got, e) = decode_game_event_too_long m r hs long big in
            rw e (too_long got long big)
        | inl fits ↦ in_buffer-Decoded long lo fits
      ]
    ]
  ]

success-Took :
    (m m' : GameEventMessage) (r r' : Reader) (o : Outcome (GameEventMessage × Reader))
    → Decoded m r o
    → o ≡ ok (m', r')
    → Took r r' (front (stream r)).length
success-Took m m' r r' _ (no_header a) e = cc
success-Took m m' r r' _ (below_header a b) e = cc
success-Took m m' r r' _ (too_long a b c) e = cc
success-Took m m' r r' _ (cut_short a b c) e = cc
success-Took m m' r r' _ (no_ipc_header a b c) e = cc
success-Took m m' r r' _ (whole t took) e =
    subst (λ (x : Reader). Took r x (front (stream r)).length)
      (ap (λ (x : GameEventMessage × Reader). x.1) (ok-injective e)) took

-- With a buffer of at least 16 bytes, `Decode` succeeds only on a message that announces at least
-- 32 bytes and no more than are there or than the buffer holds behind the header, and then it takes
-- exactly these bytes off the reader.
decode_game_event_ok :
    (m m' : GameEventMessage) (r r' : Reader)
    → 16 ≤ size r
    → decode_game_event m r ≡ ok (m', r')
    → Took r r' (front (stream r)).length
decode_game_event_ok m m' r r' hs e =
    success-Took m m' r r' (decode_game_event m r) (decode_game_event-Decoded m r hs) e
