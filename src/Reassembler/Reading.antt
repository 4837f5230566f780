-- ===== src/Reassembler/Reading.antt =====
-- The steps of a round: the search past other bytes, and the read of a frame.
use zanarkand.Io.Peek.{peek_buffered, Shows, peek-Shows, read_buffered}
use zanarkand.Prelude.{
  take_all, eq_false, take-append-drop, ℕ, ◌≤◌, ◌<◌, ◌≡◌, refl, sym, ap, ◌∙◌, inl, inr, le_or_lt,
  ==_iff, [], ◌++◌, Option, some, length, take, drop, length-drop, take-append_le, drop-append_eq,
  drop-append_le, take_length_le, arith, subst,
}
use zanarkand.Prelude.Int.{pos}
use zanarkand.Prelude.Bytes.{Bytes, le, slice, le-le_bytes}
use zanarkand.Io.{Reader, peek, size, discard}
use zanarkand.Io.View.{stream, Same}
use zanarkand.Error.{text, less_read, Outcome, ok}
use zanarkand.Frame.{frame_magic_le}
use zanarkand.Frame.Sync.{IsSynced, SyncedAt, Sync}
use zanarkand.Frame.Wire.{Wire, WireFits, encode_frame}
use zanarkand.Reassembler.{sent, stopped, after_sync, take_frame, read_frame, send}

-- The length that a frame's header announces.
abbrev pub announced : Bytes → ℕ
announced s = le (slice 24 28 s)

pub announced-append : (x y : Bytes) → 28 ≤ length x → announced (x ++ y) ≡ announced x
announced-append x y h =
    ap (λ (t : Bytes). le (take 4 t)) (drop-append_le 24 x y (omega arith))
    ∙ ap le (take-append_le 4 (drop 24 x) y (omega (arith, length-drop 24 x)))

pub announced-take :
    (n : ℕ) (s : Bytes) → 28 ≤ n → n ≤ length s → announced (take n s) ≡ announced s
announced-take n s lo h =
    sym (announced-append (take n s) (drop n s) (omega (arith, take_length_le n s h)))
    ∙ ap announced (take-append-drop n s)

module _ {F : Type 0} (net : F) (r : Reader) where
  -- Behind the search, where a header is there: `Read` gives what is buffered, at most.
  pub after_sync_reads :
      40 ≤ size r
      → 40 ≤ length (stream r)
      → (t : Reader) × Same r t
        × (40 ≤ length t.buf)
        × (40 ≤ length r.buf → t ≡ r)
        × (after_sync net (some (ok r)) ≡ read_frame net (announced (stream r)) t)
  unfolding after_sync take_frame
  after_sync_reads hs hl =
      let s : Shows 40 r (peek (pos 40) r) = peek-Shows 40 r hs hl in
      (
        (peek (pos 40) r).after,
        s.kept,
        s.buffered,
        peek_buffered 40 r,
        rw (s.no_err, s.shown)
            (ap (λ (n : ℕ). read_frame net n (peek (pos 40) r).after)
              (announced-take 40 (stream r) (omega arith) hl)),
      )

  -- All of the frame is buffered: it is sent.
  pub read_frame_sends :
      (n : ℕ)
      → 0 < n
      → n ≤ length r.buf
      → read_frame net n r ≡ sent (record { body = take n r.buf; flow = net }) (discard n r)
  unfolding read_frame send
  read_frame_sends n hn hb =
      rw (read_buffered n r hn (omega arith)) (rw (take_length_le n r.buf hb, (==_iff n n).1 refl))

  -- Part of it is buffered: the loop ends.
  pub read_frame_stops :
      (n : ℕ)
      → 0 < length r.buf
      → length r.buf < n
      → read_frame net n r ≡ stopped (text (less_read (length r.buf) n))
  unfolding read_frame send
  read_frame_stops n hb hn =
      rw (read_buffered n r (omega arith) hb)
        (rw (take_all n r.buf (omega arith), eq_false (length r.buf) n (omega arith)))

-- No frame may start in `junk`, with `rest` behind it.
abbrev pub Quiet : Bytes → Bytes → Type 0
Quiet junk rest = (j : ℕ) → j < length junk → ¬ IsSynced (drop j (junk ++ rest))

pub drop_junk : (junk rest : Bytes) → drop (length junk) (junk ++ rest) ≡ rest
drop_junk junk rest = drop-append_eq (length junk) junk rest refl

-- The search goes exactly past the junk.
pub Sync-skips :
    (r : Reader) (junk rest : Bytes) (o : Option (Outcome Reader))
    → stream r ≡ junk ++ rest
    → Quiet junk rest
    → IsSynced rest
    → Sync r o
    → (r' : Reader) × (o ≡ some (ok r')) × (stream r' ≡ rest) × SyncedAt r r'
Sync-skips r junk rest o e quiet here (inl (r', w, s)) = elim (le_or_lt s.skipped (length junk)) [
  | inl le ↦ elim (le_or_lt (length junk) s.skipped) [
    | inl ge ↦
        let eq : s.skipped ≡ length junk = omega arith in
        (
          r',
          w,
          s.rest
              ∙ ap (drop s.skipped) e
              ∙ ap (λ (k : ℕ). drop k (junk ++ rest)) eq
              ∙ drop_junk junk rest,
          s,
        )
    | inr lt ↦ absurd (quiet s.skipped lt (subst IsSynced (s.rest ∙ ap (drop s.skipped) e) s.found))
  ]
  | inr gt ↦ absurd (
      s.first (length junk) gt
        (subst IsSynced (sym (ap (drop (length junk)) e ∙ drop_junk junk rest)) here))
]
Sync-skips r junk rest o e quiet here (inr (w, nowhere)) = absurd (
    nowhere (length junk)
      (subst IsSynced (sym (ap (drop (length junk)) e ∙ drop_junk junk rest)) here))

-- A frame as the game sends it.
pub record IsFrame (w : Wire) : Type 0 where
  pub fits : WireFits w
  pub magic_is : w.magic ≡ frame_magic_le

pub frame-IsSynced : (w : Wire) (rest : Bytes) → IsFrame w → IsSynced (encode_frame w ++ rest)
unfolding encode_frame
frame-IsSynced w rest h = (omega arith, le-le_bytes 8 w.magic h.fits.magic_fits ∙ h.magic_is)

pub announced-encode :
    (w : Wire) (rest : Bytes) → WireFits w → announced (encode_frame w ++ rest) ≡ w.length
unfolding encode_frame
announced-encode w rest h = le-le_bytes 4 w.length h.length_fits

-- `r'` is the reader behind the frame that a round has sent.
pub record Behind (r r' : Reader) (rest : Bytes) : Type 0 where
  pub left : stream r' ≡ rest
  pub same_size : size r' ≡ size r
  pub same_err : r'.rd_err ≡ r.rd_err
  pub all_read : r'.rd ≡ []
