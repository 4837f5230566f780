-- ===== src/Io/Peek.antt =====
-- What `Peek`, `Discard` and `Read` do to the stream that a reader stands for.
use zanarkand.Io.View.{
  flat, stream, Same, fill-Same, fill-Stopped, flat_nil, length-stream, fill_enough,
}
use zanarkand.Prelude.{
  leb-true, ltb-true, ltb-false, drop-drop, eq_zero_false, zero, ℕ, suc, ◌+◌, ◌≤◌, ◌<◌, ◌≡◌, refl,
  sym, ap, ◌∙◌, ◌⊎◌, inl, inr, none, some, [], ◌∷◌, ◌++◌, le_or_lt, length, take, drop,
  length-append, length-take, length-drop, take-append_le, drop-append_le, take_all, arith,
}
use zanarkand.Io.{IoError, Reader, size, fill, Peeked, peek, peek_at, discard, read, read_buf}
use zanarkand.Prelude.Int.{pos}
use zanarkand.Prelude.Bytes.{Bytes}

-- `Peek` of `n` bytes that the stream has and the buffer can hold.
pub record Shows (n : ℕ) (r : Reader) (p : Peeked) : Type 0 where
  pub shown : p.bytes ≡ take n (stream r)
  pub no_err : p.err ≡ none
  pub kept : Same r p.after
  pub buffered : n ≤ length p.after.buf

-- `Peek` of more bytes than the stream has, or than the buffer can hold.
pub record Fails (r : Reader) (e : IoError) (p : Peeked) : Type 0 where
  pub shown : p.bytes ≡ take (length p.bytes) (stream r)
  pub an_err : p.err ≡ some e
  pub kept : Same r p.after

buf_of_stream :
    (n : ℕ) (r r' : Reader) → Same r r' → n ≤ length r'.buf → take n r'.buf ≡ take n (stream r)
buf_of_stream n r r' s h = sym (take-append_le n r'.buf (flat r'.rd) h) ∙ ap (take n) s.same_stream

pub peek-Shows :
    (n : ℕ) (r : Reader) → n ≤ size r → n ≤ length (stream r) → Shows n r (peek (pos n) r)
unfolding peek
peek-Shows n r hs hl =
    let s : Same r (fill n r) = fill-Same n r in
    let b : n ≤ length (fill n r).buf = fill_enough n r hs hl in
    let z : n ≤ size (fill n r) = omega (arith, s.same_size) in
    rw (ltb-false (size (fill n r)) n z) (
      rw (ltb-false (length (fill n r).buf) n b) (record {
        shown = buf_of_stream n r (fill n r) s b;
        no_err = refl;
        kept = s;
        buffered = b;
      }))

Fails-buf :
    (r r' : Reader) {d e : IoError}
    → Same r r'
    → d ≡ e
    → Fails r e (record { bytes = r'.buf; spare = r'.stale; err = some d; after = r' })
Fails-buf r r' s e = record {
  shown =
      sym (take_all (length r'.buf) r'.buf (omega arith))
      ∙ buf_of_stream (length r'.buf) r r' s (omega arith);
  an_err = ap some e;
  kept = s;
}

pub peek_full : (n : ℕ) (r : Reader) → size r < n → Fails r IoError.buffer_full (peek (pos n) r)
unfolding peek
peek_full n r h =
    let s : Same r (fill n r) = fill-Same n r in
    let z : size (fill n r) < n = omega (arith, s.same_size) in
    rw (ltb-true (size (fill n r)) n z) (Fails-buf r (fill n r) s refl)

length_buf_le : (r r' : Reader) → Same r r' → length r'.buf ≤ length (stream r)
length_buf_le r r' s = omega (arith, length-stream r', ap length s.same_stream)

pub peek_short :
    (n : ℕ) (r : Reader) → n ≤ size r → length (stream r) < n → Fails r r.rd_err (peek (pos n) r)
unfolding peek
peek_short n r hs h =
    let s : Same r (fill n r) = fill-Same n r in
    let b : length (fill n r).buf < n = omega (arith, length_buf_le r (fill n r) s) in
    let z : n ≤ size (fill n r) = omega (arith, s.same_size) in
    rw (ltb-false (size (fill n r)) n z)
      (rw (ltb-true (length (fill n r).buf) n b) (Fails-buf r (fill n r) s s.same_err))

-- How `Peek` ends, by the stream and the size of the buffer.
peek_cases :
    (n : ℕ) (r : Reader)
    → ((n ≤ size r) × (n ≤ length (stream r)) × Shows n r (peek (pos n) r))
      ⊎ ((e : IoError) × ((size r < n) ⊎ (length (stream r) < n)) × Fails r e (peek (pos n) r))
peek_cases n r = elim (le_or_lt n (size r)) [
  | inl hs ↦ elim (le_or_lt n (length (stream r))) [
    | inl hl ↦ inl (hs, hl, peek-Shows n r hs hl)
    | inr hl ↦ inr (r.rd_err, inr hl, peek_short n r hs hl)
  ]
  | inr hs ↦ inr (IoError.buffer_full, inl hs, peek_full n r hs)
]

pub stream-discard :
    (n : ℕ) (r : Reader) → n ≤ length r.buf → stream (discard n r) ≡ drop n (stream r)
stream-discard n r h = sym (drop-append_le n r.buf (flat r.rd) h)

pub size-discard : (n : ℕ) (r : Reader) → size (discard n r) ≡ size r
size-discard n r =
    omega (arith, length-append r.used (take n r.buf), length-take n r.buf, length-drop n r.buf)

-- A peek and a discard of as many bytes, as every decoder makes it.
pub record Passed (n : ℕ) (r r' : Reader) : Type 0 where
  pub rest : stream r' ≡ drop n (stream r)
  pub rest_size : size r' ≡ size r
  pub rest_err : r'.rd_err ≡ r.rd_err
  pub rest_end : r.rd ≡ [] → r'.rd ≡ []

pub Shows-Passed : {n : ℕ} {r : Reader} {p : Peeked} → Shows n r p → Passed n r (discard n p.after)
Shows-Passed {n} {r} {p} s = record {
  rest = stream-discard n p.after s.buffered ∙ ap (drop n) s.kept.same_stream;
  rest_size = size-discard n p.after ∙ s.kept.same_size;
  rest_err = s.kept.same_err;
  rest_end = s.kept.same_end;
}

read_buf_copies :
    (n : ℕ) (r : Reader) (b : Bytes)
    → 0 < length b
    → read_buf n r b ≡ record { bytes = take n r.buf; err = none; after = discard n r }
unfolding read_buf
read_buf_copies n r [] h = absurd (omega arith)
read_buf_copies n r (x ∷ xs) h = refl

-- `Read` where bytes are buffered: it takes them only from the buffer.
pub read_buffered :
    (n : ℕ) (r : Reader)
    → 0 < n
    → 0 < length r.buf
    → read n r ≡ record { bytes = take n r.buf; err = none; after = discard n r }
unfolding read
read_buffered zero r hn hb = elim hn [ ]
read_buffered (suc n) r hn hb =
    rw (eq_zero_false (suc n) hn) (rw (read_buf_copies (suc n) r r.buf hb))

-- `Peek` for more than the stream has shows all of it.
pub peek_short_bytes :
    (n : ℕ) (r : Reader) → n ≤ size r → length (stream r) < n → (peek (pos n) r).bytes ≡ stream r
unfolding peek
peek_short_bytes n r hs h =
    let s : Same r (fill n r) = fill-Same n r in
    let b : length (fill n r).buf < n = omega (arith, length_buf_le r (fill n r) s) in
    let z : n ≤ size (fill n r) = omega (arith, s.same_size) in
    rw (ltb-false (size (fill n r)) n z) (
      rw (ltb-true (length (fill n r).buf) n b) (elim (fill-Stopped n r) [
        | inl k ↦ absurd (omega arith)
        | inr (inl k) ↦ sym (flat_nil (fill n r) k) ∙ s.same_stream
        | inr (inr k) ↦ absurd (omega arith)
      ]))

pub Passed-trans : {m n : ℕ} {r s t : Reader} → Passed m r s → Passed n s t → Passed (m + n) r t
Passed-trans {m} {n} {r} p q = record {
  rest = q.rest ∙ ap (drop n) p.rest ∙ drop-drop m n (stream r);
  rest_size = q.rest_size ∙ p.rest_size;
  rest_err = q.rest_err ∙ p.rest_err;
  rest_end = λ h. q.rest_end (p.rest_end h);
}

-- A look at what is buffered leaves the reader as it is.
pub peek_buffered : (n : ℕ) (r : Reader) → n ≤ length r.buf → (peek (pos n) r).after ≡ r
unfolding peek
peek_buffered n r h =
    rw (leb-true n (length r.buf) h)
      (rw (ltb-false (size r) n (omega arith)) (rw (ltb-false (length r.buf) n h)))

-- `Peek` of what is buffered looks at the front of the buffer and reads nothing.
pub peek_front_of :
    (n : ℕ) (r : Reader)
    → n ≤ length r.buf
    → peek (pos n) r
      ≡ record { bytes = take n r.buf; spare = drop n r.buf ++ r.stale; err = none; after = r }
unfolding peek peek_at fill
peek_front_of n r h =
    rw (leb-true n (length r.buf) h)
      (rw (ltb-false (size r) n (omega arith)) (rw (ltb-false (length r.buf) n h) refl))
