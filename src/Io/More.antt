-- ===== src/Io/More.antt =====
-- A reader below which more follows: what was read without an error is read alike.
use zanarkand.Prelude.{
  ℕ, ◌≤◌, ◌<◌, ◌≡◌, ◌≢◌, refl, subst, Option, none, some, List, [], ◌∷◌, ◌++◌, ltb-false, ltb-true,
  leb-true, leb-false, le_or_lt, inl, inr, length, take, drop,
}
use zanarkand.Prelude.Int.{pos}
use zanarkand.Prelude.Bytes.{Bytes}
use zanarkand.Io.{IoError, Reader, size, slide, fill_loop, fill, peek, peek_at}
use zanarkand.Io.Fill.{fill_loop_done}

-- `r` with more pieces behind its own, and another end.
abbrev pub more : Reader → List Bytes → IoError → Reader
more r ps e = record r { rd = r.rd ++ ps; rd_err = e }

fill_loop_more :
    (n : ℕ) (r : Reader) (cs ps : List Bytes) (e : IoError)
    → n ≤ length (fill_loop n r cs).buf
    → fill_loop n (more r ps e) (cs ++ ps) ≡ more (fill_loop n r cs) ps e
unfolding fill_loop
fill_loop_more n r [] ps e h = fill_loop_done n (more r ps e) ps h
fill_loop_more n r (c ∷ cs) ps e h = elim (le_or_lt n (length r.buf)) [
  | inl enough ↦ rw (leb-true n (length r.buf) enough) refl
  | inr few ↦ elim (le_or_lt (length c) (length r.stale)) [
    | inr long ↦
        rw (leb-false n (length r.buf) few) (rw (leb-false (length c) (length r.stale) long) refl)
    | inl fits ↦
        let t : Reader = record r { buf = r.buf ++ c; stale = drop (length c) r.stale; rd = cs } in
        let same : fill_loop n r (c ∷ cs) ≡ fill_loop n t cs =
          rw (leb-false n (length r.buf) few)
            (rw (leb-true (length c) (length r.stale) fits) refl) in
        rw (leb-false n (length r.buf) few) (
          rw (leb-true (length c) (length r.stale) fits)
            (fill_loop_more n t cs ps e (subst (λ x. n ≤ length x.buf) same h)))
  ]
]

fill_more :
    (n : ℕ) (r : Reader) (ps : List Bytes) (e : IoError)
    → n ≤ length (fill n r).buf
    → fill n (more r ps e) ≡ more (fill n r) ps e
unfolding fill
fill_more n r ps e h = elim (le_or_lt n (length r.buf)) [
  | inl enough ↦ rw (leb-true n (length r.buf) enough) refl
  | inr few ↦
      let same : fill n r ≡ fill_loop n (slide r) r.rd = rw (leb-false n (length r.buf) few) refl in
      rw (leb-false n (length r.buf) few)
        (fill_loop_more n (slide r) r.rd ps e (subst (λ x. n ≤ length x.buf) same h))
]

peek_at_full : (n : ℕ) (r : Reader) → size r < n → (peek_at n r).err ≡ some IoError.buffer_full
unfolding peek_at
peek_at_full n r h = rw (ltb-true (size r) n h) refl

peek_at_short :
    (n : ℕ) (r : Reader) → n ≤ size r → length r.buf < n → (peek_at n r).err ≡ some r.rd_err
unfolding peek_at
peek_at_short n r hs h = rw (ltb-false (size r) n hs) (rw (ltb-true (length r.buf) n h) refl)

none-some : {x : Option IoError} {a : IoError} → x ≡ none → x ≢ some a
none-some e k = cc

-- What `peek_at` answers without an error, it had buffered.
peek_at_shows : (n : ℕ) (r : Reader) → (peek_at n r).err ≡ none → (n ≤ size r) × (n ≤ length r.buf)
peek_at_shows n r e = elim (le_or_lt n (size r)) [
  | inr full ↦ absurd (none-some e (peek_at_full n r full))
  | inl hs ↦ elim (le_or_lt n (length r.buf)) [
    | inr short ↦ absurd (none-some e (peek_at_short n r hs short))
    | inl hb ↦ (hs, hb)
  ]
]

peek_at_buffered :
    (n : ℕ) (r : Reader)
    → n ≤ size r
    → n ≤ length r.buf
    → peek_at n r
      ≡ record { bytes = take n r.buf; spare = drop n r.buf ++ r.stale; err = none; after = r }
unfolding peek_at
peek_at_buffered n r hs hb = rw (ltb-false (size r) n hs) (rw (ltb-false (length r.buf) n hb) refl)

-- A look that shows all that it asked for shows the same with more below.
pub peek_more :
    (n : ℕ) (r : Reader) (ps : List Bytes) (e : IoError)
    → (peek (pos n) r).err ≡ none
    → peek (pos n) (more r ps e)
      ≡ record (peek (pos n) r) { after = more (peek (pos n) r).after ps e }
unfolding peek
peek_more n r ps e h =
    let (hs, hb) = peek_at_shows n (fill n r) h in
    rw (fill_more n r ps e hb) (
      rw (peek_at_buffered n (more (fill n r) ps e) hs hb)
        (rw (peek_at_buffered n (fill n r) hs hb) refl))

-- Such a look has buffered what it shows.
pub peek_buffers :
    (n : ℕ) (r : Reader) → (peek (pos n) r).err ≡ none → n ≤ length (peek (pos n) r).after.buf
unfolding peek
peek_buffers n r h =
    let (hs, hb) = peek_at_shows n (fill n r) h in rw (peek_at_buffered n (fill n r) hs hb) hb
