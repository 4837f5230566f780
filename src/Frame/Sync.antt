-- ===== src/Frame/Sync.antt =====
-- `discardUntilValid` stops at the first place of the stream where the magic bytes stand.
use zanarkand.Prelude.{
  subst, drop-suc, ℕ, zero, suc, ◌≤◌, ◌<◌, ◌≡◌, refl, sym, ap, ◌∙◌, ◌⊎◌, inl, inr, true, false,
  ==_iff, Bool-cases, le_or_lt, [], Option, some, length, take, drop, length-drop, arith,
}
use zanarkand.Prelude.Int.{pos}
use zanarkand.Prelude.Bytes.{Bytes, le}
use zanarkand.Io.{IoError, Peeked, Reader, peek, size, discard}
use zanarkand.Io.Peek.{stream-discard, size-discard, Shows, peek-Shows, peek_short, Passed}
use zanarkand.Io.View.{stream, Same}
use zanarkand.Error.{io, Outcome, ok, err}
use zanarkand.Frame.{frame_magic_le, validate_magic, discard_loop, discard_until_valid}

-- A frame may start here.
abbrev pub IsSynced : Bytes → Type 0
IsSynced s = (8 ≤ length s) × (le (take 8 s) ≡ frame_magic_le)

-- `r'` is `r` moved to the first place where a frame may start.
pub record SyncedAt (r r' : Reader) : Type 0 where
  pub skipped : ℕ
  pub rest : stream r' ≡ drop skipped (stream r)
  pub found : IsSynced (stream r')
  pub first : (j : ℕ) → j < skipped → ¬ IsSynced (drop j (stream r))
  pub same_size : size r' ≡ size r
  pub same_err : r'.rd_err ≡ r.rd_err
  pub same_end : r.rd ≡ [] → r'.rd ≡ []

abbrev pub Nowhere : Reader → Type 0
Nowhere r = (j : ℕ) → ¬ IsSynced (drop j (stream r))

abbrev pub Sync : Reader → Option (Outcome Reader) → Type 0
Sync r o =
    ((r' : Reader) × (o ≡ some (ok r')) × SyncedAt r r')
    ⊎ ((o ≡ some (err (io r.rd_err))) × Nowhere r)

valid-IsSynced : (s : Bytes) → 8 ≤ length s → validate_magic (take 8 s) ≡ true → IsSynced s
unfolding validate_magic
valid-IsSynced s h e = (h, (==_iff (le (take 8 s)) frame_magic_le).0 e)

invalid : (s : Bytes) → validate_magic (take 8 s) ≡ false → ¬ IsSynced s
unfolding validate_magic
invalid s e (h, m) = cc (e, (==_iff (le (take 8 s)) frame_magic_le).1 m)

Nowhere-short : (r : Reader) → length (stream r) < 8 → Nowhere r
Nowhere-short r h j (l, m) = omega (arith, length-drop j (stream r))

-- A place one further on is a place of the stream without its first byte.
shift :
    (r t : Reader) (j : ℕ)
    → stream t ≡ drop 1 (stream r)
    → IsSynced (drop (suc j) (stream r))
    → IsSynced (drop j (stream t))
shift r t j e h = subst IsSynced (sym (ap (drop j) e ∙ drop-suc j (stream r))) h

module _ (r t : Reader) (p : Passed 1 r t) (bad : ¬ IsSynced (stream r)) where
  later : (r' : Reader) → SyncedAt t r' → SyncedAt r r'
  later r' s = record {
    skipped = suc s.skipped;
    rest = s.rest ∙ ap (drop s.skipped) p.rest ∙ drop-suc s.skipped (stream r);
    found = s.found;
    first = first;
    same_size = s.same_size ∙ p.rest_size;
    same_err = s.same_err ∙ p.rest_err;
    same_end = λ h. s.same_end (p.rest_end h);
  }
    where
      first : (j : ℕ) → j < suc s.skipped → ¬ IsSynced (drop j (stream r))
      first zero h k = bad k
      first (suc j) h k = s.first j (omega arith) (shift r t j p.rest k)

  Nowhere-later : Nowhere t → Nowhere r
  Nowhere-later n zero k = bad k
  Nowhere-later n (suc j) k = n j (shift r t j p.rest k)

Sync-later :
    (r t : Reader) (o : Option (Outcome Reader))
    → Passed 1 r t
    → ¬ IsSynced (stream r)
    → Sync t o
    → Sync r o
Sync-later r t o p bad (inl (r', e, s)) = inl (r', e, later r t p bad r' s)
Sync-later r t o p bad (inr (e, n)) =
    inr (e ∙ ap (λ (x : IoError). some (err (io x))) p.rest_err, Nowhere-later r t p bad n)

Sync-here : (r t : Reader) → Same r t → IsSynced (stream r) → SyncedAt r t
Sync-here r t s k = record {
  skipped = 0;
  rest = s.same_stream;
  found = subst IsSynced (sym s.same_stream) k;
  first = λ j h. elim h [ ];
  same_size = s.same_size;
  same_err = s.same_err;
  same_end = s.same_end;
}

discard_loop-Sync :
    (fuel : ℕ) (r : Reader) → 8 ≤ size r → length (stream r) < fuel → Sync r (discard_loop fuel r)
unfolding discard_loop
discard_loop-Sync zero r hs h = absurd (omega arith)
discard_loop-Sync (suc fuel) r hs h = elim (le_or_lt 8 (length (stream r))) [
  | inr short ↦ inr (rw (peek_short 8 r hs short).an_err refl, Nowhere-short r short)
  | inl long ↦
      let p : Peeked = peek (pos 8) r in
      let s : Shows 8 r p = peek-Shows 8 r hs long in
      let t : Reader = discard 1 p.after in
      let one : Passed 1 r t = record {
        rest =
            stream-discard 1 p.after (omega (arith, s.buffered)) ∙ ap (drop 1) s.kept.same_stream;
        rest_size = size-discard 1 p.after ∙ s.kept.same_size;
        rest_err = s.kept.same_err;
        rest_end = s.kept.same_end;
      } in
      elim (Bool-cases (validate_magic (take 8 (stream r)))) [
        | inl good ↦ inl (
          p.after,
          rw (s.no_err, s.shown, good) refl,
          Sync-here r p.after s.kept (valid-IsSynced (stream r) long good),
        )
        | inr bad ↦
            rw (s.no_err, s.shown, bad)
              (Sync-later r t (discard_loop fuel t) one (invalid (stream r) bad) (
                discard_loop-Sync fuel t (omega (arith, one.rest_size))
                  (omega (arith, ap length one.rest, length-drop 1 (stream r)))))
      ]
]

-- With a buffer of at least 8 bytes `discardUntilValid` always ends. It leaves the reader at the
-- first place of the stream where the eight magic bytes stand, with nothing behind that place
-- touched; if they stand nowhere, it returns the error that the reader below ends with.
pub discard_until_valid-Sync : (r : Reader) → 8 ≤ size r → Sync r (discard_until_valid r)
unfolding discard_until_valid
discard_until_valid-Sync r hs = discard_loop-Sync (suc (length (stream r))) r hs (omega arith)

-- Where the stream starts with the magic bytes, only the look at them is made.
pub discard_until_valid_here :
    (r : Reader)
    → 8 ≤ size r
    → IsSynced (stream r)
    → discard_until_valid r ≡ some (ok (peek (pos 8) r).after)
unfolding discard_until_valid discard_loop validate_magic
discard_until_valid_here r hs (long, m) =
    let s : Shows 8 r (peek (pos 8) r) = peek-Shows 8 r hs long in
    rw (s.no_err, s.shown, (==_iff (le (take 8 (stream r))) frame_magic_le).1 m)
