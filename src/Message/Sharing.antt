-- ===== src/Message/Sharing.antt =====
-- `m.Body = data[16:]` copies nothing: the body of a message is a part of the reader's own array, which
-- the reader goes on to use.
use zanarkand.Prelude.{
  ℕ, ◌+◌, ◌-◌, ◌≤◌, ◌<◌, ◌≡◌, refl, sym, ap, ◌∙◌, subst, inl, inr, Option, none, some, ◌++◌, ltb,
  length, take, drop, length-append, take-append_eq, drop-append_eq, take-append-drop, Bool-cases,
  append_assoc, if◌then◌else◌, arith,
}
use mathlib.Core.Path.{ap₂}
use zanarkand.Prelude.Int.{ℤ, pos, sub_ℕ}
use zanarkand.Prelude.Bytes.{Bytes}
use zanarkand.Io.{IoError, Reader, Peeked, peek, discard}
use zanarkand.Io.View.{stream}
use zanarkand.Io.Array.{Slice, contents, peek_front, contents-discard, contents-refill}
use zanarkand.Error.{Outcome, ok, err, panic, ◌>>=◌, ok-injective}
use zanarkand.Message.{
  GameEventMessage, GenericHeader, decode_header, decode_game_event, game_event_body,
  set_game_event, checked,
}

-- The slice `data[16:]`, behind `Decode`: it ends where the reader goes on.
abbrev pub body_slice : GameEventMessage → Reader → Slice
body_slice m r = record { start = length r.used - length m.body; len = length m.body }

-- `m` was decoded from `front ++ m.body` in the buffer of `before`, and `after` goes on behind it.
record Cut (m : GameEventMessage) (after : Reader) : Type 0 where
  before : Reader
  front : Bytes
  stood : take (length (front ++ m.body)) before.buf ≡ front ++ m.body
  left : after ≡ discard (length (front ++ m.body)) before

Cut-contents :
    (m : GameEventMessage) (after : Reader)
    → Cut m after
    → contents (body_slice m after) after ≡ m.body
Cut-contents m after c =
    let before : Reader = c.before in
    let n : ℕ = length (c.front ++ m.body) in
    let rest : Bytes = after.buf ++ after.stale in
    let used : after.used ≡ (before.used ++ c.front) ++ m.body =
      ap (λ (r : Reader). r.used) c.left
      ∙ ap (◌++◌ before.used) c.stood
      ∙ sym (append_assoc before.used c.front m.body) in
    let start : length after.used - length m.body ≡ length (before.used ++ c.front) =
      omega (arith, ap length used, length-append (before.used ++ c.front) m.body) in
    ap₂ (λ (k : ℕ) (u : Bytes). take (length m.body) (drop k (u ++ rest))) start used
    ∙ ap (λ (a : Bytes). take (length m.body) (drop (length (before.used ++ c.front)) a))
        (append_assoc (before.used ++ c.front) m.body rest)
    ∙ ap (take (length m.body)) (
        drop-append_eq (length (before.used ++ c.front)) (before.used ++ c.front) (m.body ++ rest)
          refl)
    ∙ take-append_eq (length m.body) m.body rest refl

set-Cut :
    (m : GameEventMessage) (h : GenericHeader) (p : Peeked)
    → take (length p.bytes) p.after.buf ≡ p.bytes
    → Cut (set_game_event m h p.bytes) (discard (length p.bytes) p.after)
set-Cut m h p e =
    let whole : take 16 p.bytes ++ drop 16 p.bytes ≡ p.bytes = take-append-drop 16 p.bytes in
    record {
      before = p.after;
      front = take 16 p.bytes;
      stood = ap (λ (b : Bytes). take (length b) p.after.buf) whole ∙ e ∙ sym whole;
      left = ap (λ (b : Bytes). discard (length b) p.after) (sym whole);
    }

checked-Cut :
    (m m' : GameEventMessage) (h : GenericHeader) (r' : Reader) (k : ℤ) (p : Peeked)
    (o : Option IoError)
    → take (length p.bytes) p.after.buf ≡ p.bytes
    → checked {A = GameEventMessage × Reader} k p o (
        if ltb (length p.bytes) 16
        then panic
        else ok (set_game_event m h p.bytes, discard (length p.bytes) p.after))
      ≡ ok (m', r')
    → Cut m' r'
checked-Cut m m' h r' k p (some x) e q = cc
checked-Cut m m' h r' k p none e q = elim (Bool-cases (ltb (length p.bytes) 16)) [
  | inl short ↦ absurd (cc (rw short at q))
  | inr long ↦
      subst (λ (x : GameEventMessage × Reader). Cut x.0 x.1) (ok-injective (rw long at q))
        (set-Cut m h p e)
]

body-Cut :
    (m m' : GameEventMessage) (h : GenericHeader) (r r' : Reader)
    → game_event_body m h r ≡ ok (m', r')
    → Cut m' r'
unfolding game_event_body
body-Cut m m' h r r' e =
    let k : ℤ = sub_ℕ h.length 16 in
    checked-Cut m m' h r' k (peek k r) (peek k r).err (peek_front k r) e

decoded-Cut :
    (m m' : GameEventMessage) (r r' : Reader) → decode_game_event m r ≡ ok (m', r') → Cut m' r'
unfolding decode_game_event
decoded-Cut m m' r r' e = let (p, d, b) = bound (decode_header r) e in body-Cut m m' p.0 p.1 r' b
  where
    bound :
        (o : Outcome (GenericHeader × Reader))
        → (do (h, t) ← o; game_event_body m h t) ≡ ok (m', r')
        → (p : GenericHeader × Reader) × (o ≡ ok p) × (game_event_body m p.0 p.1 ≡ ok (m', r'))
    bound (ok p) q = (p, refl, q)
    bound (err x) q = cc
    bound panic q = cc

module _ (m m' : GameEventMessage) (r r' : Reader)
    (decoded : decode_game_event m r ≡ ok (m', r')) where
  -- A decoded body is what stands in its slice, and so it is still behind a look at what is buffered and a
  -- discard, as `Decode` makes them of a message that is buffered whole.
  body_slice-contents :
      (k n : ℕ)
      → k ≤ length r'.buf
      → contents (body_slice m' r') (discard n (peek (pos k) r').after) ≡ m'.body
  body_slice-contents k n h =
      contents-discard (body_slice m' r') k n r' h
      ∙ Cut-contents m' r' (decoded-Cut m m' r r' decoded)

  -- A look at more than is buffered overwrites a decoded body: where its slice is covered by the bytes
  -- that are buffered then, it shows bytes that were still to be read behind the message.
  pub body_slice_overwritten :
      (n : ℕ)
      → length r'.buf < n
      → (body_slice m' r').start + length m'.body ≤ length (peek (pos n) r').after.buf
      → (contents (body_slice m' r') r' ≡ m'.body)
        × (contents (body_slice m' r') (peek (pos n) r').after
            ≡ take (length m'.body) (drop (body_slice m' r').start (stream r')))
  body_slice_overwritten n h k = (
    Cut-contents m' r' (decoded-Cut m m' r r' decoded),
    contents-refill (body_slice m' r') n r' h k,
  )
