-- ===== src/Io/Array.antt =====
-- The array of a reader's buffer, of which `Peek` gives slices.
use zanarkand.Prelude.{
  ℕ, ◌+◌, ◌≤◌, ◌<◌, ◌≡◌, refl, sym, ap, ◌∙◌, subst, inl, inr, Bool-cases, List, [], ◌∷◌, ◌++◌, ltb,
  le_or_lt, length, take, drop, length-drop, take_all, take_length_le, take-append_le,
  take-append-drop, drop-append_le, leb, leb-false, append_assoc, arith,
}
use zanarkand.Prelude.Int.{ℤ, pos, negsuc}
use zanarkand.Prelude.Bytes.{Bytes}
use zanarkand.Io.{Reader, peek, peek_at, discard, fill, fill_loop, slide}
use zanarkand.Io.View.{stream, flat, fill-Same}
use zanarkand.Io.Fill.{peek_after}
use zanarkand.Io.Peek.{peek_buffered}

-- The array of `b.buf`.
abbrev pub array : Reader → Bytes
array r = r.used ++ (r.buf ++ r.stale)

-- A slice of the array: where it starts, and its length.
pub record Slice : Type 0 where
  pub start : ℕ
  pub len : ℕ

-- What stands in the slice now.
abbrev pub contents : Slice → Reader → Bytes
contents v r = take v.len (drop v.start (array r))

take_again : (n : ℕ) (p : Bytes) → take (length (take n p)) p ≡ take n p
take_again n p = elim (le_or_lt n (length p)) [
  | inl h ↦ ap (λ (k : ℕ). take k p) (take_length_le n p h)
  | inr h ↦
      ap (λ (b : Bytes). take (length b) p) (take_all n p (omega arith))
      ∙ take_all (length p) p (omega arith)
      ∙ sym (take_all n p (omega arith))
]

-- What `Peek` shows is the front of the buffer.
pub peek_front :
    (k : ℤ) (r : Reader) → take (length (peek k r).bytes) (peek k r).after.buf ≡ (peek k r).bytes
unfolding peek
peek_front (negsuc n) r = refl
peek_front (pos n) r = at (fill n r)
  where
    at :
        (t : Reader)
        → take (length (peek_at n t).bytes) (peek_at n t).after.buf ≡ (peek_at n t).bytes
    at t = elim (Bool-cases (ltb (length t.used + length t.buf + length t.stale) n)) [
      | inl full ↦ rw full (take_all (length t.buf) t.buf (omega arith))
      | inr fits ↦ rw fits (elim (Bool-cases (ltb (length t.buf) n)) [
        | inl short ↦ rw short (take_all (length t.buf) t.buf (omega arith))
        | inr long ↦ rw long (take_again n t.buf)
      ])
    ]

array-discard : (n : ℕ) (r : Reader) → array (discard n r) ≡ array r
array-discard n r =
    append_assoc r.used (take n r.buf) (drop n r.buf ++ r.stale)
    ∙ ap (◌++◌ r.used) (
        sym (append_assoc (take n r.buf) (drop n r.buf) r.stale)
        ∙ ap (λ (b : Bytes). b ++ r.stale) (take-append-drop n r.buf))

-- A look at what is buffered, and a discard, leave every slice as it is.
pub contents-discard :
    (v : Slice) (k n : ℕ) (r : Reader)
    → k ≤ length r.buf
    → contents v (discard n (peek (pos k) r).after) ≡ contents v r
contents-discard v k n r h =
    ap (λ (t : Reader). contents v (discard n t)) (peek_buffered k r h)
    ∙ ap (λ (a : Bytes). take v.len (drop v.start a)) (array-discard n r)

fill_loop-used : (n : ℕ) (r : Reader) (cs : List Bytes) → (fill_loop n r cs).used ≡ r.used
unfolding fill_loop
fill_loop-used n r [] = refl
fill_loop-used n r (c ∷ cs) = elim (Bool-cases (leb n (length r.buf))) [
  | inl enough ↦ rw enough refl
  | inr more ↦ rw more (elim (Bool-cases (leb (length c) (length r.stale))) [
    | inl fits ↦ rw fits (
        fill_loop-used n (record r { buf = r.buf ++ c; stale = drop (length c) r.stale; rd = cs })
          cs)
    | inr full ↦ rw full refl
  ])
]

fill-used : (n : ℕ) (r : Reader) → length r.buf < n → (fill n r).used ≡ []
unfolding fill
fill-used n r h = rw (leb-false n (length r.buf) h) (fill_loop-used n (slide r) r.rd)

take-drop-append :
    (s l : ℕ) (p q : Bytes) → s + l ≤ length p → take l (drop s (p ++ q)) ≡ take l (drop s p)
take-drop-append s l p q h =
    ap (take l) (drop-append_le s p q (omega arith))
    ∙ take-append_le l (drop s p) q (omega (arith, length-drop s p))

-- A look at more than is buffered moves the buffer to the front of its array, so a slice that it now
-- covers shows bytes that the reader has still to give.
pub contents-refill :
    (v : Slice) (n : ℕ) (r : Reader)
    → length r.buf < n
    → v.start + v.len ≤ length (peek (pos n) r).after.buf
    → contents v (peek (pos n) r).after ≡ take v.len (drop v.start (stream r))
contents-refill v n r h k =
    let t : Reader = fill n r in
    let fits : v.start + v.len ≤ length t.buf =
      subst (λ (u : Reader). v.start + v.len ≤ length u.buf) (peek_after n r) k in
    ap (contents v) (peek_after n r)
    ∙ ap (λ (u : Bytes). take v.len (drop v.start (u ++ (t.buf ++ t.stale)))) (fill-used n r h)
    ∙ take-drop-append v.start v.len t.buf t.stale fits
    ∙ sym (take-drop-append v.start v.len t.buf (flat t.rd) fits)
    ∙ ap (λ (s : Bytes). take v.len (drop v.start s)) (fill-Same n r).same_stream
