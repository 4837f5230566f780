-- ===== src/Io/View.antt =====
-- The reader as the byte sequence that it has still to give. `Peek` shows a prefix of it and leaves it
-- alone; `Discard` drops a prefix.
use zanarkand.Prelude.{
  leb-true, leb-false, ℕ, ◌+◌, ◌≤◌, ◌<◌, ◌≡◌, refl, sym, ap, ◌∙◌, ◌⊎◌, inl, inr, List, [], ◌∷◌,
  ◌++◌, leb, Bool-cases, le_or_lt, length, take, drop, length-append, length-take, length-drop,
  take-append-drop, append-nil, append_assoc, arith,
}
use zanarkand.Prelude.Bytes.{Bytes}
use zanarkand.Io.{Reader, size, slide, fill_loop, fill}

abbrev pub flat : List Bytes → Bytes
flat [] = []
flat (c ∷ cs) = c ++ flat cs

abbrev pub stream : Reader → Bytes
stream r = r.buf ++ flat r.rd

-- Nothing but the place of the bytes differs.
pub record Same (r r' : Reader) : Type 0 where
  pub same_stream : stream r' ≡ stream r
  pub same_size : size r' ≡ size r
  pub same_err : r'.rd_err ≡ r.rd_err
  pub same_end : r.rd ≡ [] → r'.rd ≡ []

Same_refl : (r : Reader) → Same r r
Same_refl r = record { same_stream = refl; same_size = refl; same_err = refl; same_end = λ h. h }

pub Same_trans : {r s t : Reader} → Same r s → Same s t → Same r t
Same_trans p q = record {
  same_stream = q.same_stream ∙ p.same_stream;
  same_size = q.same_size ∙ p.same_size;
  same_err = q.same_err ∙ p.same_err;
  same_end = λ h. q.same_end (p.same_end h);
}

pub slide-Same : (r : Reader) → Same r (slide r)
slide-Same r = record {
  same_stream = refl;
  same_size = omega (
    arith,
    length-drop (length r.buf) (r.used ++ r.buf ++ r.stale),
    length-append (r.used ++ r.buf) r.stale,
    length-append r.used r.buf,
  );
  same_err = refl;
  same_end = λ h. h;
}

step_in :
    (r : Reader) (c : Bytes) (cs : List Bytes)
    → r.rd ≡ c ∷ cs
    → length c ≤ length r.stale
    → Same r (record r { buf = r.buf ++ c; stale = drop (length c) r.stale; rd = cs })
step_in r c cs e h = record {
  same_stream = append_assoc r.buf c (flat cs) ∙ ap (λ (x : List Bytes). r.buf ++ flat x) (sym e);
  same_size = omega (arith, length-append r.buf c, length-drop (length c) r.stale);
  same_err = refl;
  same_end = λ h. cc (h, e);
}

step_full :
    (r : Reader) (c : Bytes) (cs : List Bytes)
    → r.rd ≡ c ∷ cs
    → length r.stale < length c
    → Same r (record r {
      buf = r.buf ++ take (length r.stale) c;
      stale = [];
      rd = drop (length r.stale) c ∷ cs;
    })
step_full r c cs e h = record {
  same_stream =
      append_assoc r.buf (take (length r.stale) c) (drop (length r.stale) c ++ flat cs)
      ∙ ap (λ (x : Bytes). r.buf ++ x)
          (sym (append_assoc (take (length r.stale) c) (drop (length r.stale) c) (flat cs)))
      ∙ rw (take-append-drop (length r.stale) c, e);
  same_size =
      omega (arith, length-append r.buf (take (length r.stale) c), length-take (length r.stale) c);
  same_err = refl;
  same_end = λ h. cc (h, e);
}

with_rd : (r : Reader) (cs : List Bytes) → r.rd ≡ cs → Same r (record r { rd = cs })
with_rd r cs e = record {
  same_stream = ap (λ (x : List Bytes). r.buf ++ flat x) (sym e);
  same_size = refl;
  same_err = refl;
  same_end = λ h. sym e ∙ h;
}

fill_loop-Same : (n : ℕ) (r : Reader) (cs : List Bytes) → r.rd ≡ cs → Same r (fill_loop n r cs)
unfolding fill_loop
fill_loop-Same n r [] e = with_rd r [] e
fill_loop-Same n r (c ∷ cs) e = elim (le_or_lt n (length r.buf)) [
  | inl h ↦ rw (leb-true n (length r.buf) h) (with_rd r (c ∷ cs) e)
  | inr h ↦ rw (leb-false n (length r.buf) h) (elim (le_or_lt (length c) (length r.stale)) [
    | inl k ↦ rw (leb-true (length c) (length r.stale) k) (
        Same_trans (step_in r c cs e k) (
          fill_loop-Same n (record r { buf = r.buf ++ c; stale = drop (length c) r.stale; rd = cs })
            cs refl))
    | inr k ↦ rw (leb-false (length c) (length r.stale) k) (step_full r c cs e k)
  ])
]

pub fill-Same : (n : ℕ) (r : Reader) → Same r (fill n r)
unfolding fill
fill-Same n r = elim (Bool-cases (leb n (length r.buf))) [
  | inl h ↦ rw h (Same_refl r)
  | inr h ↦ rw h (Same_trans (slide-Same r) (fill_loop-Same n (slide r) r.rd refl))
]

-- Why `fill` stopped.
abbrev pub Stopped : ℕ → Reader → Type 0
Stopped n r = (n ≤ length r.buf) ⊎ (r.rd ≡ []) ⊎ (size r ≤ length r.buf)

fill_loop-Stopped :
    (n : ℕ) (r : Reader) (cs : List Bytes) → r.used ≡ [] → Stopped n (fill_loop n r cs)
unfolding fill_loop
fill_loop-Stopped n r [] e = inr (inl refl)
fill_loop-Stopped n r (c ∷ cs) e = elim (le_or_lt n (length r.buf)) [
  | inl h ↦ rw (leb-true n (length r.buf) h) (inl h)
  | inr h ↦ rw (leb-false n (length r.buf) h) (elim (le_or_lt (length c) (length r.stale)) [
    | inl k ↦ rw (leb-true (length c) (length r.stale) k) (
        fill_loop-Stopped n
          (record r { buf = r.buf ++ c; stale = drop (length c) r.stale; rd = cs }) cs e)
    | inr k ↦ rw (leb-false (length c) (length r.stale) k) (inr (inr (rw e (omega arith))))
  ])
]

pub fill-Stopped : (n : ℕ) (r : Reader) → Stopped n (fill n r)
unfolding fill
fill-Stopped n r = elim (le_or_lt n (length r.buf)) [
  | inl h ↦ rw (leb-true n (length r.buf) h) (inl h)
  | inr h ↦ rw (leb-false n (length r.buf) h) (fill_loop-Stopped n (slide r) r.rd refl)
]

pub flat_nil : (r : Reader) → r.rd ≡ [] → stream r ≡ r.buf
flat_nil r e = rw e (append-nil r.buf)

pub length-stream : (r : Reader) → length (stream r) ≡ length r.buf + length (flat r.rd)
length-stream r = length-append r.buf (flat r.rd)

-- `fill` gathers `n` bytes, if the buffer can hold them and the stream has them.
pub fill_enough :
    (n : ℕ) (r : Reader) → n ≤ size r → n ≤ length (stream r) → n ≤ length (fill n r).buf
fill_enough n r hs hl = elim (fill-Stopped n r) [
  | inl h ↦ h
  | inr (inl h) ↦
      omega (arith, ap length (flat_nil (fill n r) h), ap length (fill-Same n r).same_stream)
  | inr (inr h) ↦ omega (arith, (fill-Same n r).same_size)
]
