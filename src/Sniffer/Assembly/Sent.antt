-- ===== src/Sniffer/Assembly/Sent.antt =====
-- What a stream has sent of the pieces that it was given, through its own changes.
use zanarkand.Prelude.{
  ℕ, ◌≡◌, sym, ap, ◌∙◌, subst, List, [], ◌∷◌, ◌++◌, ◌==◌, ==_iff, Bool-cases, inl, inr, update,
  append-nil, append_assoc,
}
use zanarkand.Prelude.Bytes.{Bytes}
use zanarkand.Io.{IoError, Reader, new_reader}
use zanarkand.Io.More.{more}
use zanarkand.Reassembler.{Packet, round, sent, stopped, reader_size}
use zanarkand.Reassembler.More.{round_more}
use zanarkand.Reassembler.Streams.{of_stream}
use zanarkand.Reassembler.Streams.Order.{Rounds, at_start, then_sent, of_stream-append}
use zanarkand.Sniffer.Assembly.{Stream, unopened, live, left, would_block, given, completed}

-- Rounds go alike where more pieces follow, or the stream has ended.
Rounds-more :
    {F : Type 0} {net : F} {first now : Reader} {qs : List (Packet F)} (ps : List Bytes)
    (e : IoError)
    → Rounds net first qs now
    → Rounds net (more first ps e) qs (more now ps e)
Rounds-more ps e at_start = at_start
Rounds-more {net = net} ps e (then_sent {r = r} {after = after} {p = p} h d) =
    then_sent (Rounds-more ps e h) (round_more net ps e r after p d)

-- A stream that was given the pieces `hs` has sent `qs`.
abbrev pub HasSent : {F : Type 0} → Stream F → List Bytes → List (Packet F) → Type 0
HasSent unopened hs qs = (hs ≡ []) × (qs ≡ [])
HasSent (live net now) hs qs = (e : IoError) × Rounds net (new_reader reader_size hs e) qs now
HasSent (left net x later) hs qs =
    (before : List Bytes) × (hs ≡ before ++ later)
    × (e : IoError) × (now : Reader) × Rounds net (new_reader reader_size before e) qs now
    × (round net now ≡ stopped x)

HasSent-given :
    {F : Type 0} (net : F) (p : Bytes) (x : Stream F) (hs : List Bytes) (qs : List (Packet F))
    → HasSent x hs qs
    → HasSent (given net p x) (hs ++ (p ∷ [])) qs
HasSent-given net p unopened hs qs (no_piece, no_packet) =
    let first : Reader = new_reader reader_size (p ∷ []) would_block in
    (
      would_block,
      subst (λ q. Rounds net (new_reader reader_size (hs ++ (p ∷ [])) would_block) q first)
          (sym no_packet)
          (subst (λ h. Rounds net (new_reader reader_size (h ++ (p ∷ [])) would_block) [] first)
            (sym no_piece) at_start),
    )
HasSent-given net p (live n r) hs qs (e, h) = (r.rd_err, Rounds-more (p ∷ []) r.rd_err h)
HasSent-given net p (left n x later) hs qs (before, parts, e, now, h, d) = (
  before,
  ap (λ (l : List Bytes). l ++ (p ∷ [])) parts ∙ append_assoc before later (p ∷ []),
  e,
  now,
  h,
  d,
)

pub HasSent-completed :
    {F : Type 0} (x : Stream F) (hs : List Bytes) (qs : List (Packet F))
    → HasSent x hs qs
    → HasSent (completed x) hs qs
HasSent-completed unopened hs qs h = h
HasSent-completed (live n r) hs qs (e, h) = (
  IoError.eof,
  subst
      (λ l. Rounds n (new_reader reader_size l IoError.eof) qs (record r { rd_err = IoError.eof }))
      (append-nil hs)
      (subst
        (λ l.
          Rounds n (new_reader reader_size (hs ++ []) IoError.eof) qs
            (record r { rd = l; rd_err = IoError.eof }))
        (append-nil r.rd) (Rounds-more [] IoError.eof h)),
)
HasSent-completed (left n x later) hs qs h = h

module _ {F : Type 0} (streams : ℕ → Stream F) (hd : List (ℕ × Bytes)) (h : List (ℕ × Packet F))
    (sends : (j : ℕ) → HasSent (streams j) (of_stream j hd) (of_stream j h)) (i : ℕ) where
  -- Stream `i` changes, as its pieces and its packets allow.
  pub changed :
      (x : Stream F)
      → HasSent x (of_stream i hd) (of_stream i h)
      → (j : ℕ) → HasSent (update streams i x j) (of_stream j hd) (of_stream j h)
  changed x k j = elim (Bool-cases (i == j)) [
    | inl same ↦
        rw same (subst (λ n. HasSent x (of_stream n hd) (of_stream n h)) ((==_iff i j).0 same) k)
    | inr other ↦ rw other (sends j)
  ]

  -- Stream `i` is given `p`.
  pub fed :
      (net : F) (p : Bytes) (j : ℕ)
      → HasSent
          (update streams i (given net p (streams i)) j)
          (of_stream j (hd ++ ((i, p) ∷ [])))
          (of_stream j h)
  fed net p j = elim (Bool-cases (i == j)) [
    | inl same ↦ rw (of_stream-append j hd ((i, p) ∷ [])) (
        rw same (
          subst
            (λ n. HasSent (given net p (streams i)) (of_stream n hd ++ (p ∷ [])) (of_stream n h))
            ((==_iff i j).0 same)
            (HasSent-given net p (streams i) (of_stream i hd) (of_stream i h) (sends i))))
    | inr other ↦
        rw (of_stream-append j hd ((i, p) ∷ []))
          (rw other (rw (append-nil (of_stream j hd)) (sends j)))
  ]

  -- Stream `i` sends `p`.
  pub grown :
      {net : F} {now after : Reader} {p : Packet F}
      → streams i ≡ live net now
      → round net now ≡ sent p after
      → (j : ℕ)
      → HasSent
          (update streams i (live net after) j)
          (of_stream j hd)
          (of_stream j (h ++ ((i, p) ∷ [])))
  grown {net = net} {now = now} {after = after} {p = p} e d j = elim (Bool-cases (i == j)) [
    | inl same ↦ rw (of_stream-append j h ((i, p) ∷ [])) (
        rw same (
          let (x, k) = subst (λ y. HasSent y (of_stream i hd) (of_stream i h)) e (sends i) in
          subst (λ n. HasSent (live net after) (of_stream n hd) (of_stream n h ++ (p ∷ [])))
            ((==_iff i j).0 same) (x, then_sent k d)))
    | inr other ↦
        rw (of_stream-append j h ((i, p) ∷ []))
          (rw other (rw (append-nil (of_stream j h)) (sends j)))
  ]
