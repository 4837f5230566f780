-- ===== src/Sniffer/Assembly/Full.antt =====
-- What becomes of `Start` when nobody receives from `dataCh` any more, and it is full.
use zanarkand.Prelude.{
  ℕ, ◌<◌, ◌≡◌, ◌⊎◌, inl, inr, sym, refl, ap, ◌∙◌, Bool, false, List, [], ◌∷◌, length, update,
  update_same, arith,
}
use zanarkand.Prelude.Bytes.{Bytes}
use zanarkand.Io.{Reader, new_reader}
use zanarkand.Io.View.{flat}
use zanarkand.Frame.Wire.{Wire}
use zanarkand.Reassembler.{Packet, reader_size, round, sent}
use zanarkand.Reassembler.Delivery.{packet_of}
use zanarkand.Reassembler.Pieces.{encode_frames, IsPiece, round_first}
use zanarkand.Sniffer.Assembly.{
  Stream, unopened, live, selecting, between, Assembly, would_block, assemble, Steps, here,
  then_step, Steps-join, given,
}
use zanarkand.Sniffer.Assembly.Hung.{IsHung, Gave, no_room, giving, giving-Gave, IsHung-next}

-- A goroutine at its send has read as far as its round has, and what lies behind that stays unread.
abbrev pub NeedsRoom : {F : Type 0} → (Stream F → Bool) → Type 0
NeedsRoom {F} returns =
    (net : F) (now after : Reader) (p : Packet F)
    → round net now ≡ sent p after
    → 0 < length (flat after.rd)
    → returns (live net now) ≡ false

-- The stream's goroutine in front of its first round over these pieces.
abbrev pub at_send : {F : Type 0} → F → List Bytes → Stream F
at_send net ps = live net (new_reader reader_size ps would_block)

module _ {F : Type 0} (returns : Stream F → Bool) (net : F) where
  same_of :
      {A : Type 0} {x y t : Assembly F} (f : Assembly F → A)
      → f x ≡ f y
      → (t ≡ x) ⊎ (t ≡ y)
      → f t ≡ f x
  same_of f e (inl q) = ap f q
  same_of f e (inr q) = ap f q ∙ sym e

  -- In any state between two captured packets in which `dataCh` is full and nobody receives from it, for a
  -- stream of which nothing was captured yet: if its first piece holds whole frames that fit the reader, and
  -- another piece that is not empty follows, then there are steps behind which `Start` is in a call of the
  -- assembler that is not over, for that stream, which is read no further: in the call for the first piece,
  -- or in that for the next. Its goroutine is still in its first round, over just these pieces, no other
  -- piece was given, and no packet was sent or received.
  pub Steps-IsHung_full :
      (s : Assembly F) (i : ℕ) (w : Wire) (ws : List Wire) (c : ℕ) (q : Bytes)
      → NeedsRoom returns
      → s.starter ≡ between selecting
      → s.streams i ≡ unopened
      → s.complete i ≡ false
      → length s.queue ≡ s.capacity
      → IsPiece reader_size (w ∷ ws)
      → (t : Assembly F) × Steps returns false s t
        × IsHung false returns i t
        × Gave i
            (encode_frames (w ∷ ws))
            (c ∷ q)
            (at_send net (encode_frames (w ∷ ws) ∷ []))
            (at_send net (encode_frames (w ∷ ws) ∷ (c ∷ q) ∷ []))
            s
            t
        × (t.queue ≡ s.queue)
        × (t.taken ≡ s.taken)
  Steps-IsHung_full s i w ws c q needs at is_new not_done full is =
      let p : Bytes = encode_frames (w ∷ ws) in
      let n : Bytes = c ∷ q in
      let r : Reader = new_reader reader_size (p ∷ []) would_block in
      let more : Reader = new_reader reader_size (p ∷ n ∷ []) would_block in
      let a : Assembly F = giving false returns i net p s in
      let live_now : a.streams i ≡ live net r =
        update_same s.streams i (given net p (s.streams i)) ∙ ap (given net p) is_new in
      let (x, goes, _) = round_first net reader_size w ws [] would_block (omega arith) is in
      let (y, later, left_over) =
        round_first net reader_size w ws (n ∷ []) would_block (omega arith) is in
      let live_then : update a.streams i (given net n (a.streams i)) i ≡ live net more =
        update_same a.streams i (given net n (a.streams i)) ∙ ap (given net n) live_now in
      let (t, ss, h, which) =
        IsHung-next false returns a i net n refl not_done
          (no_room net r x (packet_of net w) live_now goes refl full)
          (no_room net more y (packet_of net w) live_then later refl full)
          (ap (λ (z : Stream F). returns (given net n z)) live_now
            ∙ needs net more y (packet_of net w) later
                (omega (arith, ap (λ (l : List Bytes). length (flat l)) left_over))) in
      (
        t,
        Steps-join (then_step here (assemble selecting i net p at not_done)) ss,
        h,
        giving-Gave false returns net p n s live_now refl which,
        same_of (λ x. x.queue) refl which,
        same_of (λ x. x.taken) refl which,
      )
