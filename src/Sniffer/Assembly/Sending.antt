-- ===== src/Sniffer/Assembly/Sending.antt =====
-- The goroutine of a stream that was given whole frames, and a program that receives from `dataCh`.
use zanarkand.Prelude.{
  ℕ, ◌≡◌, refl, sym, ap, ◌∙◌, Bool, true, List, [], ◌∷◌, ◌++◌, map, length, length-append,
  length-drop, update, update_same, update_other, ◌==◌, false, append_assoc, append-nil, arith,
}
use zanarkand.Prelude.Bytes.{Bytes}
use zanarkand.Io.{Reader, size, discard, slide}
use zanarkand.Io.View.{slide-Same}
use zanarkand.Io.Fill.{with_piece}
use zanarkand.Io.Peek.{size-discard}
use zanarkand.Frame.Wire.{Wire, encode_frame, length-encode_frame}
use zanarkand.Reassembler.{Packet, reader_size, round, sent}
use zanarkand.Reassembler.Reading.{frame-IsSynced}
use zanarkand.Reassembler.Buffered.{round_buffered, round_piece}
use zanarkand.Reassembler.Delivery.{packet_of}
use zanarkand.Reassembler.Pieces.{encode_frames, Holds, Holds-next, Holds-piece}
use zanarkand.Sniffer.Assembly.{
  Stream, live, Assembly, would_block, hand_over, Steps, here, then_step, Steps-join,
}

-- The reader of a stream that holds whole frames and has not ended.
pub record Ready (r : Reader) (ws : List Wire) (ps : List (List Wire)) : Type 0 where
  pub holds : Holds r ws ps
  pub waits : r.rd_err ≡ would_block
  pub sized : size r ≡ reader_size

Ready-next :
    {r : Reader} {w : Wire} {ws : List Wire} {ps : List (List Wire)}
    → Ready r (w ∷ ws) ps
    → Ready (discard (length (encode_frame w)) r) ws ps
Ready-next {r} {w} h = record {
  holds = Holds-next h.holds;
  waits = h.waits;
  sized = size-discard (length (encode_frame w)) r ∙ h.sized;
}

Ready-piece :
    {r : Reader} {w : Wire} {ws : List Wire}
    → Ready r [] ((w ∷ ws) ∷ [])
    → Ready (with_piece (encode_frames (w ∷ ws)) [] (slide r)) (w ∷ ws) []
Ready-piece {r} {w} {ws} h = record {
  holds = Holds-piece h.holds;
  waits = h.waits;
  sized = omega (
    arith,
    (slide-Same r).same_size,
    ap length h.holds.buffered,
    length-drop (length (encode_frames (w ∷ ws))) (slide r).stale,
    h.holds.are_pieces.0.1,
    h.sized,
  );
}

-- The packets that are sent for these frames, with the number of the stream.
abbrev pub packets_of : {F : Type 0} → F → ℕ → List Wire → List (ℕ × Packet F)
packets_of net i = map (λ w. (i, packet_of net w))

module _ {F : Type 0} (returns : Stream F → Bool) (net : F) (i : ℕ) where
  -- By the steps from `s` to `t` the stream sends the frames `ws`, and its reader then has `ms` buffered.
  pub record Sent (s t : Assembly F) (ws ms : List Wire) : Type 0 where
    pub steps : Steps returns true s t
    pub same_starter : t.starter ≡ s.starter
    pub same_complete : t.complete ≡ s.complete
    pub same_handed : t.handed ≡ s.handed
    pub none_queued : t.queue ≡ []
    pub taken_is : t.taken ≡ s.taken ++ packets_of net i ws
    pub others : (j : ℕ) → (i == j) ≡ false → t.streams j ≡ s.streams j
    pub reader : Reader
    pub at : t.streams i ≡ live net reader
    pub ready : Ready reader ms []

  Sent-none :
      (s : Assembly F) (r : Reader) (ms : List Wire)
      → s.streams i ≡ live net r
      → s.queue ≡ []
      → Ready r ms []
      → Sent s s [] ms
  Sent-none s r ms at none_left h = record {
    steps = here;
    same_starter = refl;
    same_complete = refl;
    same_handed = refl;
    none_queued = none_left;
    taken_is = sym (append-nil s.taken);
    others = λ j o. refl;
    reader = r;
    at = at;
    ready = h;
  }

  -- One packet goes to the receiver.
  Sent-one :
      (s : Assembly F) (r after : Reader) (w : Wire) (ms : List Wire)
      → s.streams i ≡ live net r
      → s.queue ≡ []
      → round net r ≡ sent (packet_of net w) after
      → Ready after ms []
      → (t : Assembly F) × Sent s t (w ∷ []) ms
  Sent-one s r after w ms at none_left goes h = (
    record s {
      streams = update s.streams i (live net after);
      taken = s.taken ++ ((i, packet_of net w) ∷ []);
    },
    record {
      steps = then_step here (hand_over i at goes refl none_left);
      same_starter = refl;
      same_complete = refl;
      same_handed = refl;
      none_queued = none_left;
      taken_is = refl;
      others = λ j o. update_other s.streams i j (live net after) o;
      reader = after;
      at = update_same s.streams i (live net after);
      ready = h;
    },
  )

  Sent-join :
      {s t u : Assembly F} {w : Wire} {ws ls ms : List Wire}
      → Sent s t (w ∷ []) ls
      → Sent t u ws ms
      → Sent s u (w ∷ ws) ms
  Sent-join {s} {t} {u} {w} {ws} a b = record {
    steps = Steps-join a.steps b.steps;
    same_starter = b.same_starter ∙ a.same_starter;
    same_complete = b.same_complete ∙ a.same_complete;
    same_handed = b.same_handed ∙ a.same_handed;
    none_queued = b.none_queued;
    taken_is =
        b.taken_is
        ∙ ap (λ (x : List (ℕ × Packet F)). x ++ packets_of net i ws) a.taken_is
        ∙ append_assoc s.taken ((i, packet_of net w) ∷ []) (packets_of net i ws);
    others = λ j o. b.others j o ∙ a.others j o;
    reader = b.reader;
    at = b.at;
    ready = b.ready;
  }

  -- All frames in the buffer are sent, one in each round.
  Sent-buffered :
      (ws : List Wire) (s : Assembly F) (r : Reader)
      → s.streams i ≡ live net r
      → s.queue ≡ []
      → Ready r ws []
      → (t : Assembly F) × Sent s t ws []
  Sent-buffered [] s r at none_left h = (s, Sent-none s r [] at none_left h)
  Sent-buffered (w ∷ ws) s r at none_left h =
      let (t, a) =
        Sent-one s r (discard (length (encode_frame w)) r) w ws at none_left
          (round_buffered net r w (encode_frames ws) h.holds.frames.0 h.holds.room h.holds.buffered)
          (Ready-next h) in
      let (u, b) = Sent-buffered ws t a.reader a.at a.none_queued a.ready in (u, Sent-join a b)

  -- The frames of the next piece are sent.
  pub Sent-piece :
      (ws : List Wire) (s : Assembly F) (r : Reader)
      → s.streams i ≡ live net r
      → s.queue ≡ []
      → Ready r [] (ws ∷ [])
      → (t : Assembly F) × Sent s t ws []
  Sent-piece [] s r at none_left h = absurd (h.holds.are_pieces.0.0 refl)
  Sent-piece (w ∷ ws) s r at none_left h =
      let c : Bytes = encode_frames (w ∷ ws) in
      let x : Reader = with_piece c [] (slide r) in
      let g : Ready x (w ∷ ws) [] = Ready-piece h in
      let goes : round net r ≡ sent (packet_of net w) (discard (length (encode_frame w)) x) =
        round_piece net r c [] h.holds.buffered h.holds.below
          (omega (arith, length-append (encode_frame w) (encode_frames ws), length-encode_frame w))
          h.holds.are_pieces.0.1 (frame-IsSynced w (encode_frames ws) g.holds.frames.0)
        ∙ round_buffered net x w (encode_frames ws) g.holds.frames.0 g.holds.room
            g.holds.buffered in
      let (t, a) =
        Sent-one s r (discard (length (encode_frame w)) x) w ws at none_left goes (Ready-next g) in
      let (u, b) = Sent-buffered ws t a.reader a.at a.none_queued a.ready in (u, Sent-join a b)
