-- ===== src/Sniffer/Assembly/Whole.antt =====
-- A stream whose pieces hold whole frames goes through the assembler, its goroutine and `dataCh`.
use zanarkand.Prelude.{
  update_other, ◌==◌, ==_iff, Bool-cases, inl, inr, ℕ, ◌≡◌, refl, sym, ap, ◌∙◌, subst, Bool, true,
  false, List, [], ◌∷◌, ◌++◌, map, All, update, update_same, append_assoc, append-nil,
}
use zanarkand.Prelude.Bytes.{Bytes}
use zanarkand.Io.{IoError, Reader, size}
use zanarkand.Frame.Wire.{Wire}
use zanarkand.Error.{Text, io, wrapped, syncing}
use zanarkand.Reassembler.{Packet, reader_size, round, stopped}
use zanarkand.Reassembler.Pieces.{encode_frames, IsPiece, round_gone}
use zanarkand.Sniffer.Assembly.{
  Stream, live, selecting, between, calling, Assembly, would_block, given, assemble, assembled,
  Steps, here, then_step, Steps-join, new_assembly,
}
use zanarkand.Sniffer.Assembly.Sending.{Sent-piece, packets_of}
use zanarkand.Sniffer.Assembly.Open.{IsOpen, new, waiting, given_live}

-- A call of the assembler is over once the stream's goroutine has read all and waits for more bytes.
abbrev pub CaughtUp : {F : Type 0} → (Stream F → Bool) → Type 0
CaughtUp {F} returns =
    (net : F) (r : Reader) (t : Text)
    → round net r ≡ stopped (wrapped t (io would_block))
    → returns (live net r) ≡ true

-- The packets that are sent for pieces, each with the number of its stream.
abbrev pub packets_in : {F : Type 0} → (ℕ → F) → List (ℕ × List Wire) → List (ℕ × Packet F)
packets_in net [] = []
packets_in net ((i, ws) ∷ pieces) = packets_of (net i) i ws ++ packets_in net pieces

module _ {F : Type 0} (returns : Stream F → Bool) (net : ℕ → F) where
  -- Every stream can be given a piece.
  abbrev AllOpen : Assembly F → Type 0
  AllOpen s = (j : ℕ) → IsOpen (net j) (s.streams j)

  -- Between `s` and `t` these pieces went through.
  record Through (s t : Assembly F) (pieces : List (ℕ × List Wire)) : Type 0 where
    steps : Steps returns true s t
    back : t.starter ≡ between selecting
    same_complete : t.complete ≡ s.complete
    none_queued : t.queue ≡ []
    taken_is : t.taken ≡ s.taken ++ packets_in net pieces
    handed_is : t.handed ≡ s.handed ++ map (λ x. (x.0, encode_frames x.1)) pieces
    all_open : AllOpen t

  Through-none :
      (s : Assembly F) → s.starter ≡ between selecting → s.queue ≡ [] → AllOpen s → Through s s []
  Through-none s at none_left o = record {
    steps = here;
    back = at;
    same_complete = refl;
    none_queued = none_left;
    taken_is = sym (append-nil s.taken);
    handed_is = sym (append-nil s.handed);
    all_open = o;
  }

  -- One stream has changed, to one that is open.
  AllOpen-change :
      (s : Assembly F) (i : ℕ) (streams : ℕ → Stream F)
      → AllOpen s
      → ((j : ℕ) → (i == j) ≡ false → streams j ≡ s.streams j)
      → IsOpen (net i) (streams i)
      → (j : ℕ) → IsOpen (net j) (streams j)
  AllOpen-change s i streams all others now j = elim (Bool-cases (i == j)) [
    | inl same ↦ subst (λ k. IsOpen (net k) (streams k)) ((==_iff i j).0 same) now
    | inr other ↦ subst (IsOpen (net j)) (sym (others j other)) (all j)
  ]

  Through-one :
      (s : Assembly F) (i : ℕ) (ws : List Wire)
      → CaughtUp returns
      → s.starter ≡ between selecting
      → s.complete i ≡ false
      → s.queue ≡ []
      → AllOpen s
      → IsPiece reader_size ws
      → (t : Assembly F) × Through s t ((i, ws) ∷ [])
  Through-one s i ws done at not_ended none_left o h =
      let c : Bytes = encode_frames ws in
      let (r, e, ready) = given_live (net i) ws (o i) h in
      let a : Assembly F = record s {
        starter = calling i selecting;
        streams = update s.streams i (given (net i) c (s.streams i));
        handed = s.handed ++ ((i, c) ∷ []);
      } in
      let now : a.streams i ≡ live (net i) r =
        update_same s.streams i (given (net i) c (s.streams i)) ∙ e in
      let (t, x) = Sent-piece returns (net i) i ws a r now none_left ready in
      let gone : round (net i) x.reader ≡ stopped (wrapped syncing (io would_block)) =
        round_gone (net i) x.reader x.ready.holds
        ∙ ap (λ (d : IoError). stopped (wrapped syncing (io d))) x.ready.waits in
      (
        record t { starter = between selecting },
        record {
          steps =
              then_step
                (Steps-join (then_step here (assemble selecting i (net i) c at not_ended)) x.steps)
                (assembled selecting i x.same_starter
                  (ap returns x.at ∙ done (net i) x.reader syncing gone));
          back = refl;
          same_complete = x.same_complete;
          none_queued = x.none_queued;
          taken_is = x.taken_is ∙ ap (◌++◌ s.taken) (sym (append-nil (packets_of (net i) i ws)));
          handed_is = x.same_handed;
          all_open =
              AllOpen-change s i t.streams o
                (λ j other.
                  x.others j other
                  ∙ update_other s.streams i j (given (net i) c (s.streams i)) other)
                (subst (IsOpen (net i)) (sym x.at) (waiting x.ready));
        },
      )

  Through-join :
      {s t u : Assembly F} {i : ℕ} {ws : List Wire} {pieces : List (ℕ × List Wire)}
      → Through s t ((i, ws) ∷ [])
      → Through t u pieces
      → Through s u ((i, ws) ∷ pieces)
  Through-join {s} {t} {u} {i} {ws} {pieces} a b = record {
    steps = Steps-join a.steps b.steps;
    back = b.back;
    same_complete = b.same_complete ∙ a.same_complete;
    none_queued = b.none_queued;
    taken_is =
        b.taken_is
        ∙ ap (λ (x : List (ℕ × Packet F)). x ++ packets_in net pieces) a.taken_is
        ∙ append_assoc s.taken (packets_of (net i) i ws ++ []) (packets_in net pieces)
        ∙ ap (λ (x : List (ℕ × Packet F)). s.taken ++ (x ++ packets_in net pieces))
            (append-nil (packets_of (net i) i ws));
    handed_is =
        b.handed_is
        ∙ ap (λ (x : List (ℕ × Bytes)). x ++ map (λ y. (y.0, encode_frames y.1)) pieces) a.handed_is
        ∙ append_assoc s.handed ((i, encode_frames ws) ∷ [])
            (map (λ y. (y.0, encode_frames y.1)) pieces);
    all_open = b.all_open;
  }

  through :
      (s : Assembly F) (pieces : List (ℕ × List Wire))
      → CaughtUp returns
      → s.starter ≡ between selecting
      → ((j : ℕ) → s.complete j ≡ false)
      → s.queue ≡ []
      → AllOpen s
      → All (λ x. IsPiece reader_size x.1) pieces
      → (t : Assembly F) × Through s t pieces
  through s [] done at not_ended none_left o hs = (s, Through-none s at none_left o)
  through s ((i, ws) ∷ pieces) done at not_ended none_left o (h, hs) =
      let (t, a) = Through-one s i ws done at (not_ended i) none_left o h in
      let (u, b) =
        through t pieces done a.back (λ j. ap (λ f. f j) a.same_complete ∙ not_ended j)
          a.none_queued a.all_open hs in
      (u, Through-join a b)

  -- From the state in front of the loop of `Start`, with any number of streams whose pieces come in any
  -- order: if each piece holds whole frames that fit the reader, and the program receives from `dataCh`, then
  -- there are steps behind which the assembler has given exactly these pieces, in order, the program has
  -- received exactly the packets of their frames, in order and each with the flow of its stream, and `Start`
  -- is between two captured packets again.
  pub Steps-whole :
      (size : ℕ) (pieces : List (ℕ × List Wire))
      → CaughtUp returns
      → All (λ x. IsPiece reader_size x.1) pieces
      → (t : Assembly F) × Steps returns true (new_assembly size) t
        × (t.starter ≡ between selecting)
        × (t.handed ≡ map (λ x. (x.0, encode_frames x.1)) pieces)
        × (t.taken ≡ packets_in net pieces)
  Steps-whole size pieces done hs =
      let (t, x) = through (new_assembly size) pieces done refl (λ j. refl) refl (λ j. new) hs in
      (t, x.steps, x.back, x.handed_is, x.taken_is)
