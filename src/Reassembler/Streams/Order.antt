-- ===== src/Reassembler/Streams/Order.antt =====
-- What the interleaved streams send, stream by stream.
use zanarkand.Prelude.{
  update, ℕ, suc, ◌+◌, ◌≤◌, ◌≡◌, ◌≢◌, inl, inr, refl, sym, ap, ◌∙◌, subst, eq_false, Bool-cases,
  ==_iff, none, some, List, [], ◌∷◌, ◌++◌, append_assoc, append-nil, ◌==◌, length, length-append,
  arith,
}
use zanarkand.Io.{Reader, new_reader}
use zanarkand.Reassembler.{
  Packet, round, sent, stopped, Run, run, add_packet, after_round, reader_size,
}
use zanarkand.Reassembler.Streams.{
  Stream, unopened, live, left, System, Step, open_stream, send, hand_over, leave, receive,
  receive_error, Reach, start, next, history, of_stream,
}

-- The packets of some rounds, and the reader behind them.
pub data Rounds {F : Type 0} (net : F) (first : Reader) : List (Packet F) → Reader → Type 0 where
  at_start : Rounds net first [] first
  then_sent :
      {ps : List (Packet F)} {r after : Reader} {p : Packet F}
      → Rounds net first ps r
      → round net r ≡ sent p after
      → Rounds net first (ps ++ (p ∷ [])) after

-- A run with packets in front of its own.
abbrev after_packets : {F : Type 0} → List (Packet F) → Run F → Run F
after_packets ps s = record s { packets = ps ++ s.packets }

run-sent :
    {F : Type 0} (net : F) (fuel : ℕ) (r after : Reader) (p : Packet F)
    → round net r ≡ sent p after
    → run net (suc fuel) r ≡ add_packet p (run net fuel after)
unfolding run after_round
run-sent net fuel r after p e = rw e

Rounds-run :
    {F : Type 0} {net : F} {first now : Reader} {ps : List (Packet F)}
    → Rounds net first ps now
    → (fuel : ℕ) → run net (length ps + fuel) first ≡ after_packets ps (run net fuel now)
unfolding add_packet
Rounds-run {net = net} {first = first} at_start fuel = ap (λ (n : ℕ). run net n first) (omega arith)
Rounds-run {net = net} {first = first} (then_sent {ps = ps} {r = r} {after = after} {p = p} h e)
      fuel =
    ap (λ (n : ℕ). run net n first) (omega (arith, length-append ps (p ∷ [])))
    ∙ Rounds-run h (suc fuel)
    ∙ ap (after_packets ps) (run-sent net fuel r after p e)
    ∙ ap (λ (x : List (Packet _)). record { packets = x; ended = (run net fuel after).ended })
        (sym (append_assoc ps (p ∷ []) (run net fuel after).packets))

pub of_stream-append :
    {A : Type 0} (i : ℕ) (xs ys : List (ℕ × A))
    → of_stream i (xs ++ ys) ≡ of_stream i xs ++ of_stream i ys
of_stream-append i [] ys = refl
of_stream-append i ((j, a) ∷ xs) ys = elim (Bool-cases (j == i)) [
  | inl here ↦ rw here (ap (◌∷◌ a) (of_stream-append i xs ys))
  | inr other ↦ rw other (of_stream-append i xs ys)
]

-- What is true of a stream and of what it has sent. A live stream stands behind the rounds that have
-- sent this; a stream that is left has failed in the round behind them.
abbrev pub Sends : {F : Type 0} → Stream F → List (Packet F) → Type 0
Sends unopened ps = ps ≡ []
Sends (live net first now) ps = Rounds net first ps now
Sends (left net first e) ps = (now : Reader) × Rounds net first ps now × (round net now ≡ stopped e)

pub record InOrder {F : Type 0} (s : System F) : Type 0 where
  pub sends : (i : ℕ) → Sends (s.streams i) (of_stream i (history s))
  pub fresh : (i : ℕ) → s.opened ≤ i → s.streams i ≡ unopened

module _ {F : Type 0} (streams : ℕ → Stream F) (h : List (ℕ × Packet F))
    (sends : (j : ℕ) → Sends (streams j) (of_stream j h)) (i : ℕ) where
  -- A stream that does not send changes, as its packets allow.
  changed :
      (x : Stream F)
      → Sends x (of_stream i h)
      → (j : ℕ) → Sends (update streams i x j) (of_stream j h)
  changed x k j = elim (Bool-cases (i == j)) [
    | inl same ↦ rw same (subst (λ n. Sends x (of_stream n h)) ((==_iff i j).0 same) k)
    | inr other ↦ rw other (sends j)
  ]

  -- Stream `i` sends `p`.
  grown :
      {net : F} {first now after : Reader} {p : Packet F}
      → streams i ≡ live net first now
      → round net now ≡ sent p after
      → (j : ℕ)
      → Sends (update streams i (live net first after) j) (of_stream j (h ++ ((i, p) ∷ [])))
  grown {net = net} {first = first} {now = now} {p = p} e d j = elim (Bool-cases (i == j)) [
    | inl same ↦ rw (of_stream-append j h ((i, p) ∷ [])) (
        rw same (
          then_sent
            (subst (λ n. Rounds net first (of_stream n h) now) ((==_iff i j).0 same)
              (subst (λ x. Sends x (of_stream i h)) e (sends i)))
            d))
    | inr other ↦
        rw (of_stream-append j h ((i, p) ∷ []))
          (rw other (rw (append-nil (of_stream j h)) (sends j)))
  ]

  -- No stream above `n` is touched.
  kept_fresh :
      (n : ℕ) (x : Stream F)
      → ((j : ℕ) → n ≤ j → streams j ≡ unopened)
      → streams i ≢ unopened
      → (j : ℕ) → n ≤ j
      → update streams i x j ≡ unopened
  kept_fresh n x fresh busy j k = elim (Bool-cases (i == j)) [
    | inl same ↦ absurd (busy (fresh i (omega (arith, (==_iff i j).0 same))))
    | inr other ↦ rw other (fresh j k)
  ]

opened_fresh :
    {F : Type 0} (streams : ℕ → Stream F) (n : ℕ) (x : Stream F)
    → ((j : ℕ) → n ≤ j → streams j ≡ unopened)
    → (j : ℕ) → suc n ≤ j
    → update streams n x j ≡ unopened
opened_fresh streams n x fresh j k = rw (eq_false n j (omega arith)) (fresh j (omega arith))

busy :
    {F : Type 0} {x : Stream F} {net : F} {first now : Reader}
    → x ≡ live net first now
    → x ≢ unopened
busy e k = cc

-- The streams' packets are those of a longer history with the same elements.
moved :
    {F : Type 0} (streams : ℕ → Stream F) {h k : List (ℕ × Packet F)}
    → h ≡ k
    → ((j : ℕ) → Sends (streams j) (of_stream j h))
    → (j : ℕ) → Sends (streams j) (of_stream j k)
moved streams e sends j = subst (λ x. Sends (streams j) (of_stream j x)) e (sends j)

Step-InOrder : {F : Type 0} {s t : System F} → Step s t → InOrder s → InOrder t
Step-InOrder {s = s} (open_stream net pieces e) o = record {
  sends =
      changed s.streams (history s) o.sends s.opened
        (live net (new_reader reader_size pieces e) (new_reader reader_size pieces e))
        (subst
          (λ ps. Rounds net (new_reader reader_size pieces e) ps (new_reader reader_size pieces e))
          (sym (
            subst (λ x. Sends x (of_stream s.opened (history s))) (o.fresh s.opened (omega arith))
              (o.sends s.opened)))
          at_start);
  fresh = opened_fresh s.streams s.opened _ o.fresh;
}
Step-InOrder {s = s} (send i {p = p} e d room) o = record {
  sends =
      moved _ (append_assoc s.received s.queue ((i, p) ∷ []))
        (grown s.streams (history s) o.sends i e d);
  fresh = kept_fresh s.streams (history s) o.sends i s.opened _ o.fresh (busy e);
}
Step-InOrder {s = s} (hand_over i {p = p} e d none_queued) o = record {
  sends = moved _ (rw none_queued (simp append-nil)) (grown s.streams (history s) o.sends i e d);
  fresh = kept_fresh s.streams (history s) o.sends i s.opened _ o.fresh (busy e);
}
Step-InOrder {s = s} (leave i {now = now} e d) o = record {
  sends =
      changed s.streams (history s) o.sends i _
        (now, subst (λ x. Sends x (of_stream i (history s))) e (o.sends i), d);
  fresh = kept_fresh s.streams (history s) o.sends i s.opened _ o.fresh (busy e);
}
Step-InOrder {s = s} (receive {x = x} {xs = xs} e) o = record {
  sends =
      moved s.streams (ap (◌++◌ s.received) e ∙ sym (append_assoc s.received (x ∷ []) xs)) o.sends;
  fresh = o.fresh;
}
Step-InOrder {s = s} (receive_error a e) o = record { sends = o.sends; fresh = o.fresh }

Reach-InOrder :
    {F : Type 0} {data_size err_size : ℕ} {s : System F} → Reach data_size err_size s → InOrder s
Reach-InOrder start = record { sends = λ i. refl; fresh = λ i k. refl }
Reach-InOrder (next r st) = Step-InOrder st (Reach-InOrder r)

-- What the run of a stream by itself says of the packets that it has sent so far.
abbrev pub RunsAs : {F : Type 0} → Stream F → List (Packet F) → Type 0
RunsAs unopened ps = ps ≡ []
RunsAs (live net first now) ps = run net (length ps) first ≡ record { packets = ps; ended = none }
RunsAs (left net first e) ps =
    run net (suc (length ps)) first ≡ record { packets = ps; ended = some e }

one_more : (n : ℕ) → suc n ≡ n + 1
one_more n = omega arith

no_more : (n : ℕ) → n ≡ n + 0
no_more n = omega arith

pub Sends-RunsAs : {F : Type 0} (x : Stream F) (ps : List (Packet F)) → Sends x ps → RunsAs x ps
unfolding run after_round
Sends-RunsAs unopened ps e = e
Sends-RunsAs (live net first now) ps h =
    ap (λ (n : ℕ). run net n first) (no_more (length ps))
    ∙ Rounds-run h 0
    ∙ ap (λ (x : List (Packet _)). record { packets = x; ended = none }) (append-nil ps)
Sends-RunsAs (left net first e) ps (now, h, d) =
    ap (λ (n : ℕ). run net n first) (one_more (length ps))
    ∙ Rounds-run h 1
    ∙ rw d (ap (λ (x : List (Packet _)). record { packets = x; ended = some e }) (append-nil ps))

-- However the goroutines and the receiver interleave, what has been sent of one stream, received or still
-- queued, is in the order in which the stream's own loop sends it, none lost and none twice: it is what
-- `run` sends in as many rounds. A stream that is left has sent all that its loop sends, and has ended
-- with the loop's error.
Reach-RunsAs :
    {F : Type 0} {data_size err_size : ℕ} {s : System F}
    → Reach data_size err_size s
    → (i : ℕ) → RunsAs (s.streams i) (of_stream i (history s))
Reach-RunsAs {s = s} r i =
    Sends-RunsAs (s.streams i) (of_stream i (history s)) ((Reach-InOrder r).sends i)
