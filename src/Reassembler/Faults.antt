-- ===== src/Reassembler/Faults.antt =====
-- What the loop makes of a frame that announces no bytes, what every packet has, and the error channel.
use zanarkand.Prelude.{
  length-take, All, ℕ, zero, suc, ◌≤◌, ◌<◌, ◌≡◌, refl, sym, ap, ◌∙◌, [], ◌∷◌, ◌++◌, none, some,
  length, take, replicate, subst, take_length_le, take-append_le, ltb-true, ltb-false, le_or_lt,
  inl, inr, ◌⊎◌, length-append, arith,
}
use zanarkand.Io.{Reader, size}
use zanarkand.Io.Peek.{size-discard}
use zanarkand.Io.View.{stream}
use zanarkand.Error.{Error, reassembly_error}
use zanarkand.Frame.Sync.{IsSynced}
use zanarkand.Reassembler.{
  Packet, Round, sent, stopped, stuck, round, Run, run, add_packet, after_round, ErrorChannel,
  report_error,
}
use zanarkand.Reassembler.Reading.{announced, announced-take}
use zanarkand.Reassembler.Rounds.{
  round_empty, RoundOf, no_frame, at_frame, AtFrame, no_header, empty, whole, in_part,
  round-RoundOf,
}

abbrev empty_packet : {F : Type 0} → F → Packet F
empty_packet net = record { body = []; flow = net }

-- With at least 40 bytes left, over a buffer of at least 40, a stream at a frame that announces
-- length 0 is never left: each of any number of rounds sends an empty packet.
pub run_empty :
    {F : Type 0} (net : F) (fuel : ℕ) (r : Reader)
    → 40 ≤ size r
    → 40 ≤ length (stream r)
    → IsSynced (stream r)
    → announced (stream r) ≡ 0
    → run net fuel r
      ≡ record { packets = replicate fuel (record { body = []; flow = net }); ended = none }
unfolding run add_packet after_round
run_empty net zero r hs hl here n = refl
run_empty net (suc fuel) r hs hl here n =
    let (t, d, kept) = round_empty net r hs hl here n in
    rw d (
      ap (add_packet (empty_packet net)) (
        run_empty net fuel t (omega (arith, kept.same_size))
          (omega (arith, ap length kept.same_stream)) (subst IsSynced (sym kept.same_stream) here)
          (ap announced kept.same_stream ∙ n)))

-- What every packet has: the flow of its stream, and where it holds a frame's header, the length that
-- the header announces.
abbrev pub IsCut : {F : Type 0} → F → Packet F → Type 0
IsCut net p = ((length p.body < 28) ⊎ (announced p.body ≡ length p.body)) × (p.flow ≡ net)

-- A round over a buffer of `n` bytes sends only such packets.
abbrev WellCut : {F : Type 0} → F → ℕ → Round F → Type 0
WellCut net n (sent p r) = IsCut net p × (size r ≡ n)
WellCut net n _ = Unit

AtFrame-WellCut :
    {F : Type 0} {net : F} {a : Reader} {o : Round F} → AtFrame net a o → WellCut net (size a) o
AtFrame-WellCut (no_header h) = tt
AtFrame-WellCut (empty t kept n) = ((inl (omega arith), refl), kept.same_size)
AtFrame-WellCut {a = a} (whole t kept long pos all) =
    ((by_length (le_or_lt 28 (length (take n t.buf))), refl), size-discard n t ∙ kept.same_size)
  where
    n : ℕ
    n = announced (stream a)

    body : take n t.buf ≡ take n (stream a)
    body = sym (take-append_le n t.buf _ all) ∙ ap (take n) kept.same_stream

    l : length (take n t.buf) ≡ n
    l = take_length_le n t.buf all

    cut : 28 ≤ length (take n t.buf) → announced (take n t.buf) ≡ length (take n t.buf)
    cut h =
        ap announced body
        ∙ announced-take n (stream a) (omega (arith, l))
            (omega (arith, l, ap length body, length-take n (stream a)))
        ∙ sym l

    by_length :
        (28 ≤ length (take n t.buf)) ⊎ (length (take n t.buf) < 28)
        → (length (take n t.buf) < 28) ⊎ (announced (take n t.buf) ≡ length (take n t.buf))
    by_length (inl h) = inr (cut h)
    by_length (inr h) = inl h
AtFrame-WellCut (in_part t kept h) = tt

with_size :
    {F : Type 0} (net : F) {m n : ℕ} (o : Round F) → m ≡ n → WellCut net m o → WellCut net n o
with_size net (sent p r) e (c, s) = (c, s ∙ e)
with_size net (stopped x) e c = tt
with_size net stuck e c = tt

RoundOf-WellCut :
    {F : Type 0} {net : F} {r : Reader} {o : Round F} → RoundOf net r o → WellCut net (size r) o
RoundOf-WellCut (no_frame n) = tt
RoundOf-WellCut {net = net} (at_frame {o = o} s a) = with_size net o s.same_size (AtFrame-WellCut a)

after-WellCut :
    {F : Type 0} (net : F) {n : ℕ} (later : Reader → Run F) (o : Round F)
    → WellCut net n o
    → ((r : Reader) → size r ≡ n → All (IsCut net) (later r).packets)
    → All (IsCut net) (after_round later o).packets
unfolding after_round add_packet
after-WellCut net later (sent p r) c h = (c.0, h r c.1)
after-WellCut net later (stopped e) c h = tt
after-WellCut net later stuck c h = tt

pub round-IsCut :
    {F : Type 0} (net : F) (r after : Reader) (p : Packet F)
    → 40 ≤ size r
    → round net r ≡ sent p after
    → IsCut net p × (size after ≡ size r)
round-IsCut net r after p hs e =
    subst (WellCut net (size r)) e (RoundOf-WellCut (round-RoundOf net r hs))

-- Every packet that `run` sends has the flow of its stream, and unless it is below 28 bytes its
-- length field announces exactly its length. So it is for any stream over a buffer of at least 40
-- bytes, and any number of rounds.
pub run-IsCut :
    {F : Type 0} (net : F) (fuel : ℕ) (r : Reader)
    → 40 ≤ size r
    → All (IsCut net) (run net fuel r).packets
unfolding run
run-IsCut net zero r hs = tt
run-IsCut net (suc fuel) r hs =
    after-WellCut net (run net fuel) (round net r) (RoundOf-WellCut (round-RoundOf net r hs))
      (λ t e. run-IsCut net fuel t (omega (arith, e)))

-- On a channel that is within its capacity `reportError` keeps it so, and keeps what is in it. It
-- adds the error exactly where there is room.
pub report_error_lem :
    (c : ErrorChannel) (e : Error)
    → length c.queue ≤ c.capacity
    → (d : ErrorChannel) × (report_error (some c) e ≡ some d)
      × (length d.queue ≤ d.capacity)
      × (d.capacity ≡ c.capacity)
      × (((length c.queue < c.capacity) × (d.queue ≡ c.queue ++ (reassembly_error e ∷ [])))
          ⊎ ((c.capacity ≤ length c.queue) × (d ≡ c)))
unfolding report_error
report_error_lem c e h = elim (le_or_lt c.capacity (length c.queue)) [
  | inl full ↦ (c, rw (ltb-false (length c.queue) c.capacity full), h, refl, inr (full, refl))
  | inr room ↦ (
    record c { queue = c.queue ++ (reassembly_error e ∷ []) },
    rw (ltb-true (length c.queue) c.capacity room),
    omega (arith, length-append c.queue (reassembly_error e ∷ [])),
    refl,
    inl (room, refl),
  )
]
