-- ===== src/Sniffer/Assembly/Order.antt =====
-- What the streams have sent of the pieces that they were given so far.
use zanarkand.Prelude.{
  ℕ, suc, ◌≡◌, refl, sym, ap, ◌∙◌, subst, Bool, none, some, List, [], ◌∷◌, ◌++◌, update, append-nil,
  append_assoc, length,
}
use zanarkand.Prelude.Bytes.{Bytes}
use zanarkand.Io.{IoError, new_reader}
use zanarkand.Reassembler.{Packet, run, reader_size}
use zanarkand.Reassembler.Streams as many
use zanarkand.Reassembler.Streams.{of_stream}
use zanarkand.Reassembler.Streams.Order.{Sends-RunsAs}
use zanarkand.Sniffer.Assembly.{
  Stream, unopened, live, left, Assembly, new_assembly, completed, Step, assemble, assembled,
  end_stream, cancel, notice, flushed, file_end, send, hand_over, leave, receive, Steps, here,
  then_step,
}
use zanarkand.Sniffer.Assembly.Sent.{HasSent, HasSent-completed, changed, fed, grown}

-- All packets that were sent, received or still queued.
abbrev pub history : {F : Type 0} → Assembly F → List (ℕ × Packet F)
history s = s.taken ++ s.queue

abbrev AllSent : {F : Type 0} → Assembly F → Type 0
AllSent s = (j : ℕ) → HasSent (s.streams j) (of_stream j s.handed) (of_stream j (history s))

-- What the loop of one stream by itself sends of the pieces that it was given.
abbrev pub CutsAs : {F : Type 0} → Stream F → List Bytes → List (Packet F) → Type 0
CutsAs unopened hs qs = (hs ≡ []) × (qs ≡ [])
CutsAs (live net now) hs qs =
    (e : IoError) × (run net (length qs) (new_reader reader_size hs e)
      ≡ record { packets = qs; ended = none })
CutsAs (left net x later) hs qs =
    (before : List Bytes) × (hs ≡ before ++ later)
    × (e : IoError) × (run net (suc (length qs)) (new_reader reader_size before e)
        ≡ record { packets = qs; ended = some x })

HasSent-CutsAs :
    {F : Type 0} (x : Stream F) (hs : List Bytes) (qs : List (Packet F))
    → HasSent x hs qs
    → CutsAs x hs qs
HasSent-CutsAs unopened hs qs h = h
HasSent-CutsAs (live net now) hs qs (e, h) =
    (e, Sends-RunsAs (many.live net (new_reader reader_size hs e) now) qs h)
HasSent-CutsAs (left net x later) hs qs (before, parts, e, now, h, d) = (
  before,
  parts,
  e,
  Sends-RunsAs (many.left net (new_reader reader_size before e) x) qs (now, h, d),
)

module _ {F : Type 0} {returns : Stream F → Bool} {reads : Bool} where
  Step-AllSent : {s t : Assembly F} → Step returns reads s t → AllSent s → AllSent t
  Step-AllSent {s} (assemble k i net p at open_end) o = fed s.streams s.handed (history s) o i net p
  Step-AllSent (assembled k i at r) o = o
  Step-AllSent {s} (end_stream k i at) o =
      changed s.streams s.handed (history s) o i (completed (s.streams i))
        (HasSent-completed (s.streams i) _ _ (o i))
  Step-AllSent cancel o = o
  Step-AllSent (notice at c) o = o
  Step-AllSent (flushed at) o = o
  Step-AllSent (file_end at) o = o
  Step-AllSent {s} (send i {net} {now} {after} {p} e d room) o = λ j.
      subst
        (λ x.
          HasSent (update s.streams i (live net after) j) (of_stream j s.handed) (of_stream j x))
        (append_assoc s.taken s.queue ((i, p) ∷ []))
        (grown s.streams s.handed (history s) o i e d j)
  Step-AllSent {s} (hand_over i {net} {now} {after} {p} e d r none_queued) o = λ j.
      subst
        (λ x.
          HasSent (update s.streams i (live net after) j) (of_stream j s.handed) (of_stream j x))
        (rw none_queued (simp append-nil)) (grown s.streams s.handed (history s) o i e d j)
  Step-AllSent {s} (leave i {net} {now} {e = x} e d w) o =
      let (y, k) =
        subst (λ z. HasSent z (of_stream i s.handed) (of_stream i (history s))) e (o i) in
      changed s.streams s.handed (history s) o i (left net x [])
        (of_stream i s.handed, sym (append-nil (of_stream i s.handed)), y, now, k, d)
  Step-AllSent {s} (receive {x} {xs} r e) o = λ j.
      subst (λ z. HasSent (s.streams j) (of_stream j s.handed) (of_stream j z))
        (ap (◌++◌ s.taken) e ∙ sym (append_assoc s.taken (x ∷ []) xs)) (o j)

  Steps-AllSent : {s t : Assembly F} → Steps returns reads s t → AllSent s → AllSent t
  Steps-AllSent here o = o
  Steps-AllSent (then_step ss st) o = Step-AllSent st (Steps-AllSent ss o)

  -- From the state in front of the loop of `Start`, however the assembler's calls, the ends of streams, their
  -- goroutines and the receiver interleave: what has been sent of each stream, received or still queued,
  -- is in order exactly what the stream's own loop sends, in as many rounds, of all pieces that it has been
  -- given so far, as if they had all been there from the start. A stream whose goroutine has returned has
  -- sent what its loop sends of the pieces given before that, and that loop has ended with the same error.
  pub Steps-CutsAs :
      {size : ℕ} {s : Assembly F}
      → Steps returns reads (new_assembly size) s
      → (i : ℕ) → CutsAs (s.streams i) (of_stream i s.handed) (of_stream i (history s))
  Steps-CutsAs {s = s} ss i =
      HasSent-CutsAs (s.streams i) (of_stream i s.handed) (of_stream i (history s))
        (Steps-AllSent ss (λ j. (refl, refl)) i)
