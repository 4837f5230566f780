-- ===== src/Reassembler/Streams/Bounds.antt =====
-- The room in the channels, and the packets in them.
use zanarkand.Prelude.{
  update, ℕ, ◌≤◌, ◌≡◌, refl, sym, ap, ◌∙◌, subst, Bool-cases, inl, inr, Option, none, some, [], ◌∷◌,
  ◌==◌, length, length-append, All, All-snoc, arith,
}
use zanarkand.Io.{Reader, new_reader, size}
use zanarkand.Error.{Error}
use zanarkand.Io.Fill.{size-new}
use zanarkand.Reassembler.{Packet, reader_size, ErrorChannel, report_error}
use zanarkand.Reassembler.Faults.{IsCut, round-IsCut, report_error_lem}
use zanarkand.Reassembler.Streams.{
  Stream, live, System, Step, open_stream, send, hand_over, leave, receive, receive_error, Reach,
  start, next,
}

abbrev pub IsCutAlone : {F : Type 0} → ℕ × Packet F → Type 0
IsCutAlone x = IsCut x.1.flow x.1

abbrev IsRoomy : {F : Type 0} → Stream F → Type 0
IsRoomy (live net first now) = 40 ≤ size now
IsRoomy _ = Unit

abbrev HasRoom : ℕ → Option ErrorChannel → Type 0
HasRoom n none = Unit
HasRoom n (some c) = (c.capacity ≡ n) × (length c.queue ≤ n)

-- The channels keep to their sizes, and every packet is what its header announces.
pub record IsBounded {F : Type 0} (data_size err_size : ℕ) (s : System F) : Type 0 where
  pub same_capacity : s.capacity ≡ data_size
  pub room : length s.queue ≤ data_size
  pub error_room : HasRoom err_size s.errors
  pub cut_received : All IsCutAlone s.received
  pub cut_queued : All IsCutAlone s.queue
  roomy : (i : ℕ) → IsRoomy (s.streams i)

update-IsRoomy :
    {F : Type 0} (streams : ℕ → Stream F) (i : ℕ) (x : Stream F)
    → ((j : ℕ) → IsRoomy (streams j))
    → IsRoomy x
    → (j : ℕ) → IsRoomy (update streams i x j)
update-IsRoomy streams i x h k j = elim (Bool-cases (i == j)) [
  | inl same ↦ rw same k
  | inr other ↦ rw other (h j)
]

new-IsRoomy : {F : Type 0} (net : F) (r : Reader) → 40 ≤ size r → IsRoomy (live net r r)
new-IsRoomy net r h = h

report_error-HasRoom :
    (n : ℕ) (o : Option ErrorChannel) (e : Error) → HasRoom n o → HasRoom n (report_error o e)
unfolding report_error
report_error-HasRoom n none e h = tt
report_error-HasRoom n (some c) e h =
    let (d, eq, fits, same, _) = report_error_lem c e (omega (arith, h.0)) in
    subst (HasRoom n) (sym eq) (same ∙ h.0, omega (arith, same, h.0))

Step-IsBounded :
    {F : Type 0} {n m : ℕ} {s t : System F} → Step s t → IsBounded n m s → IsBounded n m t
Step-IsBounded {s = s} (open_stream net pieces e) b = record {
  same_capacity = b.same_capacity;
  room = b.room;
  error_room = b.error_room;
  cut_received = b.cut_received;
  cut_queued = b.cut_queued;
  roomy = update-IsRoomy s.streams s.opened _ b.roomy (
      new-IsRoomy net (new_reader reader_size pieces e)
        (rw (size-new reader_size pieces e) (omega arith)));
}
Step-IsBounded {n = n} {s = s} (send i {net = net} {now = now} {after = after} {p = p} e d room) b =
    let h : 40 ≤ size now = subst IsRoomy e (b.roomy i) in
    let (c, kept) = round-IsCut net now after p h d in
    record {
      same_capacity = b.same_capacity;
      room = omega (arith, b.same_capacity, length-append s.queue ((i, p) ∷ []));
      error_room = b.error_room;
      cut_received = b.cut_received;
      cut_queued = All-snoc IsCutAlone s.queue (i, p) b.cut_queued (c.0, refl);
      roomy = update-IsRoomy s.streams i _ b.roomy (omega (arith, kept));
    }
Step-IsBounded {s = s} (hand_over i {net = net} {now = now} {after = after} {p = p} e d none_queued)
      b =
    let h : 40 ≤ size now = subst IsRoomy e (b.roomy i) in
    let (c, kept) = round-IsCut net now after p h d in
    record {
      same_capacity = b.same_capacity;
      room = b.room;
      error_room = b.error_room;
      cut_received = All-snoc IsCutAlone s.received (i, p) b.cut_received (c.0, refl);
      cut_queued = b.cut_queued;
      roomy = update-IsRoomy s.streams i _ b.roomy (omega (arith, kept));
    }
Step-IsBounded {m = m} {s = s} (leave i {e = x} e d) b = record {
  same_capacity = b.same_capacity;
  room = b.room;
  error_room = report_error-HasRoom m s.errors x b.error_room;
  cut_received = b.cut_received;
  cut_queued = b.cut_queued;
  roomy = update-IsRoomy s.streams i _ b.roomy tt;
}
Step-IsBounded {s = s} (receive {x = x} {xs = xs} e) b =
    let c : IsCutAlone x × All IsCutAlone xs = subst (All IsCutAlone) e b.cut_queued in
    record {
      same_capacity = b.same_capacity;
      room = omega (arith, ap length e, b.room);
      error_room = b.error_room;
      cut_received = All-snoc IsCutAlone s.received x b.cut_received c.0;
      cut_queued = c.1;
      roomy = b.roomy;
    }
Step-IsBounded {m = m} {s = s} (receive_error {c = c} a e) b =
    let h : (c.capacity ≡ m) × (length c.queue ≤ m) = subst (HasRoom m) a b.error_room in
    record {
      same_capacity = b.same_capacity;
      room = b.room;
      error_room = (h.0, omega (arith, ap length e, h.1));
      cut_received = b.cut_received;
      cut_queued = b.cut_queued;
      roomy = b.roomy;
    }

-- However the goroutines and the receivers interleave, the channels keep to the sizes that `NewSniffer`
-- was given, and every packet that is queued or received has the length that its header announces, if it
-- holds the header's length.
pub Reach-IsBounded : {F : Type 0} {n m : ℕ} {s : System F} → Reach n m s → IsBounded n m s
Reach-IsBounded start = record {
  same_capacity = refl;
  room = omega arith;
  error_room = (refl, omega arith);
  cut_received = tt;
  cut_queued = tt;
  roomy = λ i. tt;
}
Reach-IsBounded (next r st) = Step-IsBounded st (Reach-IsBounded r)
