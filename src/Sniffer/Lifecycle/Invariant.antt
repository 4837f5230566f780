-- ===== src/Sniffer/Lifecycle/Invariant.antt =====
-- What holds of a sniffer however `Start`, its reader and its streams interleave.
use zanarkand.Prelude.{
  ℕ, ◌≤◌, ◌<◌, ◌≡◌, refl, sym, ap, ◌∙◌, subst, Bool, true, Option, none, some, List, [], ◌∷◌, ◌++◌,
  append_assoc, append-nil, length, length-append, arith,
}
use zanarkand.Sniffer.{SnifferState}
use zanarkand.Sniffer.Lifecycle.{
  Returned, done, at_end, Phase, idle, spawned, entered, looping, leaving, left, Life, cancel, Step,
  spawn, call, subscribe, enter, run, notice, file_end, deferred, send, hand_over, stop,
  parent_done, take_packet, end, crash, come_back, panic_frame, go_on, give_up, Reach, start, next,
}

abbrev HasContext : Option Bool → Type 0
HasContext c = (b : Bool) × (c ≡ some b)

-- The state and the context that go with the place of `Start`.
abbrev pub Agrees : Phase → SnifferState → Option Bool → Type 0
Agrees idle s c = (s ≡ SnifferState.stopped) × (c ≡ none)
Agrees spawned s c = (s ≡ SnifferState.stopped) × (c ≡ none)
Agrees entered s c = (s ≡ SnifferState.stopped) × HasContext c
Agrees looping s c = (s ≡ SnifferState.running) × HasContext c
Agrees (leaving done) s c = (s ≡ SnifferState.stopped) × (c ≡ some true)
Agrees (leaving at_end) s c = (s ≡ SnifferState.finished) × HasContext c
Agrees (left done) s c = (s ≡ SnifferState.stopped) × (c ≡ some true)
Agrees (left at_end) s c = (s ≡ SnifferState.finished) × (c ≡ some true)

cancel-HasContext : (c : Option Bool) → HasContext c → HasContext (cancel c)
cancel-HasContext none (b, e) = cc
cancel-HasContext (some a) h = (true, refl)

cancel-true : (c : Option Bool) → HasContext c → cancel c ≡ some true
cancel-true none (b, e) = cc
cancel-true (some a) h = refl

cancel-Agrees :
    (p : Phase) (s : SnifferState) (c : Option Bool) → Agrees p s c → Agrees p s (cancel c)
cancel-Agrees idle s c h = (h.0, ap cancel h.1)
cancel-Agrees spawned s c h = (h.0, ap cancel h.1)
cancel-Agrees entered s c h = (h.0, cancel-HasContext c h.1)
cancel-Agrees looping s c h = (h.0, cancel-HasContext c h.1)
cancel-Agrees (leaving done) s c h = (h.0, ap cancel h.1)
cancel-Agrees (leaving at_end) s c h = (h.0, cancel-HasContext c h.1)
cancel-Agrees (left done) s c h = (h.0, ap cancel h.1)
cancel-Agrees (left at_end) s c h = (h.0, ap cancel h.1)

left-Agrees :
    (r : Returned) (s : SnifferState) (c : Option Bool)
    → Agrees (leaving r) s c
    → Agrees (left r) s (cancel c)
left-Agrees done s c h = (h.0, ap cancel h.1)
left-Agrees at_end s c h = (h.0, cancel-true c h.1)

-- No packet is lost, doubled or moved, and the channel keeps to its size.
pub record IsKept {P : Type 0} (size capacity : ℕ) (queue taken sent : List P) : Type 0 where
  pub in_order : taken ++ queue ≡ sent
  pub same_capacity : capacity ≡ size
  pub room : length queue ≤ size

pub record IsSound {P : Type 0} (size : ℕ) (s : Life P) : Type 0 where
  pub agrees : Agrees s.phase s.state s.context
  pub kept : IsKept size s.capacity s.queue s.taken s.sent

sent-IsKept :
    {P : Type 0} {size capacity : ℕ} {queue taken sent : List P} (p : P)
    → IsKept size capacity queue taken sent
    → length queue < capacity
    → IsKept size capacity (queue ++ (p ∷ [])) taken (sent ++ (p ∷ []))
sent-IsKept {queue = queue} {taken = taken} p k n = record {
  in_order =
      sym (append_assoc taken queue (p ∷ [])) ∙ ap (λ (q : List _). q ++ (p ∷ [])) k.in_order;
  same_capacity = k.same_capacity;
  room = omega (arith, length-append queue (p ∷ []), k.same_capacity);
}

handed-IsKept :
    {P : Type 0} {size capacity : ℕ} {queue taken sent : List P} (p : P)
    → IsKept size capacity queue taken sent
    → queue ≡ []
    → IsKept size capacity queue (taken ++ (p ∷ [])) (sent ++ (p ∷ []))
handed-IsKept {queue = queue} {taken = taken} {sent = sent} p k e = record {
  in_order =
      ap (◌++◌ (taken ++ (p ∷ []))) e
      ∙ append-nil (taken ++ (p ∷ []))
      ∙ ap (λ (q : List _). q ++ (p ∷ []))
          (sym (append-nil taken) ∙ ap (◌++◌ taken) (sym e) ∙ k.in_order);
  same_capacity = k.same_capacity;
  room = k.room;
}

taken-IsKept :
    {P : Type 0} {size capacity : ℕ} {queue taken sent ps : List P} {p : P}
    → IsKept size capacity queue taken sent
    → queue ≡ p ∷ ps
    → IsKept size capacity ps (taken ++ (p ∷ [])) sent
taken-IsKept {taken = taken} {ps = ps} {p = p} k e = record {
  in_order = append_assoc taken (p ∷ []) ps ∙ ap (◌++◌ taken) (sym e) ∙ k.in_order;
  same_capacity = k.same_capacity;
  room = omega (arith, ap length e, k.room);
}

-- The agreement at the place where `Start` is found to be.
at_phase :
    {P : Type 0} {size : ℕ} {s : Life P} {p : Phase}
    → s.phase ≡ p
    → IsSound size s
    → Agrees p s.state s.context
at_phase {s = s} e h = subst (λ (x : Phase). Agrees x s.state s.context) e h.agrees

Step-IsSound : {P : Type 0} {size : ℕ} {s t : Life P} → Step s t → IsSound size s → IsSound size t
Step-IsSound (spawn p) h = record { agrees = at_phase p h; kept = h.kept }
Step-IsSound (call c a) h = record { agrees = h.agrees; kept = h.kept }
Step-IsSound (subscribe a p) h = record { agrees = at_phase p h; kept = h.kept }
Step-IsSound {s = s} (enter p) h =
    let k : Agrees spawned s.state s.context = at_phase p h in
    record { agrees = (k.0, (s.parent_cancelled, refl)); kept = h.kept }
Step-IsSound {s = s} (run p) h =
    let k : Agrees entered s.state s.context = at_phase p h in
    record { agrees = (refl, k.1); kept = h.kept }
Step-IsSound (notice p c) h = record { agrees = (refl, c); kept = h.kept }
Step-IsSound {s = s} (file_end p) h =
    let k : Agrees looping s.state s.context = at_phase p h in
    record { agrees = (refl, k.1); kept = h.kept }
Step-IsSound {s = s} (deferred r p) h = record {
  agrees = left-Agrees r s.state s.context (at_phase p h);
  kept = h.kept;
}
Step-IsSound (send p r n) h = record { agrees = h.agrees; kept = sent-IsKept p h.kept n }
Step-IsSound (hand_over p r a b q) h = record { agrees = h.agrees; kept = handed-IsKept p h.kept q }
Step-IsSound {s = s} stop h = record {
  agrees = cancel-Agrees s.phase s.state s.context h.agrees;
  kept = h.kept;
}
Step-IsSound {s = s} parent_done h = record {
  agrees = cancel-Agrees s.phase s.state s.context h.agrees;
  kept = h.kept;
}
Step-IsSound (take_packet a b q) h = record { agrees = h.agrees; kept = taken-IsKept h.kept q }
Step-IsSound (end a b) h = record { agrees = h.agrees; kept = h.kept }
Step-IsSound (crash a b) h = record { agrees = h.agrees; kept = h.kept }
Step-IsSound (come_back a) h = record { agrees = h.agrees; kept = h.kept }
Step-IsSound (panic_frame a) h = record { agrees = h.agrees; kept = h.kept }
Step-IsSound (go_on a b) h = record { agrees = h.agrees; kept = h.kept }
Step-IsSound (give_up a b) h = record { agrees = h.agrees; kept = h.kept }

-- However one call of `Start`, a reader's calls and the streams interleave, with `Stop` at any time: the sniffer
-- is running exactly in `Start`'s loop, and finished behind the end of a file; there is a context from
-- `Start`'s first line on, and it is cancelled when `Start` has returned; the packets that the reader has
-- taken and those in the channel are those that were sent, in order; the channel keeps to its size.
pub Reach-IsSound : {P : Type 0} {size : ℕ} {s : Life P} → Reach size s → IsSound size s
Reach-IsSound start = record {
  agrees = (refl, refl);
  kept = record { in_order = refl; same_capacity = refl; room = omega arith };
}
Reach-IsSound (next r st) = Step-IsSound st (Reach-IsSound r)
