-- ===== src/Sniffer/Lifecycle/Ends.antt =====
-- What a reader still gets when `Start` has left its loop.
use zanarkand.Prelude.{
  ℕ, ◌+◌, ◌≤◌, ◌≡◌, ◌≢◌, ap, subst, Bool, Option, [], ◌∷◌, length, length-append, arith,
}
use zanarkand.Sniffer.{SnifferState}
use zanarkand.Sniffer.Lifecycle.{
  done, at_end, Phase, idle, spawned, entered, looping, leaving, left, ReaderPhase, unsubscribed,
  reading, working, ended, crashed, Life, Step, spawn, call, subscribe, enter, run, notice,
  file_end, deferred, send, hand_over, stop, parent_done, take_packet, end, crash, come_back,
  panic_frame, go_on, give_up, Reach, next, Steps, here, then_step,
}
use zanarkand.Sniffer.Lifecycle.Invariant.{Agrees, IsSound, Reach-IsSound}

-- `Start` is behind its loop.
abbrev pub IsOver : Phase → Type 0
IsOver (leaving r) = Unit
IsOver (left r) = Unit
IsOver _ = ⊥

not_running :
    (p : Phase) (s : SnifferState) (c : Option Bool)
    → IsOver p
    → Agrees p s c
    → s ≢ SnifferState.running
not_running idle s c o a e = elim o [ ]
not_running spawned s c o a e = elim o [ ]
not_running entered s c o a e = elim o [ ]
not_running looping s c o a e = elim o [ ]
not_running (leaving done) s c o a e = cc
not_running (leaving at_end) s c o a e = cc
not_running (left done) s c o a e = cc
not_running (left at_end) s c o a e = cc

-- How many packets a reader can still take then without another call.
abbrev allowance : ReaderPhase → ℕ
allowance (reading c) = 1
allowance _ = 0

record Winds {P : Type 0} (s t : Life P) : Type 0 where
  over : IsOver t.phase
  fewer :
      length t.taken + allowance t.reader + s.calls ≤ length s.taken + allowance s.reader + t.calls
  more : length s.sent ≤ length t.sent

over_at : {q p : Phase} → q ≡ p → IsOver q → IsOver p
over_at e o = subst IsOver e o

Step-Winds :
    {P : Type 0} {size : ℕ} {s t : Life P} → IsSound size s → IsOver s.phase → Step s t → Winds s t
Step-Winds h o (spawn p) = absurd (over_at p o)
Step-Winds h o (call c a) = record { over = o; fewer = omega arith; more = omega arith }
Step-Winds h o (subscribe a p) = absurd (over_at p o)
Step-Winds h o (enter p) = absurd (over_at p o)
Step-Winds h o (run p) = absurd (over_at p o)
Step-Winds h o (notice p c) = absurd (over_at p o)
Step-Winds h o (file_end p) = absurd (over_at p o)
Step-Winds h o (deferred r p) = record { over = tt; fewer = omega arith; more = omega arith }
Step-Winds {s = s} h o (send p r n) = record {
  over = o;
  fewer = omega arith;
  more = omega (arith, length-append s.sent (p ∷ []));
}
Step-Winds {s = s} h o (hand_over p r a b q) = record {
  over = o;
  fewer = omega (arith, length-append s.taken (p ∷ []), ap allowance a);
  more = omega (arith, length-append s.sent (p ∷ []));
}
Step-Winds h o stop = record { over = o; fewer = omega arith; more = omega arith }
Step-Winds h o parent_done = record { over = o; fewer = omega arith; more = omega arith }
Step-Winds {s = s} h o (take_packet {p = p} a b q) = record {
  over = o;
  fewer = omega (arith, length-append s.taken (p ∷ []), ap allowance a);
  more = omega arith;
}
Step-Winds h o (end a b) = record { over = o; fewer = omega arith; more = omega arith }
Step-Winds h o (crash a b) = record { over = o; fewer = omega arith; more = omega arith }
Step-Winds h o (come_back a) = record { over = o; fewer = omega arith; more = omega arith }
Step-Winds h o (panic_frame a) = record { over = o; fewer = omega arith; more = omega arith }
Step-Winds {s = s} h o (go_on a b) = absurd (not_running s.phase s.state s.context o h.agrees b)
Step-Winds h o (give_up a b) = record { over = o; fewer = omega arith; more = omega arith }

Reach-Steps : {P : Type 0} {size : ℕ} {s t : Life P} → Reach size s → Steps s t → Reach size t
Reach-Steps r here = r
Reach-Steps r (then_step ss st) = next (Reach-Steps r ss) st

Steps-Winds :
    {P : Type 0} {size : ℕ} {s t : Life P} → Reach size s → IsOver s.phase → Steps s t → Winds s t
Steps-Winds r o here = record { over = o; fewer = omega arith; more = omega arith }
Steps-Winds r o (then_step ss st) =
    let before = Steps-Winds r o ss in
    let last = Step-Winds (Reach-IsSound (Reach-Steps r ss)) before.over st in
    record {
      over = last.over;
      fewer = omega (arith, before.fewer, last.fewer);
      more = omega (arith, before.more, last.more);
    }

one_at_most : (p : ReaderPhase) → allowance p ≤ 1
one_at_most unsubscribed = omega arith
one_at_most (reading c) = omega arith
one_at_most (working c) = omega arith
one_at_most ended = omega arith
one_at_most crashed = omega arith

-- Where `Start` is called once and has left its loop, at the end of a file or of its context, and one
-- goroutine reads: whatever happens then, the reader takes one packet more at most, and one at most for each
-- further call that it makes, be it of `NextFrame` or of `ProcessFrames`. All other packets that are queued
-- then stay in the channel.
pub Steps-taken :
    {P : Type 0} {size : ℕ} {s t : Life P}
    → Reach size s
    → IsOver s.phase
    → Steps s t
    → (length t.taken + s.calls ≤ length s.taken + 1 + t.calls)
      × (length s.queue + s.calls ≤ length t.queue + 1 + t.calls)
Steps-taken {s = s} {t = t} r o ss =
    let w : Winds s t = Steps-Winds r o ss in
    let few : length t.taken + s.calls ≤ length s.taken + 1 + t.calls =
      omega (arith, w.fewer, one_at_most s.reader) in
    (
      few,
      omega (
        arith,
        few,
        w.more,
        ap length (Reach-IsSound r).kept.in_order,
        ap length (Reach-IsSound (Reach-Steps r ss)).kept.in_order,
        length-append s.taken s.queue,
        length-append t.taken t.queue,
      ),
    )
