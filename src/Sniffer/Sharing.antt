-- ===== src/Sniffer/Sharing.antt =====
-- sniffer.go and the `Subscribe` methods with any number of calls of `Start`, each with its own context, and
-- any number of readers of one sniffer: what they share, in any order of their steps. Each is known by a
-- number.
pub mod Split
pub mod Again
use zanarkand.Prelude.{
  ℕ, suc, ◌<◌, ◌≡◌, ◌≢◌, Bool, true, Option, none, some, List, [], ◌∷◌, ◌++◌, length, update,
}
use zanarkand.Sniffer.{SnifferState}

-- Where a call of `Start` is: not called, in front of its first line, behind the line that makes its
-- context, in its loop with the context that its select watches, in front of the deferred `cancel` of
-- its own context, or at its end.
pub data StartPlace : Type 0 where
  idle spawned : StartPlace
  entered : ℕ → StartPlace
  looping : (own watched : ℕ) → StartPlace
  leaving left : ℕ → StartPlace

-- Where a reader is: before its call, in front of the select of `NextFrame`, in that select with the
-- context that it watches, with a frame in `ProcessFrames`, back, or in a panic.
pub data ReaderPlace : Type 0 where
  unsubscribed called : ReaderPlace
  waiting : ℕ → ReaderPlace
  working ended crashed : ReaderPlace

-- `current` is `s.ctx` and `s.cancel`; `cancelled` tells which of the contexts made so far are. A packet
-- that was taken goes with its reader.
pub record Shared (P : Type 0) : Type 0 where
  pub state : SnifferState
  pub current : Option ℕ
  pub cancelled : ℕ → Bool
  pub made : ℕ
  pub starts : ℕ → StartPlace
  pub readers : ℕ → ReaderPlace
  pub capacity : ℕ
  pub queue : List P
  pub taken : List (ℕ × P)
  pub sent : List P

-- The sniffer that `NewSniffer` makes.
abbrev pub new_shared : {P : Type 0} → ℕ → Shared P
new_shared size = record {
  state = SnifferState.stopped;
  current = none;
  cancelled = λ _. true;
  made = 0;
  starts = λ _. idle;
  readers = λ _. unsubscribed;
  capacity = size;
  queue = [];
  taken = [];
  sent = [];
}

-- A packet can be sent once a loop has given packets to the assembler.
abbrev pub HasLooped : StartPlace → Type 0
HasLooped (looping o w) = Unit
HasLooped (leaving o) = Unit
HasLooped (left o) = Unit
HasLooped _ = ⊥

pub data Step {P : Type 0} (s : Shared P) : Shared P → Type 0 where
  -- `go s.Start(ctx)`, by the program itself.
  spawn : (i : ℕ) → s.starts i ≡ idle → Step s (record s { starts = update s.starts i spawned })
  -- `Subscribe`, of a sniffer that is active or of one that it starts, or a first call of `NextFrame`.
  join :
      (j : ℕ)
      → s.readers j ≡ unsubscribed
      → s.state ≡ SnifferState.running
      → Step s (record s { readers = update s.readers j called })
  subscribe :
      (i j : ℕ)
      → s.readers j ≡ unsubscribed
      → s.state ≢ SnifferState.running
      → s.starts i ≡ idle
      → Step s
          (record s { readers = update s.readers j called; starts = update s.starts i spawned })
  -- `s.ctx, s.cancel = context.WithCancel(ctx)`, for a parent that is cancelled or not.
  enter :
      (i : ℕ) (parent : Bool)
      → s.starts i ≡ spawned
      → Step s (record s {
        current = some s.made;
        cancelled = update s.cancelled s.made parent;
        made = suc s.made;
        starts = update s.starts i (entered s.made);
      })
  run :
      (i : ℕ) {own w : ℕ}
      → s.starts i ≡ entered own
      → s.current ≡ some w
      → Step s
          (record s { state = SnifferState.running; starts = update s.starts i (looping own w) })
  -- A packet or a tick, after which the select watches what is `s.ctx` then.
  go_round :
      (i : ℕ) {own w v : ℕ}
      → s.starts i ≡ looping own w
      → s.current ≡ some v
      → Step s (record s { starts = update s.starts i (looping own v) })
  -- The context that the select watches is done, or the packets end.
  notice :
      (i : ℕ) {own w : ℕ}
      → s.starts i ≡ looping own w
      → s.cancelled w ≡ true
      → Step s (record s { state = SnifferState.stopped; starts = update s.starts i (leaving own) })
  file_end :
      (i : ℕ) {own w : ℕ}
      → s.starts i ≡ looping own w
      → Step s
          (record s { state = SnifferState.finished; starts = update s.starts i (leaving own) })
  deferred :
      (i : ℕ) {own : ℕ}
      → s.starts i ≡ leaving own
      → Step s (record s {
        cancelled = update s.cancelled own true;
        starts = update s.starts i (left own);
      })
  -- A stream sends a packet, into the channel or to a reader that waits.
  send :
      (i : ℕ) (p : P)
      → HasLooped (s.starts i)
      → length s.queue < s.capacity
      → Step s (record s { queue = s.queue ++ (p ∷ []); sent = s.sent ++ (p ∷ []) })
  hand_over :
      (i j : ℕ) (p : P) {w : ℕ}
      → HasLooped (s.starts i)
      → s.readers j ≡ waiting w
      → s.queue ≡ []
      → Step s (record s {
        taken = s.taken ++ ((j, p) ∷ []);
        sent = s.sent ++ (p ∷ []);
        readers = update s.readers j working;
      })
  -- `Stop`, which does nothing where no context was made yet, and the end of a context's parent.
  stop : (w : ℕ) → s.current ≡ some w → Step s (record s { cancelled = update s.cancelled w true })
  stop_unstarted : s.current ≡ none → Step s s
  parent_done : (c : ℕ) → c < s.made → Step s (record s { cancelled = update s.cancelled c true })
  -- The select of `NextFrame`: it looks up `s.ctx`, and panics on nil; then a packet, or the context's end.
  enter_select :
      (j w : ℕ)
      → s.readers j ≡ called
      → s.current ≡ some w
      → Step s (record s { readers = update s.readers j (waiting w) })
  crash :
      (j : ℕ)
      → s.readers j ≡ called
      → s.current ≡ none
      → Step s (record s { readers = update s.readers j crashed })
  take_packet :
      (j : ℕ) {w : ℕ} {p : P} {ps : List P}
      → s.readers j ≡ waiting w
      → s.queue ≡ p ∷ ps
      → Step s (record s {
        queue = ps;
        taken = s.taken ++ ((j, p) ∷ []);
        readers = update s.readers j working;
      })
  end :
      (j : ℕ) {w : ℕ}
      → s.readers j ≡ waiting w
      → s.cancelled w ≡ true
      → Step s (record s { readers = update s.readers j ended })
  -- The end of a frame: an error or a panic, or the question whether the sniffer is active.
  fail : (j : ℕ) → s.readers j ≡ working → Step s (record s { readers = update s.readers j ended })
  panic_frame :
      (j : ℕ) → s.readers j ≡ working → Step s (record s { readers = update s.readers j crashed })
  go_on :
      (j : ℕ)
      → s.readers j ≡ working
      → s.state ≡ SnifferState.running
      → Step s (record s { readers = update s.readers j called })
  give_up :
      (j : ℕ)
      → s.readers j ≡ working
      → s.state ≢ SnifferState.running
      → Step s (record s { readers = update s.readers j ended })

pub data Reach {P : Type 0} (size : ℕ) : Shared P → Type 0 where
  start : Reach size (new_shared size)
  next : {s t : Shared P} → Reach size s → Step s t → Reach size t

-- Any number of steps.
pub data Steps {P : Type 0} (s : Shared P) : Shared P → Type 0 where
  here : Steps s s
  then_step : {t u : Shared P} → Steps s t → Step t u → Steps s u
