-- ===== src/Sniffer/Lifecycle.antt =====
-- sniffer.go and the `Subscribe` methods: one call of `Start` in its goroutine, one reader of frames that
-- may call `NextFrame`, `ProcessFrames` or `Subscribe` as often as it wants to, and what they share, `s.ctx`, `s.state` and `dataCh`, in any order of their steps.
pub mod Invariant
pub mod Ends
use zanarkand.Prelude.{
  ℕ, suc, ◌<◌, ◌≡◌, ◌≢◌, Bool, true, false, Option, none, some, List, [], ◌∷◌, ◌++◌, length,
}
use zanarkand.Sniffer.{SnifferState}

-- How `Start` returns: with nil or with `io.EOF`.
pub data Returned : Type 0 where
  done at_end : Returned

-- Where the goroutine of `Start` is: not started, in front of its first line, behind the line that sets
-- `s.ctx`, in its loop, in front of the deferred `s.cancel()`, or at its end.
pub data Phase : Type 0 where
  idle spawned entered looping : Phase
  leaving : Returned → Phase
  left : Returned → Phase

-- A packet can be sent once packets have been assembled, by the streams' own goroutines.
abbrev pub HasRun : Phase → Type 0
HasRun looping = Unit
HasRun (leaving r) = Unit
HasRun (left r) = Unit
HasRun _ = ⊥

-- Who called `NextFrame`: the program, or `ProcessFrames` in its loop.
pub data Caller : Type 0 where
  program process_frames : Caller

-- Where the reader is: before its first call, in the select of `NextFrame`, behind it with a packet, back
-- from its last call, or in a panic.
pub data ReaderPhase : Type 0 where
  unsubscribed : ReaderPhase
  reading working : Caller → ReaderPhase
  ended crashed : ReaderPhase

-- The reader is in no call, and may call.
abbrev pub IsFree : ReaderPhase → Type 0
IsFree unsubscribed = Unit
IsFree ended = Unit
IsFree _ = ⊥

-- `context` is nil, or says whether the context is cancelled. `calls` counts the
-- reader's calls, and `sent` is all that was ever sent on `dataCh`.
pub record Life (P : Type 0) : Type 0 where
  pub state : SnifferState
  pub context : Option Bool
  pub parent_cancelled : Bool
  pub phase : Phase
  pub reader : ReaderPhase
  pub calls : ℕ
  pub capacity : ℕ
  pub queue : List P
  pub taken : List P
  pub sent : List P

-- The sniffer that `NewSniffer` makes.
abbrev pub new_life : {P : Type 0} → ℕ → Life P
new_life size = record {
  state = SnifferState.stopped;
  context = none;
  parent_cancelled = false;
  phase = idle;
  reader = unsubscribed;
  calls = 0;
  capacity = size;
  queue = [];
  taken = [];
  sent = [];
}

-- `cancel`, where there is a context.
abbrev pub cancel : Option Bool → Option Bool
cancel none = none
cancel (some b) = some true

pub data Step {P : Type 0} (s : Life P) : Life P → Type 0 where
  -- `go s.Start(ctx)`, by the program itself.
  spawn : s.phase ≡ idle → Step s (record s { phase = spawned })
  -- A call of `NextFrame` or of `ProcessFrames`, in any state of the sniffer: also that of `Subscribe` where
  -- the sniffer is active.
  call :
      (c : Caller) → IsFree s.reader → Step s (record s { reader = reading c; calls = suc s.calls })
  -- `Subscribe` of a sniffer that was never started, which it starts.
  subscribe :
      IsFree s.reader
      → s.phase ≡ idle
      → Step s (record s { reader = reading process_frames; calls = suc s.calls; phase = spawned })
  -- `s.ctx, s.cancel = context.WithCancel(ctx)`
  enter :
      s.phase ≡ spawned → Step s (record s { context = some s.parent_cancelled; phase = entered })
  run : s.phase ≡ entered → Step s (record s { state = SnifferState.running; phase = looping })
  -- The select of `Start`: the context is done, or the packets end.
  notice :
      s.phase ≡ looping
      → s.context ≡ some true
      → Step s (record s { state = SnifferState.stopped; phase = leaving done })
  file_end :
      s.phase ≡ looping
      → Step s (record s { state = SnifferState.finished; phase = leaving at_end })
  deferred :
      (r : Returned)
      → s.phase ≡ leaving r
      → Step s (record s { context = cancel s.context; phase = left r })
  -- A stream sends a packet, into the channel or to a reader that waits.
  send :
      (p : P)
      → HasRun s.phase
      → length s.queue < s.capacity
      → Step s (record s { queue = s.queue ++ (p ∷ []); sent = s.sent ++ (p ∷ []) })
  hand_over :
      (p : P) {b : Bool} {c : Caller}
      → HasRun s.phase
      → s.reader ≡ reading c
      → s.context ≡ some b
      → s.queue ≡ []
      → Step s
          (record s { taken = s.taken ++ (p ∷ []); sent = s.sent ++ (p ∷ []); reader = working c })
  -- `Stop`, and the end of the context that `Start` was given.
  stop : Step s (record s { context = cancel s.context })
  parent_done : Step s (record s { context = cancel s.context; parent_cancelled = true })
  -- The select of `NextFrame`: a packet, the context's end, or the panic on a nil context.
  take_packet :
      {b : Bool} {p : P} {ps : List P} {c : Caller}
      → s.reader ≡ reading c
      → s.context ≡ some b
      → s.queue ≡ p ∷ ps
      → Step s (record s { queue = ps; taken = s.taken ++ (p ∷ []); reader = working c })
  end :
      {c : Caller}
      → s.reader ≡ reading c
      → s.context ≡ some true
      → Step s (record s { reader = ended })
  crash :
      {c : Caller}
      → s.reader ≡ reading c
      → s.context ≡ none
      → Step s (record s { reader = crashed })
  -- Behind a packet: `NextFrame` returns its frame to the program, or a call ends with an error or in a panic,
  -- or `ProcessFrames` asks whether the sniffer is active.
  come_back : {c : Caller} → s.reader ≡ working c → Step s (record s { reader = ended })
  panic_frame : {c : Caller} → s.reader ≡ working c → Step s (record s { reader = crashed })
  go_on :
      s.reader ≡ working process_frames
      → s.state ≡ SnifferState.running
      → Step s (record s { reader = reading process_frames })
  give_up :
      s.reader ≡ working process_frames
      → s.state ≢ SnifferState.running
      → Step s (record s { reader = ended })

pub data Reach {P : Type 0} (size : ℕ) : Life P → Type 0 where
  start : Reach size (new_life size)
  next : {s t : Life P} → Reach size s → Step s t → Reach size t

-- Any number of steps.
pub data Steps {P : Type 0} (s : Life P) : Life P → Type 0 where
  here : Steps s s
  then_step : {t u : Life P} → Steps s t → Step t u → Steps s u
