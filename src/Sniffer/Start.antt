-- ===== src/Sniffer/Start.antt =====
-- The event loop of `Sniffer.Start`, `Stop`, and the sniffer's state as others see it.
use zanarkand.Prelude.{
  ℕ, ◌≡◌, ◌∙◌, Bool, true, false, List, [], ◌∷◌, ◌++◌, Option, none, some, append_assoc, append-nil,
}
use zanarkand.Io.{IoError}
use zanarkand.Error.{Error, no_error, io}
use zanarkand.Sniffer.{SnifferState, stopped, running, finished}

-- `SnifferState.String`, by the name that it prints.
pub data StateName : Type 0 where
  stopped_name running_name finished_name : StateName

state_name : SnifferState → StateName
state_name stopped = stopped_name
state_name running = running_name
state_name finished = finished_name

-- `IsActive`
abbrev pub is_active : SnifferState → Bool
is_active running = true
is_active _ = false

-- A packet of gopacket, as far as the loop looks at it: the flow of its network layer, if it has one,
-- and its transport layer, if it has one, with whether that is TCP.
pub record Captured (F T : Type 0) : Type 0 where
  pub network_flow : Option F
  pub transport : Option (T × Bool)
  pub timestamp : ℕ

-- What the `select` of the loop receives. No packet means that the source has ended.
pub data Event (F T : Type 0) : Type 0 where
  done : Event F T
  packet : Option (Captured F T) → Event F T
  tick : ℕ → Event F T

-- The calls of `tcpassembly.Assembler` that the loop makes; `flush_older t` is `FlushWithOptions` for
-- what is older than three seconds before `t`.
pub data Call (F T : Type 0) : Type 0 where
  assemble : F → T → ℕ → Call F T
  flush_older : ℕ → Call F T
  flush_all : Call F T

-- The state, the calls made so far, and what `Start` has returned, if it has.
pub record Loop (F T : Type 0) : Type 0 where
  pub state : SnifferState
  pub calls : List (Call F T)
  pub result : Option Error

pub data End : Type 0 where
  by_context by_source never : End

module _ {F T : Type 0} where
  -- What is done with a packet: nothing unless it has a network layer and TCP above it.
  assembled : Captured F T → Option F → Option (T × Bool) → List (Call F T)
  assembled p (some n) (some (t, true)) = assemble n t p.timestamp ∷ []
  assembled p _ _ = []

  start_loop : Loop F T → List (Event F T) → Loop F T
  start_loop s [] = s
  start_loop s (done ∷ es) = record s {
    state = stopped;
    calls = s.calls ++ (flush_all ∷ []);
    result = some no_error;
  }
  start_loop s (packet none ∷ es) = record s { state = finished; result = some (io IoError.eof) }
  start_loop s (packet (some p) ∷ es) =
      start_loop (record s { calls = s.calls ++ assembled p p.network_flow p.transport }) es
  start_loop s (tick t ∷ es) = start_loop (record s { calls = s.calls ++ (flush_older t ∷ []) }) es

  -- `Start`: the state is set to running before the loop.
  pub start : List (Event F T) → Loop F T
  start = start_loop (record { state = running; calls = []; result = none })

  -- What the loop does before it ends, written by itself: the calls for the events before the first
  -- that ends it, and the event that does.
  pub calls_before : List (Event F T) → List (Call F T)
  calls_before [] = []
  calls_before (packet (some p) ∷ es) = assembled p p.network_flow p.transport ++ calls_before es
  calls_before (tick t ∷ es) = flush_older t ∷ calls_before es
  calls_before (_ ∷ es) = []

  pub first_end : List (Event F T) → End
  first_end [] = never
  first_end (done ∷ es) = by_context
  first_end (packet none ∷ es) = by_source
  first_end (_ ∷ es) = first_end es

  abbrev pub ended : List (Call F T) → End → Loop F T
  ended cs by_context = record {
    state = stopped;
    calls = cs ++ (flush_all ∷ []);
    result = some no_error;
  }
  ended cs by_source = record { state = finished; calls = cs; result = some (io IoError.eof) }
  ended cs never = record { state = running; calls = cs; result = none }

  start_loop-ended :
      (es : List (Event F T)) (cs : List (Call F T))
      → start_loop (record { state = running; calls = cs; result = none }) es
        ≡ ended (cs ++ calls_before es) (first_end es)
  unfolding start_loop calls_before first_end
  start_loop-ended [] cs = rw append-nil
  start_loop-ended (done ∷ es) cs = rw append-nil
  start_loop-ended (packet none ∷ es) cs = rw append-nil
  start_loop-ended (packet (some p) ∷ es) cs =
      start_loop-ended es (cs ++ assembled p p.network_flow p.transport) ∙ rw append_assoc
  start_loop-ended (tick t ∷ es) cs =
      start_loop-ended es (cs ++ (flush_older t ∷ [])) ∙ rw append_assoc

  -- `Start` makes the calls for the events before the first that ends it, in their order. It flushes
  -- all streams only if the context ends it, and then is stopped and returns no error; if the source
  -- ends it, it is finished and returns io.EOF; and until then it is running.
  pub start-ended : (es : List (Event F T)) → start es ≡ ended (calls_before es) (first_end es)
  unfolding start
  start-ended es = start_loop-ended es []
