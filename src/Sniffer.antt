-- ===== src/Sniffer.antt =====
-- sniffer.go: `NextFrame`, `ProcessFrames` and the state that they read. `F` stands for `gopacket.Flow`.
-- What the scheduler and other goroutines decide is an argument: which case of a `select` is taken, and
-- what `IsActive` answers at each of its calls.
pub mod Start
pub mod Assembly
pub mod Config
pub mod Frames
pub mod Handover
pub mod Lifecycle
pub mod Messages
pub mod Pipeline
pub mod Sharing
pub mod Simulation
use zanarkand.Prelude.{
  ℕ, zero, suc, Bool, true, false, Option, none, some, List, [], ◌∷◌, ◌==◌, if◌then◌else◌, length,
}
use zanarkand.Prelude.Int.{pos}
use zanarkand.Prelude.Bytes.{Bytes}
use zanarkand.Io.{IoError, eof, Reader, new_reader}
use zanarkand.Error.{
  Error, retrieving_frame, resetting_zlib, no_error, io, foreign, wrapped, not_enough_data,
  decoding_failure, Outcome, ok, err, panic, ◌>>=◌,
}
use zanarkand.Message.{GenericHeader, decode_header}
use zanarkand.Frame.{Frame, zero_frame, decode_frame, compression_zlib}
use zanarkand.Reassembler.{Packet}

pub data SnifferState : Type 0 where
  stopped running finished : SnifferState

-- What the `select` of `NextFrame` receives: a packet of `dataCh`, or the end of the context.
pub data Pick (F : Type 0) : Type 0 where
  packet : Packet F → Pick F
  done : Pick F

-- `context.Canceled`
abbrev pub cancelled : Error
cancelled = foreign 0

-- The length check of `NextFrame`, and the flow.
check_length : {F : Type 0} → Packet F → Frame F → Outcome (Frame F)
check_length p f =
    if f.length == length p.body
    then ok (record f { flow = p.flow })
    else err (not_enough_data (pos (length p.body)) f.length no_error)

pick_frame : {F : Type 0} → F → Pick F → Outcome (Frame F)
pick_frame z (packet p) = do f ← decode_frame (zero_frame z) p.body []; check_length p f
pick_frame z done = err cancelled

-- `NextFrame`. `started` tells whether `Start` has set the context: `s.ctx.Done()` of a nil context
-- panics, whatever else is ready. A packet's body is made by `make([]byte, n)`: it has no spare capacity.
pub next_frame : {F : Type 0} → F → Bool → Pick F → Outcome (Frame F)
next_frame z true c = pick_frame z c
next_frame z false c = panic

-- `FrameHandler`, over the state `S` that its calls change.
abbrev pub FrameHandler : Type 0 → Type 0 → Type 0
FrameHandler F S = S → Frame F → GenericHeader → Reader → S × Outcome Reader

module _ {F S : Type 0} (fn : FrameHandler F S) (frame : Frame F) where
  -- The call of `fn` in a round, and what the later rounds do with its state and its reader.
  called : (S → Reader → S × Outcome Reader) → S × Outcome Reader → S × Outcome Reader
  called later (s, ok r) = later s r
  called later (s, err e) = (s, err e)
  called later (s, panic) = (s, panic)

  decoded :
      (S → Reader → S × Outcome Reader) → S → Outcome (GenericHeader × Reader) → S × Outcome Reader
  decoded later s (ok (h, r)) = called later (fn s frame h r)
  decoded later s (err e) = (s, err (decoding_failure e))
  decoded later s panic = (s, panic)

  -- The loop over the messages of a frame, of which `n` are left.
  unfoldable pub process_messages : ℕ → S → Reader → S × Outcome Reader
  unfolding decoded called
  process_messages zero s r = (s, ok r)
  process_messages (suc n) s r = decoded (process_messages n) s (decode_header r)

-- `bufio.NewReader`
abbrev pub default_size : ℕ
default_size = 4096

-- `zlib.Resetter.Reset` on a pooled reader: an error, or what the reader gives.
abbrev pub Reset : Type 0
Reset = Bytes → Outcome (List Bytes × IoError)

-- The readers in `zpool`. `sync.Pool.Get` of an empty pool with no `New` is nil, and the type assertion
-- on nil panics; so `zlib.NewReader` behind it is never reached.
pooled : Reset → Bytes → ℕ → Outcome (Reader × ℕ)
pooled reset body zero = panic
pooled reset body (suc n) = elim (reset body) [
  | ok (pieces, e) ↦ ok (new_reader default_size pieces e, n)
  | err e ↦ err (wrapped resetting_zlib e)
  | panic ↦ panic
]

-- "Setup our Message reader", with the readers that are left in the pool.
pub message_reader : {F : Type 0} → Reset → Frame F → ℕ → Outcome (Reader × ℕ)
message_reader reset f pool =
    if f.compression == compression_zlib
    then pooled reset f.body pool
    else ok (new_reader default_size (f.body ∷ []) IoError.eof, pool)

-- How `ProcessFrames` ends: it returns, it panics, or it waits for more than the schedule holds.
pub data Ended : Type 0 where
  returned : Error → Ended
  panicked : Ended
  waiting : Ended

-- A round of `ProcessFrames`: what `NextFrame` picks, and what `IsActive` answers behind the frame.
pub record Turn (F : Type 0) : Type 0 where
  pub pick : Pick F
  pub active : Bool

module _ {F S : Type 0} (zero_flow : F) (reset : Reset) (fn : FrameHandler F S) where
  -- The end of a round: the reader goes back to the pool, and a stopped sniffer ends the loop.
  frame_done : Frame F → ℕ → Bool → (ℕ → S → S × Ended) → S × Outcome Reader → S × Ended
  frame_done f pool active later (s, ok r) =
      let pool' = if f.compression == compression_zlib then suc pool else pool in
      if active then later pool' s else (s, returned no_error)
  frame_done f pool active later (s, err e) = (s, returned e)
  frame_done f pool active later (s, panic) = (s, panicked)

  with_reader : Frame F → Bool → (ℕ → S → S × Ended) → S → Outcome (Reader × ℕ) → S × Ended
  with_reader f active later s (ok (r, pool)) =
      frame_done f pool active later (process_messages fn f f.count s r)
  with_reader f active later s (err e) = (s, returned e)
  with_reader f active later s panic = (s, panicked)

  with_frame : ℕ → Bool → (ℕ → S → S × Ended) → S → Outcome (Frame F) → S × Ended
  with_frame pool active later s (ok f) = with_reader f active later s (message_reader reset f pool)
  with_frame pool active later s (err e) = (s, returned (wrapped retrieving_frame e))
  with_frame pool active later s panic = (s, panicked)

  -- `ProcessFrames` over a schedule, with `pool` readers in the pool. It starts with none.
  pub process_frames : Bool → ℕ → S → List (Turn F) → S × Ended
  process_frames started pool s [] = (s, waiting)
  process_frames started pool s (t ∷ ts) =
      with_frame pool t.active (λ p s'. process_frames started p s' ts) s
        (next_frame zero_flow started t.pick)
