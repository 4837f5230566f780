-- ===== src/Sniffer/Assembly.antt =====
-- sniffer.go and reassembler.go: the loop of `Start`, its calls of the assembler, the streams' goroutines
-- that the assembler gives its pieces to, and `dataCh`, in any order of their steps. A call of the
-- assembler is over when the stream that it gives a piece to has been read so far that it `returns`.
pub mod Hung
pub mod Split
pub mod Full
pub mod Sending
pub mod Open
pub mod Handled
pub mod Sent
pub mod Order
pub mod Whole
use zanarkand.Prelude.{
  ℕ, ◌<◌, ◌≡◌, Bool, true, false, List, [], ◌∷◌, ◌++◌, length, update, ◌==◌, if◌then◌else◌,
}
use zanarkand.Prelude.Bytes.{Bytes}
use zanarkand.Io.{IoError, Reader, new_reader}
use zanarkand.Error.{Error, io, wrapped}
use zanarkand.Reassembler.{Packet, round, sent, stopped, reader_size}
use zanarkand.Sniffer.{SnifferState}

-- A `ReaderStream` and its goroutine: `now` is the buffered reader in front of the round that goes on,
-- above all that the assembler has given since. Behind `run`, `later` is what was given since it returned.
pub data Stream (F : Type 0) : Type 0 where
  unopened : Stream F
  live : (net : F) (now : Reader) → Stream F
  left : (net : F) (reason : Error) (later : List Bytes) → Stream F

-- No error of a reader: the goroutine waits in a read of a stream that has no more bytes yet.
abbrev pub would_block : IoError
would_block = IoError.other 0

-- A round that comes to such a read has no result. It is the same round with more bytes behind it.
abbrev pub is_wait : Error → Bool
is_wait (wrapped t (io (IoError.other n))) = n == 0
is_wait _ = false

-- `New` at the first piece of a stream, and `Reassembled` at each.
abbrev pub given : {F : Type 0} → F → Bytes → Stream F → Stream F
given net p unopened = live net (new_reader reader_size (p ∷ []) would_block)
given net p (live n r) = live n (record r { rd = r.rd ++ (p ∷ []) })
given net p (left n e ps) = left n e (ps ++ (p ∷ []))

-- `ReassemblyComplete`: the stream's bytes end.
abbrev pub completed : {F : Type 0} → Stream F → Stream F
completed (live n r) = live n (record r { rd_err = IoError.eof })
completed s = s

-- The calls of the assembler stand in the cases of the `select`, or in `FlushAll` when it is left.
pub data Place : Type 0 where
  selecting flushing : Place

-- Where the goroutine of `Start` is: between two calls, in one that gives stream `i` a piece, or at its end.
pub data Starter : Type 0 where
  between : Place → Starter
  calling : (i : ℕ) → Place → Starter
  over : Starter

-- `handed` is all that the assembler has given, each piece with the number of its stream, `taken` all that
-- was received from `dataCh`.
pub record Assembly (F : Type 0) : Type 0 where
  pub state : SnifferState
  pub starter : Starter
  pub cancelled : Bool
  pub streams : ℕ → Stream F
  pub complete : ℕ → Bool
  pub capacity : ℕ
  pub queue : List (ℕ × Packet F)
  pub taken : List (ℕ × Packet F)
  pub handed : List (ℕ × Bytes)

-- The state in front of the loop of `Start`, with the size of `dataCh`.
abbrev pub new_assembly : {F : Type 0} → ℕ → Assembly F
new_assembly size = record {
  state = SnifferState.running;
  starter = between selecting;
  cancelled = false;
  streams = λ _. unopened;
  complete = λ _. false;
  capacity = size;
  queue = [];
  taken = [];
  handed = [];
}

-- `returns` tells when a call of the assembler is over, by the stream that it gave a piece to, and `reads`
-- whether the program still receives from `dataCh`. A captured packet that gives no stream a piece, and a
-- tick that flushes nothing, change nothing here.
pub data Step {F : Type 0} (returns : Stream F → Bool) (reads : Bool) (s : Assembly F)
    : Assembly F → Type 0 where
  -- `AssembleWithTimestamp`, `FlushWithOptions` or `FlushAll` gives stream `i` a piece.
  assemble :
      (k : Place) (i : ℕ) (net : F) (p : Bytes)
      → s.starter ≡ between k
      → s.complete i ≡ false
      → Step returns reads s (record s {
        starter = calling i k;
        streams = update s.streams i (given net p (s.streams i));
        handed = s.handed ++ ((i, p) ∷ []);
      })
  assembled :
      (k : Place) (i : ℕ)
      → s.starter ≡ calling i k
      → returns (s.streams i) ≡ true
      → Step returns reads s (record s { starter = between k })
  end_stream :
      (k : Place) (i : ℕ)
      → s.starter ≡ between k
      → Step returns reads s (record s {
        streams = update s.streams i (completed (s.streams i));
        complete = update s.complete i true;
      })
  -- `Stop`, or the end of the context that `Start` was given.
  cancel : Step returns reads s (record s { cancelled = true })
  -- The other cases of the `select`: the context is done, or the packets have ended.
  notice :
      s.starter ≡ between selecting
      → s.cancelled ≡ true
      → Step returns reads s (record s { starter = between flushing; state = SnifferState.stopped })
  flushed : s.starter ≡ between flushing → Step returns reads s (record s { starter = over })
  file_end :
      s.starter ≡ between selecting
      → Step returns reads s (record s { starter = over; state = SnifferState.finished })
  -- A stream's goroutine: a packet into the channel or to a receiver that waits, or the end of `run`.
  send :
      (i : ℕ) {net : F} {now after : Reader} {p : Packet F}
      → s.streams i ≡ live net now
      → round net now ≡ sent p after
      → length s.queue < s.capacity
      → Step returns reads s (record s {
        streams = update s.streams i (live net after);
        queue = s.queue ++ ((i, p) ∷ []);
      })
  hand_over :
      (i : ℕ) {net : F} {now after : Reader} {p : Packet F}
      → s.streams i ≡ live net now
      → round net now ≡ sent p after
      → reads ≡ true
      → s.queue ≡ []
      → Step returns reads s (record s {
        streams = update s.streams i (live net after);
        taken = s.taken ++ ((i, p) ∷ []);
      })
  leave :
      (i : ℕ) {net : F} {now : Reader} {e : Error}
      → s.streams i ≡ live net now
      → round net now ≡ stopped e
      → is_wait e ≡ false
      → Step returns reads s (record s { streams = update s.streams i (left net e []) })
  receive :
      {x : ℕ × Packet F} {xs : List (ℕ × Packet F)}
      → reads ≡ true
      → s.queue ≡ x ∷ xs
      → Step returns reads s (record s { queue = xs; taken = s.taken ++ (x ∷ []) })

-- Any number of steps.
pub data Steps {F : Type 0} (returns : Stream F → Bool) (reads : Bool) (s : Assembly F)
    : Assembly F → Type 0 where
  here : Steps returns reads s s
  then_step :
      {t u : Assembly F}
      → Steps returns reads s t
      → Step returns reads t u
      → Steps returns reads s u

pub Steps-join :
    {F : Type 0} {returns : Stream F → Bool} {reads : Bool} {s t u : Assembly F}
    → Steps returns reads s t
    → Steps returns reads t u
    → Steps returns reads s u
Steps-join a here = a
Steps-join a (then_step b st) = then_step (Steps-join a b) st
