-- ===== src/Reassembler/Streams.antt =====
-- reassembler.go: `frameStreamFactory.New`, which starts a goroutine for each TCP stream, and the
-- goroutines with the two channels that they share, interleaved in any order.
pub mod Order
pub mod Bounds
use zanarkand.Prelude.{
  ℕ, suc, ◌<◌, ◌≡◌, Option, none, some, List, [], ◌∷◌, ◌++◌, update, ◌==◌, if◌then◌else◌, length,
}
use zanarkand.Prelude.Bytes.{Bytes}
use zanarkand.Io.{IoError, Reader, new_reader}
use zanarkand.Error.{Error}
use zanarkand.Reassembler.{Packet, round, sent, stopped, reader_size, ErrorChannel, report_error}

-- `frameStream` as its goroutine goes on, or as `run` has left it. `first` is the reader at the start.
pub data Stream (F : Type 0) : Type 0 where
  unopened : Stream F
  live : (net : F) (first now : Reader) → Stream F
  left : (net : F) (first : Reader) (reason : Error) → Stream F

-- `dataCh` and `errCh` with the goroutines that send on them, and what has been received from `dataCh`.
-- A packet goes with the number of its stream, which the code does not send.
pub record System (F : Type 0) : Type 0 where
  pub streams : ℕ → Stream F
  pub opened : ℕ
  pub capacity : ℕ
  pub queue : List (ℕ × Packet F)
  pub received : List (ℕ × Packet F)
  pub errors : Option ErrorChannel

-- The state that `NewSniffer` makes, with the sizes of its channels.
abbrev pub initial : {F : Type 0} → ℕ → ℕ → System F
initial data_size err_size = record {
  streams = λ _. unopened;
  opened = 0;
  capacity = data_size;
  queue = [];
  received = [];
  errors = some (record { capacity = err_size; queue = [] });
}

-- All that has been sent on `dataCh`.
abbrev pub history : {F : Type 0} → System F → List (ℕ × Packet F)
history s = s.received ++ s.queue

-- `New` starts a stream, whose pieces the assembler gives in this order. A stream sends where `dataCh` has
-- room, or hands its packet to a receiver that waits; it is left with an error; the head of `dataCh` or
-- of `errCh` is received.
pub data Step {F : Type 0} (s : System F) : System F → Type 0 where
  open_stream :
      (net : F) (pieces : List Bytes) (e : IoError)
      → Step s (record s {
        streams =
            update s.streams s.opened
              (live net (new_reader reader_size pieces e) (new_reader reader_size pieces e));
        opened = suc s.opened;
      })
  send :
      (i : ℕ) {net : F} {first now after : Reader} {p : Packet F}
      → s.streams i ≡ live net first now
      → round net now ≡ sent p after
      → length s.queue < s.capacity
      → Step s (record s {
        streams = update s.streams i (live net first after);
        queue = s.queue ++ ((i, p) ∷ []);
      })
  hand_over :
      (i : ℕ) {net : F} {first now after : Reader} {p : Packet F}
      → s.streams i ≡ live net first now
      → round net now ≡ sent p after
      → s.queue ≡ []
      → Step s (record s {
        streams = update s.streams i (live net first after);
        received = s.received ++ ((i, p) ∷ []);
      })
  leave :
      (i : ℕ) {net : F} {first now : Reader} {e : Error}
      → s.streams i ≡ live net first now
      → round net now ≡ stopped e
      → Step s (record s {
        streams = update s.streams i (left net first e);
        errors = report_error s.errors e;
      })
  receive :
      {x : ℕ × Packet F} {xs : List (ℕ × Packet F)}
      → s.queue ≡ x ∷ xs
      → Step s (record s { queue = xs; received = s.received ++ (x ∷ []) })
  receive_error :
      {c : ErrorChannel} {e : Error} {es : List Error}
      → s.errors ≡ some c
      → c.queue ≡ e ∷ es
      → Step s (record s { errors = some (record c { queue = es }) })

pub data Reach {F : Type 0} (data_size err_size : ℕ) : System F → Type 0 where
  start : Reach data_size err_size (initial data_size err_size)
  next : {s t : System F} → Reach data_size err_size s → Step s t → Reach data_size err_size t

-- The packets of one stream.
abbrev pub of_stream : {A : Type 0} → ℕ → List (ℕ × A) → List A
of_stream i [] = []
of_stream i ((j, a) ∷ xs) = if j == i then a ∷ of_stream i xs else of_stream i xs
