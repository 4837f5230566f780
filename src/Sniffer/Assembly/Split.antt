-- ===== src/Sniffer/Assembly/Split.antt =====
-- What becomes of `Start` when a frame does not come in one piece.
use zanarkand.Prelude.{ℕ, ◌≡◌, Bool, false, List, ◌∷◌, length}
use zanarkand.Prelude.Bytes.{Bytes}
use zanarkand.Error.{Error, text, less_read}
use zanarkand.Reassembler.Reading.{announced}
use zanarkand.Sniffer.Assembly.{Stream, left, Assembly}

-- Every byte that a stream is given after its goroutine has returned stays unread, and tcpassembly documents
-- that a call is not over before all is read.
abbrev pub NeedsReader : {F : Type 0} → (Stream F → Bool) → Type 0
NeedsReader {F} returns =
    (net : F) (e : Error) (ps : List Bytes) (c : ℕ) (p : Bytes)
    → returns (left net e ((c ∷ p) ∷ ps)) ≡ false

-- How `run` reports it.
abbrev why : Bytes → Error
why p = text (less_read (length p) (announced p))

-- The stream's goroutine has returned with that, and these pieces stay unread.
abbrev pub given_up : {F : Type 0} → F → Bytes → List Bytes → Stream F
given_up net p unread = left net (why p) unread
