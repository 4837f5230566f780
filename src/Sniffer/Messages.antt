-- ===== src/Sniffer/Messages.antt =====
-- `ProcessFrames` on the messages of a frame, for a handler that keeps its side of the contract.
use zanarkand.Prelude.{
  subst, ℕ, ◌+◌, ◌≤◌, ◌≡◌, refl, sym, ◌∙◌, List, [], ◌∷◌, ◌++◌, length, All, append_assoc, arith,
}
use zanarkand.Prelude.Bytes.{Bytes}
use zanarkand.Io.{Reader, size}
use zanarkand.Io.View.{stream}
use zanarkand.Error.{ok}
use zanarkand.Message.{GenericHeader}
use zanarkand.Message.Wire.{encode_header, HeaderFits, decode_header-encode}
use zanarkand.Frame.{Frame}
use zanarkand.Sniffer.{FrameHandler, process_messages}

-- A message as it stands in a frame: its header, and the bytes behind it that the header counts.
pub record Segment : Type 0 where
  pub header : GenericHeader
  pub payload : Bytes

pub record SegmentFits (n : ℕ) (g : Segment) : Type 0 where
  pub header_fits : HeaderFits g.header
  pub length_is : g.header.length ≡ 16 + length g.payload
  pub in_buffer : length g.payload ≤ n

abbrev pub encode_segments : List Segment → Bytes
encode_segments [] = []
encode_segments (g ∷ gs) = encode_header g.header ++ (g.payload ++ encode_segments gs)

abbrev pub fold_segments : {S : Type 0} → (S → Segment → S) → S → List Segment → S
fold_segments step s [] = s
fold_segments step s (g ∷ gs) = fold_segments step (step s g) gs

-- The contract: called behind a header, the handler takes exactly the payload off the reader, and
-- changes its state by `step`.
abbrev pub Takes : {F S : Type 0} → FrameHandler F S → Frame F → (S → Segment → S) → Type 0
Takes {S = S} fn f step =
    (s : S) (g : Segment) (rest : Bytes) (r : Reader)
    → SegmentFits (size r) g
    → stream r ≡ g.payload ++ rest
    → (r' : Reader) × (fn s f g.header r ≡ (step s g, ok r'))
      × (stream r' ≡ rest)
      × (size r' ≡ size r)

regroup : (a b c d : Bytes) → (a ++ (b ++ c)) ++ d ≡ a ++ (b ++ (c ++ d))
regroup a b c d = simp append_assoc

module _ {F S : Type 0} (fn : FrameHandler F S) (f : Frame F) (step : S → Segment → S) where
  -- Where the handler keeps the contract, each payload fits the buffer, and the buffer has at
  -- least 16 bytes, the loop hands it every message of the frame once, in order, and leaves the
  -- reader behind the last one.
  pub process_messages-encode :
      (gs : List Segment) (s : S) (rest : Bytes) (r : Reader)
      → Takes fn f step
      → 16 ≤ size r
      → All (SegmentFits (size r)) gs
      → stream r ≡ encode_segments gs ++ rest
      → (r' : Reader) × (process_messages fn f (length gs) s r ≡ (fold_segments step s gs, ok r'))
        × (stream r' ≡ rest)
  unfolding process_messages
  process_messages-encode [] s rest r takes hs fits e = (r, refl, e)
  process_messages-encode (g ∷ gs) s rest r takes hs (fit, fits) e =
      let (a, d, after, same) =
        decode_header-encode g.header (g.payload ++ (encode_segments gs ++ rest)) r fit.header_fits
          hs (e ∙ regroup (encode_header g.header) g.payload (encode_segments gs) rest) in
      let (b, c, left, kept) =
        takes s g (encode_segments gs ++ rest) a (subst (λ k. SegmentFits k g) (sym same) fit)
          after in
      let (t, p, end) =
        process_messages-encode gs (step s g) rest b takes (omega (arith, same, kept))
          (subst (λ k. All (SegmentFits k) gs) (sym (kept ∙ same)) fits) left in
      (t, rw d (rw c p), end)
