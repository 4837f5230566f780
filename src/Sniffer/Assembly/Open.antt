-- ===== src/Sniffer/Assembly/Open.antt =====
-- A stream that can be given a piece.
use zanarkand.Prelude.{◌≡◌, refl, sym, ap, subst, List, [], ◌∷◌, ◌++◌, arith}
use zanarkand.Prelude.Bytes.{Bytes}
use zanarkand.Io.{Reader, new_reader, size}
use zanarkand.Io.Fill.{size-new}
use zanarkand.Frame.Wire.{Wire}
use zanarkand.Reassembler.{reader_size}
use zanarkand.Reassembler.Pieces.{encode_frames, IsPiece}
use zanarkand.Sniffer.Assembly.{Stream, unopened, live, would_block, given}
use zanarkand.Sniffer.Assembly.Sending.{Ready}

-- A stream can be given a piece where it is new, or its goroutine has read all and waits.
pub data IsOpen {F : Type 0} (net : F) : Stream F → Type 0 where
  new : IsOpen net unopened
  waiting : {r : Reader} → Ready r [] [] → IsOpen net (live net r)

-- What the stream then is with the piece.
pub given_live :
    {F : Type 0} (net : F) (ws : List Wire) {x : Stream F}
    → IsOpen net x
    → IsPiece reader_size ws
    → (r : Reader) × (given net (encode_frames ws) x ≡ live net r) × Ready r [] (ws ∷ [])
given_live net ws new h =
    let c : Bytes = encode_frames ws in
    let same : size (new_reader reader_size (c ∷ []) would_block) ≡ reader_size =
      size-new reader_size (c ∷ []) would_block in
    (
      new_reader reader_size (c ∷ []) would_block,
      refl,
      record {
        holds = record {
          buffered = refl;
          below = refl;
          frames = tt;
          are_pieces = (subst (λ n. IsPiece n ws) (sym same) h, tt);
          room = omega (arith, same);
        };
        waits = refl;
        sized = same;
      },
    )
given_live net ws (waiting {r} a) h = (
  record r { rd = r.rd ++ (encode_frames ws ∷ []) },
  refl,
  record {
    holds = record {
      buffered = a.holds.buffered;
      below = ap (λ (x : List Bytes). x ++ (encode_frames ws ∷ [])) a.holds.below;
      frames = tt;
      are_pieces = (subst (λ n. IsPiece n ws) (sym a.sized) h, tt);
      room = a.holds.room;
    };
    waits = a.waits;
    sized = a.sized;
  },
)
