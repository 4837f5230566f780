-- ===== src/Reassembler/Pieces.antt =====
-- A stream whose pieces hold whole frames is cut into exactly its frames.
use zanarkand.Reassembler.Buffered.{round_buffered, round_piece}
use zanarkand.Prelude.{
  ℕ, zero, suc, ◌≤◌, ◌<◌, ◌≡◌, ◌≢◌, refl, sym, ap, ◌∙◌, List, [], ◌∷◌, ◌++◌, map, length, drop,
  length-append, drop-append_eq, length-drop, subst, All, arith,
}
use mathlib.Core.Path.{ap₂}
use zanarkand.Prelude.Bytes.{Bytes}
use zanarkand.Io.{IoError, Reader, new_reader, size, slide, discard}
use zanarkand.Io.View.{flat, stream, slide-Same}
use zanarkand.Io.Fill.{with_piece, size-new}
use zanarkand.Io.Peek.{size-discard}
use zanarkand.Frame.Wire.{Wire, encode_frame, length-encode_frame}
use zanarkand.Error.{io, wrapped, syncing}
use zanarkand.Reassembler.{sent, stopped, round, run, add_packet, after_round, Run}
use zanarkand.Reassembler.Reading.{IsFrame, frame-IsSynced}
use zanarkand.Reassembler.Rounds.{round_ends}
use zanarkand.Reassembler.Delivery.{packet_of, delivers}

abbrev pub encode_frames : List Wire → Bytes
encode_frames [] = []
encode_frames (w ∷ ws) = encode_frame w ++ encode_frames ws

abbrev pub all_frames : List (List Wire) → List Wire
all_frames [] = []
all_frames (ws ∷ pieces) = ws ++ all_frames pieces

-- A piece that the assembler gives: whole frames, at least one, that fit the buffer.
abbrev pub IsPiece : ℕ → List Wire → Type 0
IsPiece n ws = (ws ≢ []) × (length (encode_frames ws) ≤ n) × All IsFrame ws

-- `r` has the frames `ws` in its buffer, and `pieces` below it.
pub record Holds (r : Reader) (ws : List Wire) (pieces : List (List Wire)) : Type 0 where
  pub buffered : r.buf ≡ encode_frames ws
  pub below : r.rd ≡ map encode_frames pieces
  pub frames : All IsFrame ws
  pub are_pieces : All (IsPiece (size r)) pieces
  pub room : 40 ≤ size r

pub Holds-next :
    {r : Reader} {w : Wire} {ws : List Wire} {pieces : List (List Wire)}
    → Holds r (w ∷ ws) pieces
    → Holds (discard (length (encode_frame w)) r) ws pieces
Holds-next {r} {w} {ws} {pieces} h =
    let n : ℕ = length (encode_frame w) in
    let same : size (discard n r) ≡ size r = size-discard n r in
    record {
      buffered = ap (drop n) h.buffered ∙ drop-append_eq n (encode_frame w) (encode_frames ws) refl;
      below = h.below;
      frames = h.frames.1;
      are_pieces = subst (λ k. All (IsPiece k) pieces) (sym same) h.are_pieces;
      room = omega (arith, same);
    }

pub Holds-piece :
    {r : Reader} {w : Wire} {ws : List Wire} {pieces : List (List Wire)}
    → Holds r [] ((w ∷ ws) ∷ pieces)
    → Holds
        (with_piece (encode_frames (w ∷ ws)) (map encode_frames pieces) (slide r))
        (w ∷ ws)
        pieces
Holds-piece {r} {w} {ws} {pieces} h =
    let c : Bytes = encode_frames (w ∷ ws) in
    let same : size (with_piece c (map encode_frames pieces) (slide r)) ≡ size r = omega (
      arith,
      (slide-Same r).same_size,
      ap length h.buffered,
      length-drop (length c) (slide r).stale,
      h.are_pieces.0.1,
    ) in
    record {
      buffered = refl;
      below = refl;
      frames = h.are_pieces.0.2;
      are_pieces = subst (λ k. All (IsPiece k) pieces) (sym same) h.are_pieces.1;
      room = omega (arith, same, h.room);
    }

run_front :
    {F : Type 0} (net : F) (fuel : ℕ) (r : Reader) (w : Wire) (ws : List Wire)
    (pieces : List (List Wire)) {x : Run F}
    → Holds r (w ∷ ws) pieces
    → run net fuel (discard (length (encode_frame w)) r) ≡ x
    → run net (suc fuel) r ≡ add_packet (packet_of net w) x
unfolding run after_round
run_front net fuel r w ws pieces h e =
    rw (round_buffered net r w (encode_frames ws) h.frames.0 h.room h.buffered)
      (ap (add_packet (packet_of net w)) e)

-- With nothing left the round ends in the search, with the error of the reader below.
pub round_gone :
    {F : Type 0} (net : F) (r : Reader)
    → Holds r [] []
    → round net r ≡ stopped (wrapped syncing (io r.rd_err))
round_gone net r h =
    let gone : stream r ≡ [] =
      ap₂ (λ (b : Bytes) (x : List Bytes). b ++ flat x) h.buffered h.below in
    round_ends net r (omega (arith, h.room))
      (λ j k. omega (arith, length-drop j (stream r), ap length gone, k.0))

run_end :
    {F : Type 0} (net : F) (fuel : ℕ) (r : Reader)
    → Holds r [] []
    → run net (suc fuel) r ≡ delivers net [] r.rd_err
unfolding run after_round
run_end net fuel r h = rw (round_gone net r h)

run-Holds :
    {F : Type 0} (net : F) (fuel : ℕ) (r : Reader) (ws : List Wire) (pieces : List (List Wire))
    → Holds r ws pieces
    → length (ws ++ all_frames pieces) < fuel
    → run net fuel r ≡ delivers net (ws ++ all_frames pieces) r.rd_err
unfolding run after_round add_packet
run-Holds net zero r ws pieces h k = elim k [ ]
run-Holds net (suc fuel) r (w ∷ ws) pieces h k = run_front net fuel r w ws pieces h (
    run-Holds net fuel (discard (length (encode_frame w)) r) ws pieces (Holds-next h) (omega arith))
run-Holds net (suc fuel) r [] [] h k = run_end net fuel r h
run-Holds net (suc fuel) r [] ([] ∷ pieces) h k = absurd (h.are_pieces.0.0 refl)
run-Holds net (suc fuel) r [] ((w ∷ ws) ∷ pieces) h k =
    let c : Bytes = encode_frames (w ∷ ws) in
    let t : Reader = with_piece c (map encode_frames pieces) (slide r) in
    let g : Holds t (w ∷ ws) pieces = Holds-piece h in
    ap (after_round (run net fuel)) (
      round_piece net r c (map encode_frames pieces) h.buffered h.below
        (omega (arith, length-append (encode_frame w) (encode_frames ws), length-encode_frame w))
        h.are_pieces.0.1 (frame-IsSynced w (encode_frames ws) g.frames.0))
    ∙ run_front net fuel t w ws pieces g (
        run-Holds net fuel (discard (length (encode_frame w)) t) ws pieces (Holds-next g)
          (omega (arith, length-append ws (all_frames pieces))))

-- Over a stream whose pieces, as the assembler gives them, hold whole frames and fit the buffer of `n`
-- bytes, at least 40, `run` sends exactly the frames of all pieces, in their order and each with the flow
-- of its stream, and then ends with the error of the reader below. A round for each frame and one more
-- are enough.
pub run-delivers_pieces :
    {F : Type 0} (net : F) (n : ℕ) (pieces : List (List Wire)) (e : IoError) (fuel : ℕ)
    → 40 ≤ n
    → All (IsPiece n) pieces
    → length (all_frames pieces) < fuel
    → run net fuel (new_reader n (map encode_frames pieces) e) ≡ delivers net (all_frames pieces) e
run-delivers_pieces net n pieces e fuel hs are k =
    let same : size (new_reader n (map encode_frames pieces) e) ≡ n =
      size-new n (map encode_frames pieces) e in
    run-Holds net fuel (new_reader n (map encode_frames pieces) e) [] pieces
      (record {
        buffered = refl;
        below = refl;
        frames = tt;
        are_pieces = subst (λ m. All (IsPiece m) pieces) (sym same) are;
        room = omega (arith, same);
      })
      k

-- The first round of such a stream.
pub round_first :
    {F : Type 0} (net : F) (n : ℕ) (w : Wire) (ws : List Wire) (cs : List Bytes) (e : IoError)
    → 40 ≤ n
    → IsPiece n (w ∷ ws)
    → (after : Reader) × (round net (new_reader n (encode_frames (w ∷ ws) ∷ cs) e)
        ≡ sent (packet_of net w) after)
      × (after.rd ≡ cs)
round_first net n w ws cs e hs is =
    let c : Bytes = encode_frames (w ∷ ws) in
    let r : Reader = new_reader n (c ∷ cs) e in
    let t : Reader = with_piece c cs (slide r) in
    let same : size r ≡ n = size-new n (c ∷ cs) e in
    let room : size t ≡ size r =
      omega (arith, (slide-Same r).same_size, length-drop (length c) (slide r).stale, is.1, same) in
    (
      discard (length (encode_frame w)) t,
      round_piece net r c cs refl refl
            (omega
              (arith, length-append (encode_frame w) (encode_frames ws), length-encode_frame w))
            (omega (arith, same, is.1)) (frame-IsSynced w (encode_frames ws) is.2.0)
          ∙ round_buffered net t w (encode_frames ws) is.2.0 (omega (arith, room, same)) refl,
      refl,
    )
