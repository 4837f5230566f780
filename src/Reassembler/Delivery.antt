-- ===== src/Reassembler/Delivery.antt =====
-- A stream that is buffered whole is cut into exactly its frames.
use zanarkand.Prelude.{
  ℕ, zero, suc, ◌≤◌, ◌<◌, ◌≡◌, refl, ap, ◌∙◌, List, [], ◌∷◌, ◌++◌, some, length, map, drop, subst,
  arith,
}
use zanarkand.Prelude.Bytes.{Bytes}
use zanarkand.Io.{IoError, Reader, size}
use zanarkand.Io.View.{stream}
use zanarkand.Error.{io, wrapped, syncing}
use zanarkand.Frame.Sync.{IsSynced}
use zanarkand.Frame.Wire.{Wire, encode_frame}
use zanarkand.Reassembler.{Packet, Run, run, add_packet, after_round}
use zanarkand.Reassembler.Reading.{Quiet, IsFrame}
use zanarkand.Reassembler.Rounds.{round_sends, round_ends}

-- `s` holds the frames `ws` in this order, with any bytes before, between and behind them in which no
-- frame may start.
pub data Carries : Bytes → List Wire → Type 0 where
  nothing : {s : Bytes} → ((j : ℕ) → ¬ IsSynced (drop j s)) → Carries s []
  frame :
      {s rest : Bytes} {w : Wire} {ws : List Wire} (junk : Bytes)
      → s ≡ junk ++ (encode_frame w ++ rest)
      → Quiet junk (encode_frame w ++ rest)
      → IsFrame w
      → Carries rest ws
      → Carries s (w ∷ ws)

abbrev pub packet_of : {F : Type 0} → F → Wire → Packet F
packet_of net w = record { body = encode_frame w; flow = net }

-- What `run` does on the frames `ws` when the reader below ends with `e`.
abbrev pub delivers : {F : Type 0} → F → List Wire → IoError → Run F
delivers net ws e = record {
  packets = map (packet_of net) ws;
  ended = some (wrapped syncing (io e));
}

run-delivers_from :
    {F : Type 0} (net : F) (ws : List Wire) (s : Bytes) (e : IoError) (fuel : ℕ) (r : Reader)
    → Carries s ws
    → stream r ≡ s
    → r.rd_err ≡ e
    → 40 ≤ size r
    → r.rd ≡ []
    → length ws < fuel
    → run net fuel r ≡ delivers net ws e
unfolding run add_packet after_round
run-delivers_from net ws s e zero r c es ee hs hr hf = absurd (omega arith)
run-delivers_from net [] s e (suc fuel) r (nothing n) es ee hs hr hf =
    rw
      (round_ends net r (omega arith)
        (λ j k. n j (subst (λ (x : Bytes). IsSynced (drop j x)) es k)))
      (ap (λ (x : IoError). delivers net [] x) ee)
run-delivers_from net (w ∷ ws) s e (suc fuel) r (frame {rest = rest} junk eq quiet h c) es ee hs hr
      hf =
    let (r', d, b) = round_sends net r junk rest w h hs hr (es ∙ eq) quiet in
    rw d (
      ap (add_packet (packet_of net w)) (
        run-delivers_from net ws rest e fuel r' c b.left (b.same_err ∙ ee)
          (omega (arith, b.same_size)) b.all_read (omega arith)))

-- Over a stream that is buffered whole, in a buffer of at least 40 bytes, `run` sends exactly the
-- frames of the stream, in their order and each with the flow of its stream, and then ends with the
-- error of the reader below. The bytes between frames may be any in which no frame may start. A
-- round for each frame and one more are enough.
run-delivers :
    {F : Type 0} (net : F) (ws : List Wire) (fuel : ℕ) (r : Reader)
    → Carries (stream r) ws
    → 40 ≤ size r
    → r.rd ≡ []
    → length ws < fuel
    → run net fuel r ≡ delivers net ws r.rd_err
run-delivers net ws fuel r c hs hr hf =
    run-delivers_from net ws (stream r) r.rd_err fuel r c refl refl hs hr hf
