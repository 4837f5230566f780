-- ===== src/Sniffer/Handover.antt =====
-- `NextFrame` on every packet that the reassembler sends.
use zanarkand.Prelude.{
  ℕ, ◌≤◌, ◌<◌, ◌≡◌, ◌⊎◌, inl, inr, refl, ap, ◌∙◌, true, List, [], ◌∷◌, ◌++◌, append-nil, ==_iff,
  length, drop, length-drop, take_all, ◌-◌, All, arith,
}
use zanarkand.Prelude.Int.{pos}
use zanarkand.Prelude.Bytes.{Bytes, slice}
use zanarkand.Io.{Reader, size}
use zanarkand.Error.{not_enough_data, no_error, ok, err}
use zanarkand.Frame.{Frame, zero_frame, set_fields}
use zanarkand.Frame.Wire.{decode_frame_lem}
use zanarkand.Reassembler.{Packet, run}
use zanarkand.Reassembler.Reading.{announced}
use zanarkand.Reassembler.Faults.{IsCut, run-IsCut}
use zanarkand.Reassembler.Streams.{System, Reach}
use zanarkand.Reassembler.Streams.Bounds.{IsCutAlone, Reach-IsBounded}
use zanarkand.Sniffer.{packet, next_frame, pick_frame, check_length}

-- What `NextFrame` makes of a packet: an error for one below 40 bytes, and else a frame of the packet's
-- length and flow, with all behind the header as its body.
abbrev pub Handed : {F : Type 0} → F → Packet F → Type 0
Handed {F} z p =
    ((length p.body < 40)
      × (next_frame z true (packet p) ≡ err (not_enough_data (pos 40) (length p.body) no_error)))
    ⊎ ((40 ≤ length p.body)
        × ((f : Frame F) × (next_frame z true (packet p) ≡ ok f)
            × (f.length ≡ length p.body)
            × (f.body ≡ drop 40 p.body)
            × (f.flow ≡ p.flow)))

cut-Handed : {F : Type 0} (z : F) (p : Packet F) → IsCut p.flow p → Handed z p
unfolding next_frame pick_frame check_length set_fields
cut-Handed {F} z p c = elim (decode_frame_lem (zero_frame z) p.body []) [
  | inl (short, d) ↦ inl (short, rw d)
  | inr (inl (long, inl low, d)) ↦ absurd (omega (arith, exact p c long))
  | inr (inl (long, inr high, d)) ↦ absurd (omega (arith, exact p c long))
  | inr (inr (a, d)) ↦
      let n : announced p.body ≡ length p.body = exact p c a.has_header in
      inr (
        a.has_header,
        (
          record (set_fields (zero_frame z) p.body) {
            body = slice 40 (announced p.body) (p.body ++ []);
            flow = p.flow;
          },
          rw d (rw ((==_iff (announced p.body) (length p.body)).1 n)),
          n,
          whole p.body n,
          refl,
        ),
      )
]
  where
    exact : (p : Packet F) → IsCut p.flow p → 40 ≤ length p.body → announced p.body ≡ length p.body
    exact p (inl short, e) long = absurd (omega arith)
    exact p (inr n, e) long = n

    whole : (s : Bytes) → announced s ≡ length s → slice 40 (announced s) (s ++ []) ≡ drop 40 s
    whole s n =
        ap (λ (x : Bytes). slice 40 (announced s) x) (append-nil s)
        ∙ take_all (announced s - 40) (drop 40 s) (omega (arith, length-drop 40 s))

-- Whatever bytes a stream gives, and however many rounds are made, `NextFrame` never panics on a packet
-- that the reassembler sends, over a buffer of at least 40 bytes, once `Start` has set the context. A
-- packet below 40 bytes is an error, and any other is a frame of the packet's length and flow, with all
-- behind its header as its body.
run-Handed :
    {F : Type 0} (z net : F) (fuel : ℕ) (r : Reader)
    → 40 ≤ size r
    → All (Handed z) (run net fuel r).packets
run-Handed {F} z net fuel r hs = each (run net fuel r).packets (run-IsCut net fuel r hs)
  where
    each : (ps : List (Packet F)) → All (IsCut net) ps → All (Handed z) ps
    each [] h = tt
    each (p ∷ ps) (h, t) = (cut-Handed z p (h.0, refl), each ps t)

-- However the streams and the receivers interleave, `NextFrame` never panics on a packet that it has
-- received, once `Start` has set the context: it is an error below 40 bytes, and else a frame of the
-- packet's length and flow, with all behind its header as its body.
pub Reach-Handed :
    {F : Type 0} (z : F) {data_size err_size : ℕ} {s : System F}
    → Reach data_size err_size s
    → All (λ (x : ℕ × Packet F). Handed z x.1) s.received
Reach-Handed {F} z {s = s} r = each s.received (Reach-IsBounded r).cut_received
  where
    each :
        (xs : List (ℕ × Packet F)) → All IsCutAlone xs → All (λ (x : ℕ × Packet F). Handed z x.1) xs
    each [] h = tt
    each (x ∷ xs) (h, t) = (cut-Handed z x.1 h, each xs t)
