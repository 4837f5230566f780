-- ===== src/Frame/Json.antt =====
-- `Frame.MarshalJSON` on a decoded frame.
use zanarkand.Prelude.{ℕ, ◌*◌, ◌/◌, ◌%◌, ◌^◌, ◌<◌, ◌≡◌, arith, ltb-true, map_same}
use zanarkand.Prelude.Int.{pos}
use zanarkand.Frame.{Frame, frame_json, time_of}
use zanarkand.Frame.Wire.{Wire, frame_of}

small_time : (ms : ℕ) → ms < 2 ^ 31 * 1000 → time_of ms ≡ pos (ms * 1_000_000)
small_time ms h =
    let e : ms * 1_000_000 % 2 ^ 64 ≡ ms * 1_000_000 = omega arith in
    rw e (rw (ltb-true (ms * 1_000_000) (2 ^ 63) (omega arith)))

-- A decoded frame whose time is before 2 ^ 31 seconds, in 2038, is marshalled with its time in whole
-- seconds, and with the bytes of its body.
frame_json-frame_of :
    {F : Type 0} (f : Frame F) (w : Wire)
    → w.ms < 2 ^ 31 * 1000
    → ((frame_json (frame_of f w)).unix_seconds ≡ pos (w.ms / 1000))
      × ((frame_json (frame_of f w)).data_ints ≡ w.body)
unfolding frame_json
frame_json-frame_of f w h =
    let e : w.ms * 1_000_000 / 1_000_000_000 ≡ w.ms / 1000 = omega arith in
    let k : w.ms / 1000 % 2 ^ 32 ≡ w.ms / 1000 = omega arith in
    (
      rw (small_time w.ms h) (rw e (rw k (rw (ltb-true (w.ms / 1000) (2 ^ 31) (omega arith))))),
      map_same w.body,
    )
