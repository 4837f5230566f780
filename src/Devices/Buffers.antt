-- ===== src/Devices/Buffers.antt =====
-- devices/afpacket.go
use zanarkand.Prelude.{
  ◌⊎◌, ℕ, ◌+◌, ◌*◌, ◌/◌, ◌^◌, ◌≤◌, ◌<◌, ◌≡◌, refl, ap, ltb-true, ltb-false, if◌then◌else◌, arith,
  inl, inr, le_or_lt, eq_zero_false, zero_or_pos,
}
use zanarkand.Prelude.Int.{ℤ, pos}
use native.Mathlib.Nat.{lt-div-mul-add, le-div_iff_mul-le, div-mul-le_self, div-le_self}
use zanarkand.Error.{buffer_too_small, text, Outcome, ok, err, ◌>>=◌}
use zanarkand.Devices.Ints.{
  add_int, mul_int, div_int, lt_int, is_zero, add_int_pos, mul_int_pos, div_int_pos,
}

pub record Buffers : Type 0 where
  pub frame_size : ℤ
  pub block_size : ℤ
  pub block_count : ℤ

frame_size_of : ℤ → ℤ → Outcome ℤ
frame_size_of snaplen page =
    if lt_int snaplen page
    then (do k ← div_int page snaplen; div_int page k)
    else (do k ← div_int snaplen page; ok (mul_int (add_int k (pos 1)) page))

buffers_of : ℤ → ℤ → Outcome Buffers
buffers_of target frame = do
  count ← div_int (mul_int (mul_int target (pos 1024)) (pos 1024)) (mul_int frame (pos 128))
  if is_zero count
      then err (text buffer_too_small)
      else ok
          (record { frame_size = frame; block_size = mul_int frame (pos 128); block_count = count })

-- `afpacketCalculateBuffers`
pub calculate_buffers : ℤ → ℤ → ℤ → Outcome Buffers
calculate_buffers target snaplen page = do
  frame ← frame_size_of snaplen page
  buffers_of target frame

-- The size of a frame that holds a capture: where as many captures as possible share a page, its even part,
-- and else the least number of whole pages that is more than a capture.
pub data IsFrameSize (snaplen page f : ℕ) : Type 0 where
  shared_page :
      (k : ℕ)
      → snaplen < page
      → k * snaplen ≤ page
      → page < (k + 1) * snaplen
      → f * k ≤ page
      → page < (f + 1) * k
      → IsFrameSize snaplen page f
  whole_pages :
      (n : ℕ)
      → page ≤ snaplen
      → f ≡ n * page
      → snaplen < f
      → f ≤ snaplen + page
      → IsFrameSize snaplen page f

-- The frame size, with its bounds.
record HasFrame (snaplen page : ℕ) : Type 0 where
  frame : ℕ
  computed : frame_size_of (pos snaplen) (pos page) ≡ ok (pos frame)
  is_size : IsFrameSize snaplen page frame
  holds : snaplen ≤ frame
  at_most : frame ≤ snaplen + page

module _ (snaplen page : ℕ) (hs : 0 < snaplen) (hp : 0 < page) where
  small_frame : snaplen < page → HasFrame snaplen page
  unfolding frame_size_of lt_int
  small_frame h =
      let k : ℕ = page / snaplen in
      let some_fit : 0 < k = (le-div_iff_mul-le hs).1 (omega arith) in
      let f : ℕ = page / k in
      let holds : snaplen ≤ f =
        (le-div_iff_mul-le some_fit).1 (omega (arith, div-mul-le_self page snaplen)) in
      record {
        frame = f;
        computed =
            rw (ltb-true snaplen page h)
              (rw (div_int_pos page snaplen hs) (div_int_pos page k some_fit));
        is_size =
            shared_page k h (div-mul-le_self page snaplen)
              (omega (arith, lt-div-mul-add {a = page} hs)) (div-mul-le_self page k)
              (omega (arith, lt-div-mul-add {a = page} some_fit));
        holds = holds;
        at_most = omega (arith, div-le_self page k);
      }

  large_frame : page ≤ snaplen → (snaplen + page) * 128 < 2 ^ 63 → HasFrame snaplen page
  unfolding frame_size_of lt_int
  large_frame h fits =
      let k : ℕ = snaplen / page in
      let below : k ≤ snaplen = div-le_self snaplen page in
      let more : snaplen < (k + 1) * page = omega (arith, lt-div-mul-add {a = snaplen} hp) in
      let at_most : (k + 1) * page ≤ snaplen + page = omega (arith, div-mul-le_self snaplen page) in
      record {
        frame = (k + 1) * page;
        computed = rw (ltb-false snaplen page h) (
            rw (div_int_pos snaplen page hp) (
              rw (add_int_pos k 1 (omega arith)) (
                ap ok (
                  mul_int_pos (k + 1) page (omega arith) (omega arith) (omega (arith, at_most))))));
        is_size = whole_pages (k + 1) h refl more at_most;
        holds = omega (arith, more);
        at_most = at_most;
      }

  has_frame : (snaplen + page) * 128 < 2 ^ 63 → HasFrame snaplen page
  has_frame fits = elim (le_or_lt page snaplen) [
    | inl h ↦ large_frame h fits
    | inr h ↦ small_frame h
  ]

-- What is asked of the buffers for `target` megabytes and captures of `snaplen` bytes.
pub record Suits (target snaplen page : ℕ) (b : Buffers) : Type 0 where
  pub frame : ℕ
  pub blocks : ℕ
  pub frame_is : b.frame_size ≡ pos frame
  pub block_is : b.block_size ≡ pos (frame * 128)
  pub count_is : b.block_count ≡ pos blocks
  pub is_size : IsFrameSize snaplen page frame
  pub holds_capture : snaplen ≤ frame
  pub some_blocks : 0 < blocks
  pub within : blocks * (frame * 128) ≤ target * 1024 * 1024
  pub close : target * 1024 * 1024 < (blocks + 1) * (frame * 128)

-- The target does not hold one block of 128 frames.
pub record TooSmall (target snaplen page : ℕ) : Type 0 where
  pub frame : ℕ
  pub is_size : IsFrameSize snaplen page frame
  pub below : target * 1024 * 1024 < frame * 128

-- What becomes of a calculation.
abbrev pub Calculated : ℕ → ℕ → ℕ → Outcome Buffers → Type 0
Calculated target snaplen page o =
    ((b : Buffers) × (o ≡ ok b) × Suits target snaplen page b)
    ⊎ ((o ≡ err (text buffer_too_small)) × TooSmall target snaplen page)

module _ (target f : ℕ) (some : 0 < f) (fits : f * 128 < 2 ^ 63)
    (in_int : target * 1024 * 1024 < 2 ^ 63) where
  asked : mul_int (mul_int (pos target) (pos 1024)) (pos 1024) ≡ pos (target * 1024 * 1024)
  asked =
      rw (mul_int_pos target 1024 (omega arith) (omega arith) (omega arith))
        (mul_int_pos (target * 1024) 1024 (omega arith) (omega arith) (omega arith))

  block : mul_int (pos f) (pos 128) ≡ pos (f * 128)
  block = mul_int_pos f 128 (omega arith) (omega arith) fits

  refused :
      target * 1024 * 1024 / (f * 128) ≡ 0
      → buffers_of (pos target) (pos f) ≡ err (text buffer_too_small)
  unfolding buffers_of is_zero
  refused e =
      rw asked
        (rw block (rw (div_int_pos (target * 1024 * 1024) (f * 128) (omega arith)) (rw e refl)))

  made :
      0 < target * 1024 * 1024 / (f * 128)
      → buffers_of (pos target) (pos f)
        ≡ ok (record {
          frame_size = pos f;
          block_size = pos (f * 128);
          block_count = pos (target * 1024 * 1024 / (f * 128));
        })
  unfolding buffers_of is_zero
  made h = rw asked (
      rw block (
        rw (div_int_pos (target * 1024 * 1024) (f * 128) (omega arith))
          (rw (eq_zero_false (target * 1024 * 1024 / (f * 128)) h) refl)))

  module _ (snaplen page : ℕ) (size : IsFrameSize snaplen page f) (holds : snaplen ≤ f) where
    made-Calculated :
        0 < target * 1024 * 1024 / (f * 128)
        → Calculated target snaplen page (buffers_of (pos target) (pos f))
    made-Calculated h = inl (
      _,
      made h,
      record {
        frame = f;
        blocks = target * 1024 * 1024 / (f * 128);
        frame_is = refl;
        block_is = refl;
        count_is = refl;
        is_size = size;
        holds_capture = holds;
        some_blocks = h;
        within = div-mul-le_self (target * 1024 * 1024) (f * 128);
        close =
            omega (arith, lt-div-mul-add {a = target * 1024 * 1024} {b = f * 128} (omega arith));
      },
    )

    refused-Calculated :
        target * 1024 * 1024 / (f * 128) ≡ 0
        → Calculated target snaplen page (buffers_of (pos target) (pos f))
    refused-Calculated e = inr (
      refused e,
      record {
        frame = f;
        is_size = size;
        below = omega (
          arith,
          lt-div-mul-add {a = target * 1024 * 1024} {b = f * 128} (omega arith),
          ap (λ (k : ℕ). k * (f * 128)) e,
        );
      },
    )

-- For a target, a capture length and a page size of which none is negative, the last two are above 0, and no
-- product is more than an int holds, there is no panic. The frame is the even part of a page that as many
-- captures as possible share, or the least number of whole pages that is more than a capture. The buffers
-- have blocks of 128 such frames and fill the target up to less than one block, or the target is below the
-- size of one such block and is refused.
pub calculate_buffers_lem :
    (target snaplen page : ℕ)
    → 0 < snaplen
    → 0 < page
    → target * 1024 * 1024 < 2 ^ 63
    → (snaplen + page) * 128 < 2 ^ 63
    → Calculated target snaplen page (calculate_buffers (pos target) (pos snaplen) (pos page))
unfolding calculate_buffers
calculate_buffers_lem target snaplen page hs hp in_int fits =
    let h : HasFrame snaplen page = has_frame snaplen page hs hp fits in
    let f : ℕ = h.frame in
    let some : 0 < f = omega (arith, h.holds) in
    let small : f * 128 < 2 ^ 63 = omega (arith, h.at_most) in
    rw h.computed (elim (zero_or_pos (target * 1024 * 1024 / (f * 128))) [
      | inl none_fit ↦
          refused-Calculated target f some small in_int snaplen page h.is_size h.holds none_fit
      | inr some_fit ↦
          made-Calculated target f some small in_int snaplen page h.is_size h.holds some_fit
    ])
