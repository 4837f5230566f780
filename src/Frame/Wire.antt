-- ===== src/Frame/Wire.antt =====
-- `Frame.Decode` against a description of what a server writes, and on which slices it panics.
use zanarkand.Prelude.{
  Bool, true, false, ◌||◌, ℕ, ◌+◌, ◌-◌, ◌^◌, ◌≤◌, ◌<◌, ◌≡◌, ◌⊎◌, inl, inr, refl, sym, ap, ◌∙◌, ◌++◌,
  arith, length, length-append, take-append_eq, le_or_lt, ltb, ltb-false, ltb-true, if◌then◌else◌,
}
use zanarkand.Prelude.Int.{pos}
use zanarkand.Prelude.Bytes.{Bytes, le_bytes, le-le_bytes, slice, le}
use zanarkand.Error.{no_error, not_enough_data, ok, err, panic}
use zanarkand.Frame.{Frame, time_of, decode_frame, set_fields, set_body}

-- The 40 bytes of a frame's header, in their order, and the body.
pub record Wire : Type 0 where
  pub magic : ℕ
  pub unknown : ℕ
  pub ms : ℕ
  pub length : ℕ
  pub connection : ℕ
  pub count : ℕ
  pub reserved1 : ℕ
  pub compression : ℕ
  pub reserved2 : ℕ
  pub reserved3 : ℕ
  pub body : Bytes

unfoldable pub encode_frame : Wire → Bytes
encode_frame w =
    le_bytes 8 w.magic
    ++ (le_bytes 8 w.unknown
        ++ (le_bytes 8 w.ms
            ++ (le_bytes 4 w.length
                ++ (le_bytes 2 w.connection
                    ++ (le_bytes 2 w.count
                        ++ (le_bytes 1 w.reserved1
                            ++ (le_bytes 1 w.compression
                                ++ (le_bytes 4 w.reserved2
                                    ++ (le_bytes 2 w.reserved3 ++ w.body)))))))))

pub record WireFits (w : Wire) : Type 0 where
  pub magic_fits : w.magic < 2 ^ 64
  pub ms_fits : w.ms < 2 ^ 64
  pub length_fits : w.length < 2 ^ 32
  pub connection_fits : w.connection < 2 ^ 16
  pub count_fits : w.count < 2 ^ 16
  pub compression_fits : w.compression < 256
  pub length_is : w.length ≡ 40 + length w.body

-- The frame that `w` stands for, over the fields of `f` that `Decode` leaves alone.
abbrev pub frame_of : {F : Type 0} → Frame F → Wire → Frame F
frame_of f w = record f {
  magic = w.magic;
  timestamp = time_of w.ms;
  length = w.length;
  connection = w.connection;
  count = w.count;
  compression = w.compression;
  body = w.body;
}

pub length-encode_frame : (w : Wire) → length (encode_frame w) ≡ 40 + length w.body
unfolding encode_frame
length-encode_frame w = omega arith

set_fields-encode :
    {F : Type 0} (f : Frame F) (w : Wire)
    → WireFits w
    → set_fields f (encode_frame w) ≡ record (frame_of f w) { body = f.body }
unfolding set_fields encode_frame
set_fields-encode f w h = λ i. record f {
  magic = le-le_bytes 8 w.magic h.magic_fits i;
  timestamp = time_of (le-le_bytes 8 w.ms h.ms_fits i);
  length = le-le_bytes 4 w.length h.length_fits i;
  connection = le-le_bytes 2 w.connection h.connection_fits i;
  count = le-le_bytes 2 w.count h.count_fits i;
  compression = le-le_bytes 1 w.compression h.compression_fits i;
}

-- `p[40:n]`, where `n` is in range.
set_body_in_range :
    {F : Type 0} (f : Frame F) (p : Bytes)
    → 40 ≤ f.length
    → f.length ≤ length p
    → set_body f p ≡ ok (record f { body = slice 40 f.length p })
unfolding set_body
set_body_in_range f p lo hi = rw (ltb-false f.length 40 lo, ltb-false (length p) f.length hi)

body-encode :
    (w : Wire) (spare : Bytes) → WireFits w → slice 40 w.length (encode_frame w ++ spare) ≡ w.body
unfolding encode_frame
body-encode w spare h = take-append_eq (w.length - 40) w.body spare (omega (arith, h.length_is))

-- `Decode` reads back a written frame that fits its fields and whose length field is its length,
-- whatever stands behind it in its array, and sets exactly the fields of `frame_of`.
pub decode_frame-encode :
    {F : Type 0} (f : Frame F) (w : Wire) (spare : Bytes)
    → WireFits w
    → decode_frame f (encode_frame w) spare ≡ ok (frame_of f w)
unfolding decode_frame
decode_frame-encode f w spare h =
    rw (ltb-false (length (encode_frame w)) 40 (omega (arith, length-encode_frame w))) (
      rw (set_fields-encode f w h) (
        set_body_in_range (record (frame_of f w) { body = f.body }) (encode_frame w ++ spare)
          (omega (arith, h.length_is))
          (omega (arith, h.length_is, length-encode_frame w, length-append (encode_frame w) spare))
        ∙ ap (λ (b : Bytes). ok (record (frame_of f w) { body = b })) (body-encode w spare h)))

set_body_panics :
    {F : Type 0} (f : Frame F) (p : Bytes)
    → (f.length < 40) ⊎ (length p < f.length)
    → set_body f p ≡ panic
unfolding set_body
set_body_panics f p (inl low) = rw (ltb-true f.length 40 low)
set_body_panics f p (inr high) = rw (ltb-true (length p) f.length high) (or_true (ltb f.length 40))
  where
    or_true :
        (b : Bool)
        → (if b || true then panic else ok (record f { body = slice 40 f.length p })) ≡ panic
    or_true true = refl
    or_true false = refl

-- `p` is a slice that `Decode` cuts a body from: its header announces a length in range.
pub record Announces (p spare : Bytes) (n : ℕ) : Type 0 where
  pub has_header : 40 ≤ length p
  pub is_length : n ≡ le (slice 24 28 p)
  pub has_body : 40 ≤ n
  pub in_array : n ≤ length p + length spare

set_fields-length :
    {F : Type 0} (f : Frame F) (p : Bytes) → (set_fields f p).length ≡ le (slice 24 28 p)
unfolding set_fields
set_fields-length f p = refl

-- Where the announced length is in range, `Decode` cuts the body off the array.
decode_frame_ok :
    {F : Type 0} (f : Frame F) (p spare : Bytes) {n : ℕ}
    → Announces p spare n
    → decode_frame f p spare ≡ ok (record (set_fields f p) { body = slice 40 n (p ++ spare) })
unfolding decode_frame
decode_frame_ok f p spare {n} a =
    let e : (set_fields f p).length ≡ n = set_fields-length f p ∙ sym a.is_length in
    rw (ltb-false (length p) 40 a.has_header) (
      set_body_in_range (set_fields f p) (p ++ spare) (omega (arith, e, a.has_body))
        (omega (arith, e, a.in_array, length-append p spare))
      ∙ ap (λ (k : ℕ). ok (record (set_fields f p) { body = slice 40 k (p ++ spare) })) e)

-- `Decode` refuses a slice that is shorter than a header. On a longer one it panics where the announced
-- length is below 40 or past the capacity, and else it cuts the body off the array behind the header.
pub decode_frame_lem :
    {F : Type 0} (f : Frame F) (p spare : Bytes)
    → ((length p < 40)
        × (decode_frame f p spare ≡ err (not_enough_data (pos 40) (length p) no_error)))
      ⊎ ((40 ≤ length p)
          × ((le (slice 24 28 p) < 40) ⊎ (length p + length spare < le (slice 24 28 p)))
          × (decode_frame f p spare ≡ panic))
      ⊎ (Announces p spare (le (slice 24 28 p))
          × (decode_frame f p spare
              ≡ ok (record (set_fields f p) { body = slice 40 (le (slice 24 28 p)) (p ++ spare) })))
unfolding decode_frame
decode_frame_lem f p spare = elim (le_or_lt 40 (length p)) [
  | inr short ↦ inl (short, rw (ltb-true (length p) 40 short))
  | inl long ↦ inr (by_length long (le_or_lt 40 n) (le_or_lt n (length p + length spare)))
]
  where
    n : ℕ
    n = le (slice 24 28 p)

    panics :
        40 ≤ length p → (n < 40) ⊎ (length p + length spare < n) → decode_frame f p spare ≡ panic
    panics long (inl low) =
        rw (ltb-false (length p) 40 long) (
          set_body_panics (set_fields f p) (p ++ spare)
            (inl (omega (arith, set_fields-length f p))))
    panics long (inr high) = rw (ltb-false (length p) 40 long) (
        set_body_panics (set_fields f p) (p ++ spare)
          (inr (omega (arith, set_fields-length f p, length-append p spare))))

    by_length :
        40 ≤ length p
        → (40 ≤ n) ⊎ (n < 40)
        → (n ≤ length p + length spare) ⊎ (length p + length spare < n)
        → ((40 ≤ length p)
            × ((n < 40) ⊎ (length p + length spare < n))
            × (decode_frame f p spare ≡ panic))
          ⊎ (Announces p spare n
              × (decode_frame f p spare
                  ≡ ok (record (set_fields f p) { body = slice 40 n (p ++ spare) })))
    by_length long (inr low) b = inl (long, inl low, panics long (inl low))
    by_length long (inl lo) (inr high) = inl (long, inr high, panics long (inr high))
    by_length long (inl lo) (inl hi) =
        let a : Announces p spare n = record {
          has_header = long;
          is_length = refl;
          has_body = lo;
          in_array = hi;
        } in
        inr (a, decode_frame_ok f p spare a)
