-- ===== src/Frame/Text.antt =====
-- `Frame.String`: what is printed of a frame, and that it can be read off the text.
use zanarkand.Prelude.{
  ℕ, ◌^◌, ◌<◌, ◌≡◌, refl, sym, ap, ◌∙◌, List, [], ◌∷◌, ◌++◌, append-nil, ◌==◌, if◌then◌else◌,
  length, drop, drop-append_eq, arith,
}
use zanarkand.Prelude.Int.{ℤ}
use zanarkand.Prelude.Bytes.{Bytes}
use zanarkand.Prelude.Radix.{
  decimal, hexadecimal, decimal-IsRadix, hexadecimal-IsRadix, show, Stops,
}
use zanarkand.Prelude.Format.{
  Format, IsFormat, sprintf, sprintf-Stops, sprintf-injective, show-injective, codes, show_int,
  FitsInt, show_int-injective,
}
use zanarkand.Frame.{
  Frame, CompressorName, none_name, zlib_name, oodle_name, unknown_name, compressor_name, unix,
}

-- `Compressor.String`
abbrev pub name_text : CompressorName → Bytes
name_text none_name = codes "None"
name_text zlib_name = codes "ZLib"
name_text oodle_name = codes "Oodle"
name_text unknown_name = codes "Unknown"

abbrev magic_format : Format
magic_format = (codes "Frame - magic: 0x", hexadecimal) ∷ []

abbrev size_format : Format
size_format = (codes ", size: ", decimal) ∷ (codes ", count: ", decimal) ∷ []

abbrev connection_label : Bytes
connection_label = codes ", connection: "

abbrev after_magic : Bytes
after_magic = codes ", timestamp: "

abbrev after_count : Bytes
after_count = codes ", compression: "

module _ {F : Type 0} where
  -- The text from the compression on, and from the size on.
  compression_text : Frame F → Bytes
  compression_text f =
      name_text (compressor_name f.compression) ++ (connection_label ++ show decimal f.connection)

  size_text : Frame F → Bytes
  size_text f = sprintf size_format (f.length ∷ f.count ∷ []) (after_count ++ compression_text f)

  -- `Frame.String`
  unfoldable pub frame_text : Frame F → Bytes
  unfolding compression_text size_text
  frame_text f =
      sprintf magic_format (f.magic ∷ [])
        (after_magic ++ (show_int (unix f.timestamp) ++ size_text f))

magic_format-IsFormat : IsFormat magic_format after_magic
magic_format-IsFormat = (hexadecimal-IsRadix, omega arith, refl, tt)

size_format-IsFormat : IsFormat size_format after_count
size_format-IsFormat =
    (decimal-IsRadix, omega arith, refl, (decimal-IsRadix, omega arith, refl, tt))

-- What the text of a frame tells.
pub record Printed : Type 0 where
  pub magic : ℕ
  pub seconds : ℤ
  pub sizes : List ℕ
  pub compression : CompressorName
  pub connection : ℕ

abbrev pub printed_of : {F : Type 0} → Frame F → Printed
printed_of f = record {
  magic = f.magic;
  seconds = unix f.timestamp;
  sizes = f.length ∷ f.count ∷ [];
  compression = compressor_name f.compression;
  connection = f.connection;
}

-- The fields are of the sizes that Go has for them.
pub record FrameFits {F : Type 0} (f : Frame F) : Type 0 where
  pub magic_fits : f.magic < 2 ^ 64
  pub seconds_fit : FitsInt (unix f.timestamp)
  pub length_fits : f.length < 2 ^ 64
  pub count_fits : f.count < 2 ^ 64
  pub connection_fits : f.connection < 2 ^ 64

-- The name that starts with a letter.
abbrev name_at : Bytes → CompressorName
name_at [] = unknown_name
name_at (c ∷ cs) =
    if c == b'N'
    then none_name
    else if c == b'Z'
    then zlib_name
    else if c == b'O'
    then oodle_name
    else unknown_name

name_at-name_text : (n : CompressorName) (p : Bytes) → name_at (name_text n ++ p) ≡ n
name_at-name_text none_name p = refl
name_at-name_text zlib_name p = refl
name_at-name_text oodle_name p = refl
name_at-name_text unknown_name p = refl

name_text-injective :
    (n m : CompressorName) (p q : Bytes) → name_text n ++ p ≡ name_text m ++ q → (n ≡ m) × (p ≡ q)
name_text-injective n m p q e =
    let same : n ≡ m = sym (name_at-name_text n p) ∙ ap name_at e ∙ name_at-name_text m q in
    (
      same,
      sym (drop-append_eq (length (name_text n)) (name_text n) p refl)
          ∙ ap (drop (length (name_text n))) e
          ∙ ap (λ (k : CompressorName). drop (length (name_text k)) (name_text m ++ q)) same
          ∙ drop-append_eq (length (name_text m)) (name_text m) q refl,
    )

size_text-Stops : {F : Type 0} (f : Frame F) → Stops decimal (size_text f)
unfolding size_text
size_text-Stops f =
    sprintf-Stops decimal size_format (f.length ∷ f.count ∷ []) after_count (compression_text f)
      refl refl

connection-injective :
    (n m : ℕ)
    → n < 2 ^ 64
    → m < 2 ^ 64
    → connection_label ++ show decimal n ≡ connection_label ++ show decimal m
    → n ≡ m
connection-injective n m h k e =
    (show-injective connection_label decimal n m [] [] decimal-IsRadix (omega arith) (omega arith)
      tt tt
      (ap (◌++◌ connection_label) (append-nil (show decimal n))
        ∙ e
        ∙ sym (ap (◌++◌ connection_label) (append-nil (show decimal m))))).0

-- The number in front of a list.
abbrev first_of : List ℕ → ℕ
first_of [] = 0
first_of (n ∷ ns) = n

-- The text of a frame with fields of their sizes tells its magic bytes, its time in seconds, its size,
-- the count of its messages, its compression and its connection.
frame_text-injective :
    {F : Type 0} (f g : Frame F)
    → FrameFits f
    → FrameFits g
    → frame_text f ≡ frame_text g
    → printed_of f ≡ printed_of g
unfolding frame_text size_text compression_text
frame_text-injective f g k l e =
    let (magics, e₁) =
      sprintf-injective magic_format (f.magic ∷ []) (g.magic ∷ []) after_magic _ _
        magic_format-IsFormat refl refl (k.magic_fits, tt) (l.magic_fits, tt) e in
    let (times, e₂) =
      show_int-injective (unix f.timestamp) (unix g.timestamp) _ _ k.seconds_fit l.seconds_fit
        (size_text-Stops f) (size_text-Stops g) e₁ in
    let (sizes, e₃) =
      sprintf-injective size_format (f.length ∷ f.count ∷ []) (g.length ∷ g.count ∷ []) after_count
        _ _ size_format-IsFormat refl refl (k.length_fits, (k.count_fits, tt))
        (l.length_fits, (l.count_fits, tt)) e₂ in
    let (names, e₄) =
      name_text-injective (compressor_name f.compression) (compressor_name g.compression) _ _ e₃ in
    let connections : f.connection ≡ g.connection =
      connection-injective f.connection g.connection k.connection_fits l.connection_fits e₄ in
    λ i. record {
      magic = first_of (magics i);
      seconds = times i;
      sizes = sizes i;
      compression = names i;
      connection = connections i;
    }
