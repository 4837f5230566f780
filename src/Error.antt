-- ===== src/Error.antt =====
-- errors.go, and the errors that the other files make with `fmt.Errorf`. A Go `error` is a value of
-- `Error`.
pub mod Printed
use zanarkand.Prelude.{ℕ, List, Bool, true, false, ◌≡◌}
use zanarkand.Prelude.Int.{ℤ}
use zanarkand.Io.{IoError}

-- The texts of `fmt.Errorf`, with what they print.
pub data Text : Type 0 where
  retrieving_frame resetting_zlib creating_zlib : Text
  syncing peeking capture_handle no_source unexpected_direction device_list : Text
  reading : ℕ → Text
  less_read : ℕ → ℕ → Text
  no_device_name buffer_too_small : Text
  unknown_mode : List ℕ → Text
  index_out_of_bounds : ℕ → ℕ → Text
  bad_length : ℕ → ℕ → Text
  af_only_linux pf_only_linux : Text

-- `no_error` is Go's nil. `wrapped` is a text with `%w`.
pub data Error : Type 0 where
  no_error : Error
  io : IoError → Error
  text : Text → Error
  wrapped : Text → Error → Error
  not_enough_data : (expected : ℤ) (received : ℕ) (err : Error) → Error
  decoding_failure : Error → Error
  unknown_input : Error → Error
  reassembly_error : Error → Error
  foreign : ℕ → Error

-- The `Unwrap` methods of errors.go.
unfoldable pub unwrap_method : Error → Error
unwrap_method (not_enough_data _ _ e) = e
unwrap_method (decoding_failure e) = e
unwrap_method (unknown_input e) = e
unwrap_method (reassembly_error e) = e
unwrap_method _ = no_error

-- `errors.Is(e, io.EOF)`: the chain of `errors.Unwrap`, which stops where there is no `Unwrap`. The
-- `Unwrap` methods of errors.go have pointer receivers, and every error of the source holds a value, so
-- only what `fmt.Errorf` wraps is in a chain.
unfoldable pub is_eof : Error → Bool
is_eof no_error = false
is_eof (io IoError.eof) = true
is_eof (io e) = false
is_eof (wrapped _ e) = is_eof e
is_eof (text _) = false
is_eof (not_enough_data _ _ _) = false
is_eof (decoding_failure _) = false
is_eof (unknown_input _) = false
is_eof (reassembly_error _) = false
is_eof (foreign _) = false

-- What a call of Go code leaves: a value, an error, or a panic of the goroutine.
pub data Outcome {ℓ} (A : Type ℓ) : Type ℓ where
  ok : A → Outcome A
  err : Error → Outcome A
  panic : Outcome A

infixl 5 ◌>>=◌
abbrev pub ◌>>=◌ {ℓ κ} : {A : Type ℓ} {B : Type κ} → Outcome A → (A → Outcome B) → Outcome B
ok a >>= f = f a
err e >>= f = err e
panic >>= f = panic

pub ok-injective {ℓ} : {A : Type ℓ} {a b : A} → ok a ≡ ok b → a ≡ b
ok-injective e = cc
