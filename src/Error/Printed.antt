-- ===== src/Error/Printed.antt =====
-- The `Error` methods of errors.go, and the texts of the errors that the other files make.
use zanarkand.Prelude.{ℕ, ◌++◌}
use zanarkand.Prelude.Bytes.{Bytes}
use zanarkand.Prelude.Radix.{decimal, show}
use zanarkand.Prelude.Format.{codes, show_int}
use zanarkand.Io.{IoError}
use zanarkand.Error.{
  Text, retrieving_frame, resetting_zlib, creating_zlib, syncing, peeking, capture_handle,
  no_source, unexpected_direction, device_list, reading, less_read, no_device_name,
  buffer_too_small, unknown_mode, index_out_of_bounds, bad_length, af_only_linux, pf_only_linux,
  Error, no_error, io, text, wrapped, not_enough_data, decoding_failure, unknown_input,
  reassembly_error, foreign,
}

-- What `fmt.Errorf` and `errors.New` print, up to the `: %w` of a text that wraps an error.
abbrev text_of : Text → Bytes
text_of retrieving_frame = codes "error retrieving next frame"
text_of resetting_zlib = codes "error resetting ZLIB decoder"
text_of creating_zlib = codes "error creating ZLIB decoder"
text_of syncing = codes "error syncing Frame start position"
text_of peeking = codes "can't peek into header bytes from buffer"
text_of capture_handle = codes "capture handle"
text_of no_source = codes "capture handle: no source provided"
text_of unexpected_direction = codes "unexpected frame direction"
text_of device_list = codes "error building device list"
text_of (reading n) = codes "can't read " ++ (show decimal n ++ codes " bytes from buffer")
text_of (less_read n m) =
    codes "read less data than expected: " ++ (show decimal n ++ (codes " < " ++ show decimal m))
text_of no_device_name = codes "no device name given"
text_of buffer_too_small = codes "buffer size too small"
text_of (unknown_mode m) = codes "unknown input type: " ++ m
text_of (index_out_of_bounds n m) =
    codes "device index "
    ++ (show decimal n ++ (codes "/" ++ (show decimal m ++ codes " out of bounds for device list")))
text_of (bad_length n m) =
    codes "unexpected length: received "
    ++ (show decimal n ++ (codes ", expected " ++ show decimal m))
text_of af_only_linux = codes "AF_PACKET handles are only available on Linux"
text_of pf_only_linux = codes "PF_RING handles are only available on Linux"

-- The texts of the errors of other packages.
pub record Library : Type 0 where
  pub io_text : IoError → Bytes
  pub foreign_text : ℕ → Bytes

-- The `Error` methods, and what `%v` prints of nil.
unfoldable pub error_text : Library → Error → Bytes
error_text l no_error = codes "<nil>"
error_text l (io e) = l.io_text e
error_text l (text t) = text_of t
error_text l (wrapped t e) = text_of t ++ (codes ": " ++ error_text l e)
error_text l (not_enough_data expected received e) =
    codes "not enough data: expected "
    ++ (show_int expected
        ++ (codes " bytes but received "
            ++ (show decimal received ++ (codes ": " ++ error_text l e))))
error_text l (decoding_failure e) = codes "unable to decode message: " ++ error_text l e
error_text l (unknown_input e) = codes "unknown input type: " ++ error_text l e
error_text l (reassembly_error e) = codes "reassembly error: " ++ error_text l e
error_text l (foreign n) = l.foreign_text n
