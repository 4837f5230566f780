-- ===== src/Tests/Device.antt =====
-- The devices.
use zanarkand.Prelude.{ℕ, inr, true, Option, some, none, List, [], ◌∷◌, arith}
use zanarkand.Prelude.Bytes.{Bytes}
use zanarkand.Error.{Error, ok, foreign}
use zanarkand.Devices.Buffers.{calculate_buffers, Calculated, calculate_buffers_lem}
use zanarkand.Devices.Names.{Interface, find_device_by_name, Found, find_device_by_name_lem}
use zanarkand.Devices.Handles.{IsClean, open_filtered, open_pf_ring, new_pf_ring, open-IsClean}
use zanarkand.Devices.AfPacket.{Library}
use zanarkand.Prelude.Int.{pos}

-- 25 MB, a capture length of 1600 bytes and pages of 4096.
calculate_buffers_lem_example :
    Calculated 25 1600 4096 (calculate_buffers (pos 25) (pos 1600) (pos 4096))
calculate_buffers_lem_example =
    calculate_buffers_lem 25 1600 4096 (omega arith) (omega arith) (omega arith) (omega arith)

abbrev interfaces : List Interface
interfaces = record { name = b'e' ∷ b'0' ∷ []; description = []; addresses = [] } ∷ []

-- `-1`
abbrev minus_one : Bytes
minus_one = b'1' ∷ []

find_device_by_name_lem_example :
    Found interfaces
      (b'-' ∷ minus_one)
      (find_device_by_name true (ok interfaces) (b'-' ∷ minus_one))
find_device_by_name_lem_example = find_device_by_name_lem true interfaces b'-' minus_one

abbrev fine : ℕ → Option Error
fine h = none

abbrev refused : ℕ → Option Error
refused h = some (foreign 1)

open-IsClean_example :
    IsClean (open_filtered (ok 7) fine)
    × IsClean (open_pf_ring (new_pf_ring (ok 7) refused fine fine) fine)
open-IsClean_example = open-IsClean (ok 7) fine refused fine fine

-- `e0`
abbrev first_device : Bytes
first_device = b'e' ∷ b'0' ∷ []

-- A library whose handle cannot be made promiscuous.
abbrev library : Library ℕ
library = record {
  new_tpacket = λ o. ok 7;
  set_promiscuous = refused;
  link_type_ethernet = 1;
  compile_filter = λ link frame filter. inr (record { code = 6; jt = 0; jf = 0; k = link } ∷ []);
  set_bpf = λ h is. none;
}
