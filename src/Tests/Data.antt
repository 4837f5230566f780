-- ===== src/Tests/Data.antt =====
-- The inputs that the tests share.
use zanarkand.Sniffer.Config.{Openers}
use zanarkand.Sniffer.{Reset}
use zanarkand.Io.{eof, Reader, IoError}
use zanarkand.Error.{ok}
use zanarkand.Subscriber.{
  GameEventSubscriber, GameEventHandler, new_game_event_subscriber, new_game_event_handler,
}
use zanarkand.Frame.Direction.{v4}
use zanarkand.Message.GameEvent.{GameEventFits}
use zanarkand.Message.Keepalive.{KeepaliveFits}
use zanarkand.Prelude.{arith, ℕ, [], ◌∷◌, replicate}
use zanarkand.Prelude.Bytes.{Bytes}
use zanarkand.Message.{GenericHeader, GameEventMessage, KeepaliveMessage}
use zanarkand.Frame.{Frame, frame_magic_le, zero_frame}
use zanarkand.Frame.Wire.{Wire, WireFits}

-- A reader with all of `s` in its buffer and `n` bytes of room behind it.
abbrev pub buffered : Bytes → ℕ → Reader
buffered s n = record { used = []; buf = s; stale = replicate n 0; rd = []; rd_err = IoError.eof }

abbrev pub event_header : GenericHeader
event_header = record { length = 34; source_actor = 1; target_actor = 2; segment = 3; padding = 0 }

abbrev pub event : GameEventMessage
event = record {
  header = event_header;
  reserved = 20;
  opcode = 0x3AF;
  padding2 = 0;
  server_id = 5;
  timestamp = 1000;
  padding3 = 0;
  body = 7 ∷ 8 ∷ [];
}

abbrev pub ping : KeepaliveMessage
ping = record {
  header = record { length = 24; source_actor = 1; target_actor = 2; segment = 7; padding = 0 };
  id = 9;
  timestamp = 1000;
}

abbrev pub plain_wire : Wire
plain_wire = record {
  magic = frame_magic_le;
  unknown = 0;
  ms = 1500;
  length = 42;
  connection = 1;
  count = 1;
  reserved1 = 0;
  compression = 0;
  reserved2 = 0;
  reserved3 = 0;
  body = 7 ∷ 8 ∷ [];
}

abbrev pub zlib_wire : Wire
zlib_wire = record plain_wire { compression = 1 }

-- Flows are their two addresses here.
abbrev pub no_frame : Frame (Bytes × Bytes)
no_frame = zero_frame ([], [])

abbrev pub source : Bytes × Bytes → Bytes
source a = a.0

abbrev pub target : Bytes × Bytes → Bytes
target a = a.1

abbrev pub incoming : Frame (Bytes × Bytes)
incoming = record no_frame { flow = (v4 8 8 8 8, v4 10 0 0 1) }

pub event_fits : GameEventFits event
event_fits = omega arith

pub ping_fits : KeepaliveFits ping
ping_fits = omega arith

pub plain_fits : WireFits plain_wire
plain_fits = omega arith

pub zlib_fits : WireFits zlib_wire
zlib_fits = omega arith

abbrev pub flow : Bytes × Bytes
flow = (v4 8 8 8 8, v4 10 0 0 1)

abbrev pub zero_flow : Bytes × Bytes
zero_flow = ([], [])

-- A pool's reader that gives nothing.
abbrev pub empty_reset : Reset
empty_reset b = ok ([], eof)

abbrev pub subscriber : GameEventSubscriber
subscriber = new_game_event_subscriber []

abbrev pub handler : GameEventHandler
handler = new_game_event_handler []

abbrev pub device : Openers ℕ
device = record {
  open_file = λ s. ok 1;
  open_pcap = λ s. ok 2;
  open_pf_ring = λ s. ok 3;
  open_af_packet = λ s. ok 4;
}
