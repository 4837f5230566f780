-- ===== src/Devices/AfPacket.antt =====
-- devices/afpacket_linux.go, afpacket_nonlinux.go and `OpenAFPacket` of handle.go. What the capture
-- libraries do is an argument.
use zanarkand.Prelude.{
  ℕ, ◌≡◌, ◌≢◌, ◌⊎◌, inl, inr, refl, true, false, Option, none, some, List, map, if◌then◌else◌,
}
use zanarkand.Prelude.Int.{ℤ, pos}
use zanarkand.Prelude.Bytes.{Bytes, same_text}
use zanarkand.Error.{Error, text, af_only_linux, buffer_too_small, Outcome, ok, err, panic}
use zanarkand.Devices.Names.{any_device}
use zanarkand.Devices.Buffers.{Buffers, Suits, TooSmall, calculate_buffers}
use zanarkand.Devices.Handles.{Attempt, not_opened, gone, kept, then_filter}

-- The options of `afpacket.NewTPacket` that the source sets.
pub record Options : Type 0 where
  pub interface : Option Bytes
  pub buffers : Buffers
  pub poll_timeout : ℤ

-- `pcap.BPFInstruction`
pub record BpfInstruction : Type 0 where
  pub code : ℕ
  pub jt : ℕ
  pub jf : ℕ
  pub k : ℕ

-- `bpf.RawInstruction`
pub record RawInstruction : Type 0 where
  pub op : ℕ
  pub jt : ℕ
  pub jf : ℕ
  pub k : ℕ

-- The calls of the packages afpacket and pcap on handles of type `H`.
pub record Library (H : Type 0) : Type 0 where
  pub new_tpacket : Options → Outcome H
  pub set_promiscuous : H → Option Error
  pub link_type_ethernet : ℕ
  pub compile_filter : ℕ → ℤ → Bytes → Error ⊎ List BpfInstruction
  pub set_bpf : H → List RawInstruction → Option Error

-- `newAFPacketHandle`: the options for a device.
options_of : Bytes → Buffers → ℤ → Options
options_of device b timeout = record {
  interface = if same_text device any_device then none else some device;
  buffers = b;
  poll_timeout = timeout;
}

raw_instruction : BpfInstruction → RawInstruction
raw_instruction i = record { op = i.code; jt = i.jt; jf = i.jf; k = i.k }

module _ {H : Type 0} (lib : Library H) where
  set_instructions : Error ⊎ List BpfInstruction → H → Option Error
  set_instructions (inl e) h = some e
  set_instructions (inr is) h = lib.set_bpf h (map raw_instruction is)

  -- `AFPacketHandle.SetBPFFilter`
  pub set_bpf_filter : Bytes → ℤ → H → Option Error
  set_bpf_filter filter frame h =
      set_instructions (lib.compile_filter lib.link_type_ethernet frame filter) h

  made_promiscuous : H → Option Error → Attempt H
  unfolding kept
  made_promiscuous h none = kept h
  made_promiscuous h (some e) = record { result = err e; was_opened = true; was_closed = false }

  with_ring : Outcome H → Attempt H
  unfolding not_opened gone
  with_ring (ok h) = made_promiscuous h (lib.set_promiscuous h)
  with_ring (err e) = not_opened e
  with_ring panic = gone

  -- `newAFPacketHandle`: an error of `SetPromiscuous` is returned with the handle still open.
  pub new_af_packet : Bytes → ℤ → Buffers → Attempt H
  new_af_packet device timeout b = with_ring (lib.new_tpacket (options_of device b timeout))

-- `newAFPacketHandle` of the other systems.
no_af_packet : {H : Type 0} → Buffers → Attempt H
unfolding not_opened
no_af_packet b = not_opened (text af_only_linux)

with_buffers :
    {H : Type 0}
    → (Buffers → Attempt H)
    → (Buffers → H → Option Error)
    → Outcome Buffers
    → Attempt H
unfolding not_opened gone then_filter
with_buffers new filter (ok b) = then_filter (new b) (new b).result (filter b)
with_buffers new filter (err e) = not_opened e
with_buffers new filter panic = gone

-- `OpenAFPacket`, for the functions of the system, the size of the buffers in megabytes and the size of a
-- page.
pub open_af_packet :
    {H : Type 0} → (Buffers → Attempt H) → (Buffers → H → Option Error) → ℤ → ℤ → Attempt H
unfolding with_buffers
open_af_packet new filter target page =
    with_buffers new filter (calculate_buffers target (pos 1600) page)

-- On the other systems no handle is ever opened.
unopened :
    {H : Type 0} (filter : Buffers → H → Option Error) (o : Outcome Buffers)
    → (with_buffers no_af_packet filter o).was_opened ≡ false
unfolding with_buffers no_af_packet not_opened gone then_filter
unopened filter (ok b) = refl
unopened filter (err e) = refl
unopened filter panic = refl

-- What `OpenAFPacket` asks of the library: frames that hold a capture of 1600 bytes, buffers that fill
-- the target, and the device unless it is "any".
pub record IsAskedFor (device : Bytes) (target page : ℕ) (timeout : ℤ) (o : Options) : Type 0 where
  pub suits : Suits target 1600 page o.buffers
  pub bound :
      ((device ≡ any_device) × (o.interface ≡ none))
      ⊎ ((device ≢ any_device) × (o.interface ≡ some device))
  pub waits : o.poll_timeout ≡ timeout

module _ {H : Type 0} (lib : Library H) (device filter : Bytes) (target page : ℕ)
    (timeout : ℤ) where
  -- The answer to the filter, compiled for frames of the size of the ring's.
  pub answer : Options → H → Option Error
  answer o h = set_bpf_filter lib filter o.buffers.frame_size h

  -- What becomes of a call.
  pub data Opened : Attempt H → Type 0 where
    too_small :
        TooSmall target 1600 page
        → Opened (record {
          result = err (text buffer_too_small);
          was_opened = false;
          was_closed = false;
        })
    no_ring :
        (o : Options) (e : Error)
        → IsAskedFor device target page timeout o
        → lib.new_tpacket o ≡ err e
        → Opened (record { result = err e; was_opened = false; was_closed = false })
    panicked :
        (o : Options)
        → IsAskedFor device target page timeout o
        → lib.new_tpacket o ≡ panic
        → Opened (record { result = panic; was_opened = false; was_closed = false })
    leaked :
        (o : Options) (h : H) (e : Error)
        → IsAskedFor device target page timeout o
        → lib.new_tpacket o ≡ ok h
        → lib.set_promiscuous h ≡ some e
        → Opened (record { result = err e; was_opened = true; was_closed = false })
    not_filtered :
        (o : Options) (h : H) (e : Error)
        → IsAskedFor device target page timeout o
        → lib.new_tpacket o ≡ ok h
        → lib.set_promiscuous h ≡ none
        → answer o h ≡ some e
        → Opened (record { result = err e; was_opened = true; was_closed = true })
    kept_open :
        (o : Options) (h : H)
        → IsAskedFor device target page timeout o
        → lib.new_tpacket o ≡ ok h
        → lib.set_promiscuous h ≡ none
        → answer o h ≡ none
        → Opened (record { result = ok h; was_opened = true; was_closed = false })
