-- ===== src/Crafting/EventPlay.antt =====
-- eventplay.go and the type of craftstate.go: the events in a game event's body. Numbers are in
-- little-endian order; an int32 is its bit pattern with the integer that it stands for.
use zanarkand.Prelude.{
  ℕ, zero, suc, ◌+◌, ◌-◌, ◌^◌, ◌≡◌, refl, true, false, Option, none, some, List, [], ◌∷◌, ltb, ◌==◌,
  if◌then◌else◌, length, take, drop,
}
use zanarkand.Prelude.Int.{ℤ, pos, negsuc}
use zanarkand.Prelude.Bytes.{Bytes, slice, le}

-- `EventIDs["CraftState"]`
abbrev pub craft_state_id : ℕ
craft_state_id = 0xA0001

pub record EventPlayHeader : Type 0 where
  pub actor_id : ℕ
  pub event_id : ℕ
  pub scene : ℕ
  pub pad1 : ℕ
  pub flags : ℕ
  pub p1 : ℕ
  pub param_count : ℕ
  pub pad2 : Bytes
  pub p2 : ℕ

pub record CraftState : Type 0 where
  pub u1 : ℕ
  pub u3 : ℕ
  pub u4 : ℕ
  pub action_id : ℕ
  pub u2 : ℕ
  pub step : ℕ
  pub progress : ℕ
  pub progress_diff : ℤ
  pub quality : ℕ
  pub quality_diff : ℤ
  pub hq_chance : ℕ
  pub durability : ℕ
  pub durability_diff : ℤ
  pub current_condition : ℕ
  pub previous_condition : ℕ
  pub u6 : List ℕ

-- `EventPlay32Data`, with Go's nil.
pub data EventPlay32Data : Type 0 where
  no_data : EventPlay32Data
  craft_state : CraftState → EventPlay32Data
  generic_data : List ℕ → EventPlay32Data

pub record EventPlay32 : Type 0 where
  pub header : EventPlayHeader
  pub event_data : EventPlay32Data

-- `new(EventPlay32)`
abbrev pub zero_event_play : EventPlay32
zero_event_play = record {
  header = record {
    actor_id = 0;
    event_id = 0;
    scene = 0;
    pad1 = 0;
    flags = 0;
    p1 = 0;
    param_count = 0;
    pad2 = 0 ∷ 0 ∷ 0 ∷ [];
    p2 = 0;
  };
  event_data = no_data;
}

-- The int32 with the bits of `n`.
abbrev pub signed : ℕ → ℤ
signed n = if ltb n (2 ^ 31) then pos n else negsuc (2 ^ 32 - 1 - n)

-- An array of `k` numbers of type uint32.
abbrev pub words : ℕ → Bytes → List ℕ
words zero p = []
words (suc k) p = le (take 4 p) ∷ words k (drop 4 p)

-- `binary.Read` into an `EventPlayHeader`, from 32 bytes.
abbrev pub read_event_header : Bytes → EventPlayHeader
read_event_header p = record {
  actor_id = le (slice 0 8 p);
  event_id = le (slice 8 12 p);
  scene = le (slice 12 14 p);
  pad1 = le (slice 14 16 p);
  flags = le (slice 16 20 p);
  p1 = le (slice 20 24 p);
  param_count = le (slice 24 25 p);
  pad2 = slice 25 28 p;
  p2 = le (slice 28 32 p);
}

-- `binary.Read` into a `CraftState`, from 128 bytes.
abbrev pub read_craft_state : Bytes → CraftState
read_craft_state p = record {
  u1 = le (slice 0 4 p);
  u3 = le (slice 4 8 p);
  u4 = le (slice 8 12 p);
  action_id = le (slice 12 16 p);
  u2 = le (slice 16 20 p);
  step = le (slice 20 24 p);
  progress = le (slice 24 28 p);
  progress_diff = signed (le (slice 28 32 p));
  quality = le (slice 32 36 p);
  quality_diff = signed (le (slice 36 40 p));
  hq_chance = le (slice 40 44 p);
  durability = le (slice 44 48 p);
  durability_diff = signed (le (slice 48 52 p));
  current_condition = le (slice 52 56 p);
  previous_condition = le (slice 56 60 p);
  u6 = words 17 (drop 60 p);
}

-- The switch over the event's number.
abbrev pub read_data : ℕ → Bytes → EventPlay32Data
read_data id p =
    if id == craft_state_id then craft_state (read_craft_state p) else generic_data (words 32 p)

-- `binary.Size` of the header.
abbrev pub header_size : ℕ
header_size = 32

-- The error that `UnmarshalBytes` makes itself.
pub data EventError : Type 0 where
  unexpected_length : (received expected : ℕ) → EventError

-- `EventPlay32.UnmarshalBytes`, with the event that it leaves. `binary.Read` fails only where bytes are
-- missing, and here none are.
unfoldable pub unmarshal_bytes : EventPlay32 → Bytes → EventPlay32 × Option EventError
unmarshal_bytes e p =
    if length p == header_size + 128
    then (
      record {
        header = read_event_header (take header_size p);
        event_data =
            read_data (read_event_header (take header_size p)).event_id (drop header_size p);
      },
      none,
    )
    else (e, some (unexpected_length (length p) (header_size + 128)))

pub unmarshal_bytes_reads :
    (e : EventPlay32) (p : Bytes)
    → (length p == 160) ≡ true
    → unmarshal_bytes e p ≡ (
      record {
        header = read_event_header (take 32 p);
        event_data = read_data (read_event_header (take 32 p)).event_id (drop 32 p);
      },
      none,
    )
unfolding unmarshal_bytes
unmarshal_bytes_reads e p h = rw h refl

pub unmarshal_bytes_refuses :
    (e : EventPlay32) (p : Bytes)
    → (length p == 160) ≡ false
    → unmarshal_bytes e p ≡ (e, some (unexpected_length (length p) 160))
unfolding unmarshal_bytes
unmarshal_bytes_refuses e p h = rw h refl
