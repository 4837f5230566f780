-- ===== src/Crafting/Main.antt =====
-- examples/craft_state/main.go: what it does with a message, and the JSON of a crafting state as a record
-- of the values that are printed.
use zanarkand.Prelude.{ℕ, Bool, Option, none, some, List, [], ◌∷◌, ◌++◌, map, ◌==◌, if◌then◌else◌}
use zanarkand.Prelude.Int.{ℤ}
use zanarkand.Prelude.Bytes.{Bytes}
use zanarkand.Message.{GameEventMessage}
use zanarkand.Sniffer.Config.{Openers, pcap, new_sniffer}
use zanarkand.Console.{Texts, Program, Received, Ending, fake_main}
use zanarkand.Prelude.Format.{codes}
use zanarkand.Prelude.Radix.{decimal, show}
use zanarkand.Crafting.Names.{action_name, condition_name}
use zanarkand.Crafting.EventPlay.{
  EventPlayHeader, CraftState, EventPlay32, EventPlay32Data, EventError, unexpected_length, no_data,
  craft_state, generic_data, craft_state_id, zero_event_play, unmarshal_bytes,
}

-- `OpcodeEventPlay32`
abbrev pub opcode_event_play32 : ℕ
opcode_event_play32 = 0x03AF

pub record EventHeaderJson : Type 0 where
  pub actor_id : ℕ
  pub event_id : ℕ
  pub scene : ℕ
  pub flags : ℕ
  pub p1 : ℕ
  pub param_count : ℕ
  pub p2 : ℕ

pub record CraftStateJson : Type 0 where
  pub action_id : Bytes
  pub current_condition : Bytes
  pub previous_condition : Bytes
  pub step : ℕ
  pub progress : ℕ
  pub progress_diff : ℤ
  pub quality : ℕ
  pub quality_diff : ℤ
  pub hq_chance : ℕ
  pub durability : ℕ
  pub durability_diff : ℤ

-- What the tags of `EventPlayHeader` leave.
abbrev pub event_header_json : EventPlayHeader → EventHeaderJson
event_header_json h = record {
  actor_id = h.actor_id;
  event_id = h.event_id;
  scene = h.scene;
  flags = h.flags;
  p1 = h.p1;
  param_count = h.param_count;
  p2 = h.p2;
}

-- `CraftState.MarshalJSON`
abbrev pub craft_state_json : CraftState → CraftStateJson
craft_state_json s = record {
  action_id = action_name s.action_id;
  current_condition = condition_name s.current_condition;
  previous_condition = condition_name s.previous_condition;
  step = s.step;
  progress = s.progress;
  progress_diff = s.progress_diff;
  quality = s.quality;
  quality_diff = s.quality_diff;
  hq_chance = s.hq_chance;
  durability = s.durability;
  durability_diff = s.durability_diff;
}

-- What is logged of a message, with what its text is made of.
pub data Log : Type 0 where
  unmarshalling_error : EventError → Log
  crafted : EventHeaderJson → CraftStateJson → Log
  not_validated : Log

-- The texts, where `marshal` is what encoding/json makes of the event's header and its state.
unfoldable pub log_text : (EventHeaderJson → CraftStateJson → Bytes) → Log → Bytes
log_text marshal (unmarshalling_error (unexpected_length n m)) =
    codes "Error unmarshalling event data: unexpected length: received "
    ++ (show decimal n ++ (codes ", expected " ++ show decimal m))
log_text marshal (crafted h s) = marshal h s
log_text marshal not_validated = codes "Unable to validate Event type"

abbrev error_log : Option EventError → List Log
error_log none = []
error_log (some e) = unmarshalling_error e ∷ []

-- The type assertion on `event.Data`.
abbrev state_log : EventPlayHeader → EventPlay32Data → List Log
state_log h (craft_state s) = crafted (event_header_json h) (craft_state_json s) ∷ []
state_log h (generic_data ws) = not_validated ∷ []
state_log h no_data = not_validated ∷ []

-- The event after `UnmarshalBytes`; the program goes on with it behind an error too.
abbrev event_log : EventPlay32 × Option EventError → List Log
event_log (e, err) =
    error_log err
    ++ (if e.header.event_id == craft_state_id then state_log e.header e.event_data else [])

-- The case of a message from `IngressEvents`.
unfoldable pub handle_ingress : GameEventMessage → List Log
handle_ingress m =
    if m.opcode == opcode_event_play32
    then event_log (unmarshal_bytes zero_event_play m.body)
    else []

-- What the program says, and the cases of the select for messages: those to the server are passed over.
unfoldable pub crafting : (EventHeaderJson → CraftStateJson → Bytes) → Program
unfolding handle_ingress log_text
crafting marshal = record {
  starting = codes "Starting sniffer on interface";
  stopped = codes "Stopped active sniffer";
  on_ingress = λ m. map (log_text marshal) (handle_ingress m);
  on_egress = λ m. [];
}

-- The program for its flag, with the functions that open a device.
unfoldable pub craft_program :
    {H : Type 0}
    → Texts
    → (EventHeaderJson → CraftStateJson → Bytes)
    → Openers H
    → Bytes
    → Bool
    → List Received
    → List Bytes × Ending
unfolding crafting
craft_program t marshal dev inet active rs =
    fake_main t (crafting marshal) inet (new_sniffer dev pcap inet []) active rs
