-- ===== src/Tests/Crafting.antt =====
-- The crafting program.
use zanarkand.Prelude.{ℕ, ◌≡◌, refl, none, List, [], ◌∷◌, replicate, arith}
use zanarkand.Prelude.Int.{pos, negsuc}
use zanarkand.Prelude.Format.{codes}
use zanarkand.Crafting.Names.{action_name}
use zanarkand.Crafting.EventPlay.{
  CraftState, EventPlay32, craft_state, craft_state_id, zero_event_play, unmarshal_bytes,
}
use zanarkand.Crafting.Wire.{EventHeaderFits, CraftStateFits}
use zanarkand.Crafting.RoundTrip.{craft_state_fits, encode_event, unmarshal_bytes-encode}
use zanarkand.Sniffer.{stopped}
use zanarkand.Prelude.Bytes.{Bytes}
use zanarkand.Sniffer.Config.{NewSniffer}
use zanarkand.Console.{Texts, Received, ingress, egress, signal}
use zanarkand.Crafting.Main.{EventHeaderJson, CraftStateJson}
use zanarkand.Tests.Data.{event}

abbrev state : CraftState
state = record {
  u1 = 1;
  u3 = 0;
  u4 = 0;
  action_id = 100001;
  u2 = 0;
  step = 2;
  progress = 300;
  progress_diff = pos 120;
  quality = 40;
  quality_diff = negsuc 4;
  hq_chance = 1;
  durability = 60;
  durability_diff = negsuc 9;
  current_condition = 2;
  previous_condition = 9;
  u6 = replicate 17 6;
}

abbrev craft_event : EventPlay32
craft_event = record {
  header = record {
    actor_id = 1;
    event_id = craft_state_id;
    scene = 3;
    pad1 = 0;
    flags = 5;
    p1 = 0;
    param_count = 24;
    pad2 = 0 ∷ 0 ∷ 0 ∷ [];
    p2 = 0;
  };
  event_data = craft_state state;
}

header_fits : EventHeaderFits craft_event.header
header_fits = record {
  actor_fits = omega arith;
  event_fits = omega arith;
  scene_fits = omega arith;
  pad1_fits = omega arith;
  flags_fits = omega arith;
  p1_fits = omega arith;
  count_fits = omega arith;
  pad2_fits = refl;
  p2_fits = omega arith;
}

state_fits : CraftStateFits state
state_fits = record {
  u1_fits = omega arith;
  u3_fits = omega arith;
  u4_fits = omega arith;
  action_fits = omega arith;
  u2_fits = omega arith;
  step_fits = omega arith;
  progress_fits = omega arith;
  progress_diff_fits = omega arith;
  quality_fits = omega arith;
  quality_diff_fits = omega arith;
  hq_chance_fits = omega arith;
  durability_fits = omega arith;
  durability_diff_fits = omega arith;
  current_fits = omega arith;
  previous_fits = omega arith;
  u6_fits = omega arith;
  u6_length = refl;
}

unmarshal_bytes-encode_example :
    unmarshal_bytes zero_event_play (encode_event craft_event) ≡ (craft_event, none)
unmarshal_bytes-encode_example =
    unmarshal_bytes-encode craft_event zero_event_play header_fits
      (craft_state_fits state refl state_fits)

basic_synthesis : action_name 100001 ≡ codes "Basic Synthesis"
unfolding action_name
basic_synthesis = refl

-- An event, a message of the client, and a signal.
abbrev things : List Received
things = ingress (record event { body = encode_event craft_event }) ∷ egress event ∷ signal 15 ∷ []

-- `en0`
abbrev interface : Bytes
interface = b'e' ∷ b'n' ∷ b'0' ∷ []

abbrev made : NewSniffer ℕ
made = record { state = stopped; data_capacity = 200; err_capacity = 1; handle = 2 }

abbrev texts : Texts
texts = record {
  errors = record { io_text = λ e. codes "EOF"; foreign_text = λ n. codes "error" };
  signal_text = λ n. codes "terminated";
}

abbrev marshal : EventHeaderJson → CraftStateJson → Bytes
marshal h s = codes "{}"
