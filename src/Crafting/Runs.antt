-- ===== src/Crafting/Runs.antt =====
-- What examples/craft_state/main.go logs.
use zanarkand.Prelude.{
  ℕ, ◌≡◌, Bool, map, true, false, List, [], ◌∷◌, ◌++◌, ◌==◌, length, take, drop,
}
use zanarkand.Message.{GameEventMessage}
use zanarkand.Crafting.EventPlay.{
  unexpected_length, craft_state_id, read_event_header, read_craft_state,
}
use zanarkand.Crafting.Main.{
  opcode_event_play32, EventHeaderJson, CraftStateJson, event_header_json, craft_state_json, Log,
  unmarshalling_error, crafted, log_text,
}
use zanarkand.Error.{Error}
use zanarkand.Error.Printed.{error_text}
use zanarkand.Prelude.Bytes.{Bytes}
use zanarkand.Prelude.Format.{codes}
use zanarkand.Console.{
  Texts, Received, ingress, egress, failed, signal, Ending, waiting, exited, returned,
}

-- What a message from `IngressEvents` has to be for what is logged.
pub data Logged (m : GameEventMessage) : List Log → Type 0 where
  other_opcode : (m.opcode == opcode_event_play32) ≡ false → Logged m []
  bad_length :
      m.opcode ≡ opcode_event_play32
      → (length m.body == 160) ≡ false
      → Logged m (unmarshalling_error (unexpected_length (length m.body) 160) ∷ [])
  a_craft :
      m.opcode ≡ opcode_event_play32
      → length m.body ≡ 160
      → (read_event_header (take 32 m.body)).event_id ≡ craft_state_id
      → Logged m (
          crafted
            (event_header_json (read_event_header (take 32 m.body)))
            (craft_state_json (read_craft_state (drop 32 m.body)))
          ∷ [])
  other_event :
      m.opcode ≡ opcode_event_play32
      → length m.body ≡ 160
      → ((read_event_header (take 32 m.body)).event_id == craft_state_id) ≡ false
      → Logged m []

module _ (t : Texts) (marshal : EventHeaderJson → CraftStateJson → Bytes) where
  -- A run of the loop: messages of the server are logged in the order they come in, messages to it are not,
  -- and the first signal or error of `Subscribe` ends the loop with its text.
  pub data Ran : List Received → List Bytes → Ending → Type 0 where
    waits : Ran [] [] waiting
    shown :
        {m : GameEventMessage} {rs : List Received} {now : List Log} {later : List Bytes}
        {end : Ending}
        → Logged m now
        → Ran rs later end
        → Ran (ingress m ∷ rs) (map (log_text marshal) now ++ later) end
    skipped :
        {m : GameEventMessage} {rs : List Received} {ls : List Bytes} {end : Ending}
        → Ran rs ls end
        → Ran (egress m ∷ rs) ls end
    ended :
        (e : Error) (rs : List Received)
        → Ran (failed e ∷ rs) (error_text t.errors e ∷ []) (exited 1)
    caught :
        (n : ℕ) (rs : List Received)
        → Ran
            (signal n ∷ rs)
            ((codes "Received " ++ (t.signal_text n ++ codes " signal")) ∷ [])
            (returned 0)

  -- What the program says when it has closed its sniffer: only behind a signal, and where it is active.
  abbrev pub farewell : Bool → Ending → List Bytes
  farewell true (returned n) = codes "Stopped active sniffer" ∷ []
  farewell active end = []
