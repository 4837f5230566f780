-- ===== src/Crafting/RoundTrip.antt =====
-- An event as it is written, and `UnmarshalBytes` on it.
use zanarkand.Prelude.{
  ℕ, ◌^◌, ◌<◌, ◌≡◌, sym, ap, ◌∙◌, none, List, [], ◌++◌, length, take, All, arith, ◌==◌, false,
  take-append_eq, drop-append_eq, length-append,
}
use mathlib.Core.Path.{ap₂}
use zanarkand.Prelude.Bytes.{Bytes}
use zanarkand.Crafting.EventPlay.{
  EventPlayHeader, CraftState, EventPlay32, EventPlay32Data, no_data, craft_state, generic_data,
  craft_state_id, words, read_event_header, read_data, unmarshal_bytes,
}
use zanarkand.Crafting.Wire.{
  encode_words, encode_event_header, encode_craft_state, EventHeaderFits, CraftStateFits,
  words-encode, length-encode_words, read_event_header-encode, length-encode_event_header,
  read_craft_state-encode, length-encode_craft_state,
}

unfoldable pub encode_data : EventPlay32Data → Bytes
encode_data no_data = []
encode_data (craft_state s) = encode_craft_state s
encode_data (generic_data ws) = encode_words ws

-- The data that goes with an event's number.
pub data DataFits (id : ℕ) : EventPlay32Data → Type 0 where
  craft_state_fits :
      (s : CraftState) → id ≡ craft_state_id → CraftStateFits s → DataFits id (craft_state s)
  generic_fits :
      (ws : List ℕ)
      → (id == craft_state_id) ≡ false
      → length ws ≡ 32
      → All (λ (n : ℕ). n < 2 ^ 32) ws
      → DataFits id (generic_data ws)

unfoldable pub encode_event : EventPlay32 → Bytes
unfolding encode_data
encode_event e = encode_event_header e.header ++ encode_data e.event_data

data_length : (id : ℕ) (d : EventPlay32Data) → DataFits id d → length (encode_data d) ≡ 128
unfolding encode_data
data_length id _ (craft_state_fits s i f) = length-encode_craft_state s f
data_length id _ (generic_fits ws i l f) = omega (arith, length-encode_words ws)

read_data-encode : (id : ℕ) (d : EventPlay32Data) → DataFits id d → read_data id (encode_data d) ≡ d
unfolding encode_data
read_data-encode id _ (craft_state_fits s i f) = rw i (ap craft_state (read_craft_state-encode s f))
read_data-encode id _ (generic_fits ws i l f) =
    rw i (ap generic_data (ap (λ (k : ℕ). words k (encode_words ws)) (sym l) ∙ words-encode ws f))

-- `UnmarshalBytes` reads back a written event, a crafting state where the event's number says so and 32
-- numbers else, whatever the event held before.
pub unmarshal_bytes-encode :
    (e old : EventPlay32)
    → EventHeaderFits e.header
    → DataFits e.header.event_id e.event_data
    → unmarshal_bytes old (encode_event e) ≡ (e, none)
unfolding unmarshal_bytes encode_event
unmarshal_bytes-encode e old f g =
    let front : Bytes = encode_event_header e.header in
    let back : Bytes = encode_data e.event_data in
    let n : length front ≡ 32 = length-encode_event_header e.header f in
    let whole : length (front ++ back) ≡ 160 =
      omega (arith, length-append front back, data_length e.header.event_id e.event_data g) in
    let h : read_event_header (take 32 (front ++ back)) ≡ e.header =
      ap read_event_header (take-append_eq 32 front back (sym n))
      ∙ read_event_header-encode e.header f in
    rw whole (λ i. (
      record {
        header = h i;
        event_data =
            (ap₂ (λ (k : EventPlayHeader) (p : Bytes). read_data k.event_id p) h
                  (drop-append_eq 32 front back (sym n))
                ∙ read_data-encode e.header.event_id e.event_data g)
              i;
      },
      none,
    ))
