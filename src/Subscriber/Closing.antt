-- ===== src/Subscriber/Closing.antt =====
-- `WithOpcodes`, and what `Close` leaves.
use zanarkand.Prelude.{
  ℕ, ◌≡◌, ◌≢◌, refl, sym, ap, ◌∙◌, Bool, true, false, Bool-cases, inl, inr, ◌||◌, ◌==◌, ==_iff,
  List, [], ◌∷◌, ◌++◌, if◌then◌else◌, length, ◌+◌, ◌≤◌,
}
use zanarkand.Prelude.Bytes.{Bytes}
use zanarkand.Io.{Reader, size}
use zanarkand.Io.View.{stream}
use zanarkand.Error.{ok, panic}
use zanarkand.Message.{game_event, GameEventMessage, zero_game_event}
use zanarkand.Message.GameEvent.{encode_game_event, GameEventFits, decode_game_event-encode}
use zanarkand.Frame.{Frame}
use zanarkand.Frame.Direction.{FlowDirection, neither, ingress, egress, direction, Ip}
use zanarkand.Subscriber.{
  Opcodes, contains_opcode, with_opcodes, filtered_out, GameEventSubscriber, close,
  close_game_events, received_message, send_event, send_ingress, send_egress, game_event_subscribe,
}

insert-contains :
    (m : Opcodes) (op x : ℕ) (b : Bool)
    → contains_opcode m op ≡ b
    → contains_opcode (if b then m else op ∷ m) x ≡ (op == x || contains_opcode m x)
unfolding contains_opcode
insert-contains m op x false e = refl
insert-contains m op x true e = elim (Bool-cases (op == x)) [
  | inl same ↦ rw same (ap (contains_opcode m) (sym ((==_iff op x).0 same)) ∙ e)
  | inr other ↦ rw other refl
]

-- The filter that `WithOpcodes` sets holds exactly the opcodes that it is given, in any order, however
-- often they are given, and whatever an option before it has set.
with_opcodes-contains :
    (ops : List ℕ) (c : Opcodes) (x : ℕ)
    → contains_opcode (with_opcodes ops c) x ≡ contains_opcode ops x
unfolding with_opcodes contains_opcode
with_opcodes-contains [] c x = refl
with_opcodes-contains (op ∷ ops) c x =
    insert-contains (with_opcodes ops c) op x (contains_opcode (with_opcodes ops c) op) refl
    ∙ ap (λ (b : Bool). op == x || b) (with_opcodes-contains ops c x)

-- Both channels closed, and all else as before.
abbrev pub closed : GameEventSubscriber → GameEventSubscriber
closed g = record g {
  ingress_events = record (g.ingress_events) { closed = true };
  egress_events = record (g.egress_events) { closed = true };
}

send_event-closed :
    (d : FlowDirection) (g : GameEventSubscriber) (m : GameEventMessage) (r : Reader)
    → d ≢ neither
    → send_event d (closed g) m r ≡ (closed g, panic)
unfolding send_event send_ingress send_egress
send_event-closed neither g m r h = absurd (h refl)
send_event-closed ingress g m r h = refl
send_event-closed egress g m r h = refl

-- `Close` of a subscriber with open channels closes both and leaves what was received. A second `Close`
-- panics, and so does the handler on a game event that it is still called with behind `Close`, if the
-- event fits its fields and the buffer, the frame has a direction and the opcodes let the event through.
close_game_events_lem :
    {F : Type 0} (src_ip dst_ip : F → Ip) (f : Frame F) (g : GameEventSubscriber)
    (m : GameEventMessage) (rest : Bytes) (r : Reader)
    → g.ingress_events.closed ≡ false
    → g.egress_events.closed ≡ false
    → GameEventFits m
    → m.header.segment ≡ game_event
    → 16 + length m.body ≤ size r
    → stream r ≡ encode_game_event m ++ rest
    → direction src_ip dst_ip f ≢ neither
    → filtered_out g.opcodes m.opcode ≡ false
    → (close_game_events g ≡ ok (closed g))
      × (close_game_events (closed g) ≡ panic)
      × (game_event_subscribe src_ip dst_ip (closed g) f m.header r ≡ (closed g, panic))
unfolding close_game_events close game_event_subscribe received_message
close_game_events_lem src_ip dst_ip f g m rest r a b fits seg room e dir out =
    let (t, d, left) = decode_game_event-encode m zero_game_event rest r fits room e in
    (
      rw a (rw b refl),
      refl,
      rw ((==_iff m.header.segment game_event).1 seg) (
          rw d (
            rw out (
              send_event-closed (direction src_ip dst_ip f) g
                (record m { padding2 = 0; padding3 = 0 }) t dir))),
    )
