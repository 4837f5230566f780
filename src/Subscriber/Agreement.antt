-- ===== src/Subscriber/Agreement.antt =====
-- `GameEventHandler` is `GameEventSubscriber` with a callback: it calls it with the messages that the
-- subscriber sends, in the same order on each channel, and ends alike.
use zanarkand.Message.{
  KeepaliveMessage, zero_keepalive, decode_keepalive, game_event, GameEventMessage, zero_game_event,
  decode_game_event,
}
use zanarkand.Subscriber.{
  Channel, KeepaliveHandler, is_keepalive, keepalive_handle, keepalive_subscribe, filtered_out,
  GameEventSubscriber, GameEventHandler, received_message, send_event, send_ingress, send_egress,
  call_back, game_event_subscribe, game_event_handle,
}
use zanarkand.Prelude.{
  Bool-cases, inl, inr, ℕ, ◌≡◌, refl, ap, Bool, true, false, List, [], ◌∷◌, ◌++◌, ◌==◌,
  if◌then◌else◌,
}
use zanarkand.Io.{Reader}
use zanarkand.Error.{Outcome, ok, err, panic}
use zanarkand.Frame.Direction.{FlowDirection, neither, ingress, egress, direction, Ip}
use zanarkand.Sniffer.{Reset, Turn, process_frames}
use zanarkand.Sniffer.Simulation.{over, Agrees, process_frames-over}

-- The calls in one direction.
pub events_in : List (GameEventMessage × FlowDirection) → List GameEventMessage
events_in [] = []
events_in ((m, ingress) ∷ cs) = m ∷ events_in cs
events_in ((m, _) ∷ cs) = events_in cs

pub events_out : List (GameEventMessage × FlowDirection) → List GameEventMessage
events_out [] = []
events_out ((m, egress) ∷ cs) = m ∷ events_out cs
events_out ((m, _) ∷ cs) = events_out cs

-- The subscriber whose open channels have given what the callback was called with.
abbrev pub as_subscriber : GameEventHandler → GameEventSubscriber
as_subscriber g = record {
  ingress_events = record { received = events_in g.calls; closed = false };
  egress_events = record { received = events_out g.calls; closed = false };
  opcodes = g.opcodes;
}

module _ (m : GameEventMessage) where
  events_in-ingress :
      (cs : List (GameEventMessage × FlowDirection))
      → events_in (cs ++ (m, ingress) ∷ []) ≡ events_in cs ++ (m ∷ [])
  unfolding events_in
  events_in-ingress [] = refl
  events_in-ingress ((x, neither) ∷ cs) = events_in-ingress cs
  events_in-ingress ((x, ingress) ∷ cs) = ap (◌∷◌ x) (events_in-ingress cs)
  events_in-ingress ((x, egress) ∷ cs) = events_in-ingress cs

  events_in-egress :
      (cs : List (GameEventMessage × FlowDirection))
      → events_in (cs ++ (m, egress) ∷ []) ≡ events_in cs
  unfolding events_in
  events_in-egress [] = refl
  events_in-egress ((x, neither) ∷ cs) = events_in-egress cs
  events_in-egress ((x, ingress) ∷ cs) = ap (◌∷◌ x) (events_in-egress cs)
  events_in-egress ((x, egress) ∷ cs) = events_in-egress cs

  events_out-egress :
      (cs : List (GameEventMessage × FlowDirection))
      → events_out (cs ++ (m, egress) ∷ []) ≡ events_out cs ++ (m ∷ [])
  unfolding events_out
  events_out-egress [] = refl
  events_out-egress ((x, neither) ∷ cs) = events_out-egress cs
  events_out-egress ((x, ingress) ∷ cs) = events_out-egress cs
  events_out-egress ((x, egress) ∷ cs) = ap (◌∷◌ x) (events_out-egress cs)

  events_out-ingress :
      (cs : List (GameEventMessage × FlowDirection))
      → events_out (cs ++ (m, ingress) ∷ []) ≡ events_out cs
  unfolding events_out
  events_out-ingress [] = refl
  events_out-ingress ((x, neither) ∷ cs) = events_out-ingress cs
  events_out-ingress ((x, ingress) ∷ cs) = events_out-ingress cs
  events_out-ingress ((x, egress) ∷ cs) = ap (◌∷◌ x) (events_out-ingress cs)

send_event-call_back :
    (d : FlowDirection) (g : GameEventHandler) (m : GameEventMessage) (r : Reader)
    → send_event d (as_subscriber g) m r ≡ over as_subscriber (call_back d g m r)
unfolding send_event call_back send_ingress send_egress
send_event-call_back neither g m r = refl
send_event-call_back ingress g m r = rw (events_in-ingress m g.calls, events_out-ingress m g.calls)
send_event-call_back egress g m r = rw (events_in-egress m g.calls, events_out-egress m g.calls)

module _ {F : Type 0} (src_ip dst_ip : F → Ip) where
  received-agrees :
      (g : GameEventHandler) (d : FlowDirection) (o : Outcome (GameEventMessage × Reader))
      → received_message (as_subscriber g) o (λ m r'.
        if filtered_out g.opcodes m.opcode
        then (as_subscriber g, ok r')
        else send_event d (as_subscriber g) m r')
        ≡ over as_subscriber (
            received_message
              (record g { msg = zero_game_event })
              o
              (λ m r'.
                if filtered_out g.opcodes m.opcode
                then (record g { msg = m }, ok r')
                else call_back d (record g { msg = m }) m r'))
  unfolding received_message
  received-agrees g d (ok (m, r)) = by_filter (filtered_out g.opcodes m.opcode)
    where
      by_filter :
          (b : Bool)
          → (if b then (as_subscriber g, ok r) else send_event d (as_subscriber g) m r)
            ≡ over as_subscriber
                (if b then (record g { msg = m }, ok r) else call_back d (record g { msg = m }) m r)
      by_filter true = refl
      by_filter false = send_event-call_back d (record g { msg = m }) m r
  received-agrees g d (err e) = refl
  received-agrees g d panic = refl

  handler-Agrees :
      Agrees as_subscriber (game_event_handle src_ip dst_ip) (game_event_subscribe src_ip dst_ip)
  unfolding game_event_handle game_event_subscribe
  handler-Agrees g f h r = elim (Bool-cases (h.segment == game_event)) [
    | inl yes_event ↦
        rw yes_event
          (received-agrees g (direction src_ip dst_ip f) (decode_game_event zero_game_event r))
    | inr other ↦ rw other refl
  ]

  -- Over any schedule `GameEventHandler` calls its callback with the messages that
  -- `GameEventSubscriber` sends on its open channels, in the same order in each direction, and
  -- `ProcessFrames` ends alike.
  pub process_frames-agree :
      (z : F) (reset : Reset) (started : Bool) (ts : List (Turn F)) (pool : ℕ)
      (g : GameEventHandler)
      → process_frames z reset
          (game_event_subscribe src_ip dst_ip)
          started
          pool
          (as_subscriber g)
          ts
        ≡ over as_subscriber
            (process_frames z reset (game_event_handle src_ip dst_ip) started pool g ts)
  process_frames-agree z reset =
      process_frames-over as_subscriber (game_event_handle src_ip dst_ip)
        (game_event_subscribe src_ip dst_ip) handler-Agrees z reset

-- The subscriber whose open channel has given what the callback was called with.
abbrev pub as_channel : KeepaliveHandler → Channel KeepaliveMessage
as_channel k = record { received = k.calls; closed = false }

keepalive-Agrees : {F : Type 0} → Agrees {F = F} as_channel keepalive_handle keepalive_subscribe
unfolding keepalive_handle keepalive_subscribe received_message
keepalive-Agrees k f h r = elim (Bool-cases (is_keepalive h)) [
  | inl hit ↦ rw hit (by_outcome (decode_keepalive r))
  | inr miss ↦ rw miss refl
]
  where
    by_outcome :
        (o : Outcome (KeepaliveMessage × Reader))
        → received_message
            (as_channel k)
            o
            (λ m r'. (record { received = k.calls ++ (m ∷ []); closed = false }, ok r'))
          ≡ over as_channel (
              received_message
                (record k { msg = zero_keepalive })
                o
                (λ m r'. (record { calls = k.calls ++ (m ∷ []); msg = m }, ok r')))
    by_outcome (ok (m, t)) = refl
    by_outcome (err e) = refl
    by_outcome panic = refl

-- Over any schedule `KeepaliveHandler` calls its callback with the keepalives that
-- `KeepaliveSubscriber` sends on its open channel, in the same order, and `ProcessFrames` ends alike.
process_frames-agree_keepalive :
    {F : Type 0} (z : F) (reset : Reset) (started : Bool) (ts : List (Turn F)) (pool : ℕ)
    (k : KeepaliveHandler)
    → process_frames z reset keepalive_subscribe started pool (as_channel k) ts
      ≡ over as_channel (process_frames z reset keepalive_handle started pool k ts)
process_frames-agree_keepalive z reset =
    process_frames-over as_channel keepalive_handle keepalive_subscribe keepalive-Agrees z reset
