-- ===== src/Subscriber/Delivery/Progress.antt =====
-- A subscriber whose channels are both read.
use zanarkand.Prelude.{◌≡◌, ◌≢◌, refl, Bool, true, false, List, [], ◌∷◌, ◌++◌}
use zanarkand.Io.{Reader}
use zanarkand.Message.{GameEventMessage}
use zanarkand.Frame.Direction.{FlowDirection, neither, ingress, egress}
use zanarkand.Subscriber.{Opcodes, GameEventSubscriber, new_game_event_subscriber, send_event}
use zanarkand.Subscriber.Delivery.{
  working, sending, Delivery, is_closed, Step, decode, deliver, panic_send, finish, stop,
  close_ingress, close_egress, Reach, start, next,
}

-- The channels are open until the sniffer is stopped, and a message that waits has a channel.
record IsOpen (s : Delivery) : Type 0 where
  open_channels : (d : FlowDirection) → s.stopped ≡ false → is_closed d s.subscriber ≡ false
  sided : (d : FlowDirection) (m : GameEventMessage) → s.sender ≡ sending d m → d ≢ neither

-- A send closes nothing.
send_event-is_closed :
    (e d : FlowDirection) (g : GameEventSubscriber) (m : GameEventMessage) (r : Reader)
    → is_closed d g ≡ false
    → is_closed e g ≡ false
    → is_closed e (send_event d g m r).0 ≡ false
unfolding send_event
send_event-is_closed ingress ingress g m r h k = rw h refl
send_event-is_closed egress ingress g m r h k = rw h k
send_event-is_closed neither ingress g m r h k = refl
send_event-is_closed ingress egress g m r h k = rw h k
send_event-is_closed egress egress g m r h k = rw h refl
send_event-is_closed neither egress g m r h k = refl
send_event-is_closed e neither g m r h k = k

-- What the channel of a direction has given.
abbrev pub received_on : FlowDirection → GameEventSubscriber → List GameEventMessage
received_on ingress g = g.ingress_events.received
received_on egress g = g.egress_events.received
received_on neither g = []

send_event-received_on :
    (d : FlowDirection) (g : GameEventSubscriber) (m : GameEventMessage) (r : Reader)
    → d ≢ neither
    → is_closed d g ≡ false
    → received_on d (send_event d g m r).0 ≡ received_on d g ++ (m ∷ [])
unfolding send_event
send_event-received_on ingress g m r n h = rw h refl
send_event-received_on egress g m r n h = rw h refl
send_event-received_on neither g m r n h = absurd (n refl)

new_is_closed :
    (ops : Opcodes) (d : FlowDirection) → is_closed d (new_game_event_subscriber ops) ≡ false
new_is_closed ops ingress = refl
new_is_closed ops egress = refl
new_is_closed ops neither = refl

module _ {reads : FlowDirection → Bool} where
  Step-IsOpen : {s t : Delivery} → Step reads s t → IsOpen s → IsOpen t
  Step-IsOpen (decode d m e dir pass) h = record {
    open_channels = h.open_channels;
    sided = λ c n q x. dir cc;
  }
  Step-IsOpen {s} (deliver d m r e read c) h = record {
    open_channels = λ k q. send_event-is_closed k d s.subscriber m r c (h.open_channels k q);
    sided = λ k n q. cc;
  }
  Step-IsOpen (panic_send d m e c) h = record {
    open_channels = h.open_channels;
    sided = λ k n q. cc;
  }
  Step-IsOpen (finish e) h = record { open_channels = h.open_channels; sided = λ k n q. cc }
  Step-IsOpen stop h = record { open_channels = λ k q. cc; sided = h.sided }
  Step-IsOpen (close_ingress x y) h = record { open_channels = λ k q. cc; sided = h.sided }
  Step-IsOpen (close_egress x y) h = record {
    open_channels = λ k q. cc (x, h.open_channels ingress q);
    sided = h.sided;
  }

  Reach-IsOpen : {ops : Opcodes} {s : Delivery} → Reach reads ops s → IsOpen s
  Reach-IsOpen {ops} start = record {
    open_channels = λ d q. new_is_closed ops d;
    sided = λ d m q. cc;
  }
  Reach-IsOpen (next r st) = Step-IsOpen st (Reach-IsOpen r)

  -- Where the program reads both channels, no message is stuck before the sniffer is stopped: however
  -- `Subscribe`, the receivers and `Close` came to a send, the message can be received on the channel of
  -- its direction, behind all that was received there, and `Subscribe` goes on.
  pub Reach-delivers :
      {ops : Opcodes} {s : Delivery} (d : FlowDirection) (m : GameEventMessage) (r : Reader)
      → Reach reads ops s
      → ((e : FlowDirection) → e ≢ neither → reads e ≡ true)
      → s.stopped ≡ false
      → s.sender ≡ sending d m
      → (t : Delivery) × Step reads s t
        × (t.sender ≡ working)
        × (received_on d t.subscriber ≡ received_on d s.subscriber ++ (m ∷ []))
  Reach-delivers {s} d m r reached all running e =
      let h = Reach-IsOpen reached in
      let side : d ≢ neither = h.sided d m e in
      let opened : is_closed d s.subscriber ≡ false = h.open_channels d running in
      (
        _,
        deliver d m r e (all d side) opened,
        refl,
        send_event-received_on d s.subscriber m r side opened,
      )
