-- ===== src/Subscriber/Delivery.antt =====
-- subscriber_gameevent.go: `Subscribe` in its goroutine, the unbuffered channels that it sends on, and
-- what reads and closes them, in any order of their steps. A send on an unbuffered channel is done when
-- a receiver takes the value; a channel that is closed while a send waits makes that send panic.
pub mod Order
pub mod Blocked
pub mod Progress
use zanarkand.Prelude.{ℕ, ◌≡◌, ◌≢◌, Bool, true, false, List, [], ◌∷◌, ◌++◌}
use zanarkand.Io.{Reader}
use zanarkand.Message.{GameEventMessage}
use zanarkand.Frame.Direction.{FlowDirection, neither, ingress, egress}
use zanarkand.Subscriber.{
  Channel, Opcodes, GameEventSubscriber, new_game_event_subscriber, filtered_out, send_event,
}

-- Where the goroutine of `Subscribe` is: in `ProcessFrames` with no message to send, at a send, back, or in
-- a panic.
pub data Sender : Type 0 where
  working : Sender
  sending : FlowDirection → GameEventMessage → Sender
  ended panicked : Sender

-- `decoded` are the messages that the handler has come to send, with the directions of their frames.
pub record Delivery : Type 0 where
  pub subscriber : GameEventSubscriber
  pub sender : Sender
  pub decoded : List (FlowDirection × GameEventMessage)
  pub stopped : Bool

abbrev pub new_delivery : Opcodes → Delivery
new_delivery ops = record {
  subscriber = new_game_event_subscriber ops;
  sender = working;
  decoded = [];
  stopped = false;
}

-- Whether the channel of a direction is closed.
abbrev pub is_closed : FlowDirection → GameEventSubscriber → Bool
is_closed ingress g = g.ingress_events.closed
is_closed egress g = g.egress_events.closed
is_closed neither g = false

-- `reads` tells which of the channels the program receives from.
pub data Step (reads : FlowDirection → Bool) (s : Delivery) : Delivery → Type 0 where
  -- The handler decodes a message that the filter lets through, and comes to its send.
  decode :
      (d : FlowDirection) (m : GameEventMessage)
      → s.sender ≡ working
      → d ≢ neither
      → filtered_out s.subscriber.opcodes m.opcode ≡ false
      → Step reads s (record s { sender = sending d m; decoded = s.decoded ++ ((d, m) ∷ []) })
  -- A receiver takes the message.
  deliver :
      (d : FlowDirection) (m : GameEventMessage) (r : Reader)
      → s.sender ≡ sending d m
      → reads d ≡ true
      → is_closed d s.subscriber ≡ false
      → Step reads s (record s { sender = working; subscriber = (send_event d s.subscriber m r).0 })
  -- A send on a closed channel.
  panic_send :
      (d : FlowDirection) (m : GameEventMessage)
      → s.sender ≡ sending d m
      → is_closed d s.subscriber ≡ true
      → Step reads s (record s { sender = panicked })
  -- `ProcessFrames` returns.
  finish : s.sender ≡ working → Step reads s (record s { sender = ended })
  -- `Close`: `s.Stop()`, and the two channels in this order.
  stop : Step reads s (record s { stopped = true })
  close_ingress :
      s.stopped ≡ true
      → s.subscriber.ingress_events.closed ≡ false
      → Step reads s (record s {
        subscriber = record (s.subscriber) {
          ingress_events = record (s.subscriber.ingress_events) { closed = true };
        };
      })
  close_egress :
      s.subscriber.ingress_events.closed ≡ true
      → s.subscriber.egress_events.closed ≡ false
      → Step reads s (record s {
        subscriber = record (s.subscriber) {
          egress_events = record (s.subscriber.egress_events) { closed = true };
        };
      })

pub data Reach (reads : FlowDirection → Bool) (ops : Opcodes) : Delivery → Type 0 where
  start : Reach reads ops (new_delivery ops)
  next : {s t : Delivery} → Reach reads ops s → Step reads s t → Reach reads ops t

-- Any number of steps.
pub data Steps (reads : FlowDirection → Bool) (s : Delivery) : Delivery → Type 0 where
  here : Steps reads s s
  then_step : {t u : Delivery} → Steps reads s t → Step reads t u → Steps reads s u
