-- ===== src/Subscriber.antt =====
-- subscriber.go, subscriber_gameevent.go and subscriber_keepalive.go: the handlers that the subscribers
-- pass to `ProcessFrames`. An unbuffered channel is the list of what has been received from it; a send
-- waits for its receiver, so nothing is lost or reordered.
pub mod GameEvents
pub mod Agreement
pub mod Keepalives
pub mod Closing
pub mod Delivery
pub mod Subscribe
pub mod Pipeline
use zanarkand.Prelude.{
  ℕ, zero, suc, Bool, true, false, not, ◌&&◌, ◌||◌, Option, none, some, List, [], ◌∷◌, ◌++◌, ◌==◌,
  ltb, if◌then◌else◌, length,
}
use zanarkand.Io.{Reader}
use zanarkand.Error.{Error, unexpected_direction, text, decoding_failure, Outcome, ok, err, panic}
use zanarkand.Message.{
  GenericHeader, game_event, server_ping, server_pong, GameEventMessage, zero_game_event,
  decode_game_event, KeepaliveMessage, zero_keepalive, decode_keepalive,
}
use zanarkand.Frame.{Frame}
use zanarkand.Frame.Direction.{FlowDirection, neither, ingress, egress, direction, Ip}
use zanarkand.Sniffer.{FrameHandler}

-- A channel that may be closed. A send on a closed channel panics.
pub record Channel (A : Type 0) : Type 0 where
  pub received : List A
  pub closed : Bool

abbrev pub new_channel : {A : Type 0} → Channel A
new_channel = record { received = []; closed = false }

-- `close`, which panics on a closed channel.
unfoldable pub close : {A : Type 0} → Channel A → Outcome (Channel A)
close c = if c.closed then panic else ok (record c { closed = true })

-- The opcodes of `gameEventConfig`, a map used as a set. With no option it is nil, of length 0.
abbrev pub Opcodes : Type 0
Opcodes = List ℕ

pub contains_opcode : Opcodes → ℕ → Bool
contains_opcode [] op = false
contains_opcode (x ∷ xs) op = x == op || contains_opcode xs op

-- `WithOpcodes`: a new map, so the last option wins; an opcode given twice is there once.
unfoldable pub with_opcodes : List ℕ → Opcodes → Opcodes
unfolding contains_opcode
with_opcodes [] c = []
with_opcodes (op ∷ ops) c = let m = with_opcodes ops c in if contains_opcode m op then m else op ∷ m

-- `if len(g.opcodes) > 0 { if _, ok := g.opcodes[msg.Opcode]; !ok { return nil } }`
unfoldable pub filtered_out : Opcodes → ℕ → Bool
unfolding contains_opcode
filtered_out ops op = ltb 0 (length ops) && not (contains_opcode ops op)

pub record GameEventSubscriber : Type 0 where
  pub ingress_events : Channel GameEventMessage
  pub egress_events : Channel GameEventMessage
  pub opcodes : Opcodes

abbrev pub new_game_event_subscriber : Opcodes → GameEventSubscriber
new_game_event_subscriber ops = record {
  ingress_events = new_channel;
  egress_events = new_channel;
  opcodes = ops;
}

-- What a handler returns for an error of `Decode`, and what it goes on with.
received_message :
    {A S : Type 0}
    → S
    → Outcome (A × Reader)
    → (A → Reader → S × Outcome Reader)
    → S × Outcome Reader
received_message s (ok (m, r)) next = next m r
received_message s (err e) next = (s, err (decoding_failure e))
received_message s panic next = (s, panic)

send_ingress :
    GameEventSubscriber → GameEventMessage → Reader → GameEventSubscriber × Outcome Reader
send_ingress g m r = if g.ingress_events.closed then (g, panic) else (
  record g {
    ingress_events = record (g.ingress_events) { received = g.ingress_events.received ++ (m ∷ []) };
  },
  ok r,
)

send_egress : GameEventSubscriber → GameEventMessage → Reader → GameEventSubscriber × Outcome Reader
send_egress g m r = if g.egress_events.closed then (g, panic) else (
  record g {
    egress_events = record (g.egress_events) { received = g.egress_events.received ++ (m ∷ []) };
  },
  ok r,
)

-- The switch on the frame's direction.
unfoldable pub send_event :
    FlowDirection
    → GameEventSubscriber
    → GameEventMessage
    → Reader
    → GameEventSubscriber × Outcome Reader
unfolding send_ingress send_egress
send_event ingress g m r = send_ingress g m r
send_event egress g m r = send_egress g m r
send_event neither g m r = (g, err (decoding_failure (text unexpected_direction)))

-- `GameEventHandler` with the log of its callback's calls. The callback gets the handler's own message,
-- whose value at the call is recorded; `Reset` clears it before each `Decode`.
pub record GameEventHandler : Type 0 where
  pub calls : List (GameEventMessage × FlowDirection)
  pub opcodes : Opcodes
  pub msg : GameEventMessage

abbrev pub new_game_event_handler : Opcodes → GameEventHandler
new_game_event_handler ops = record { calls = []; opcodes = ops; msg = zero_game_event }

call_back :
    FlowDirection → GameEventHandler → GameEventMessage → Reader → GameEventHandler × Outcome Reader
call_back neither g m r = (g, err (decoding_failure (text unexpected_direction)))
call_back d g m r = (record g { calls = g.calls ++ ((m, d) ∷ []) }, ok r)

module _ {F : Type 0} (src_ip dst_ip : F → Ip) where
  -- The function that `GameEventSubscriber.Subscribe` gives to `ProcessFrames`.
  pub game_event_subscribe : FrameHandler F GameEventSubscriber
  game_event_subscribe g f h r =
      if not (h.segment == game_event)
      then (g, ok r)
      else received_message g (decode_game_event zero_game_event r) (λ m r'.
        if filtered_out g.opcodes m.opcode
        then (g, ok r')
        else send_event (direction src_ip dst_ip f) g m r')

  -- The function of `GameEventHandler.Subscribe`.
  pub game_event_handle : FrameHandler F GameEventHandler
  game_event_handle g f h r =
      if not (h.segment == game_event)
      then (g, ok r)
      else received_message (record g { msg = zero_game_event })
          (decode_game_event zero_game_event r)
          (λ m r'.
            let g' = record g { msg = m } in
            if filtered_out g.opcodes m.opcode
            then (g', ok r')
            else call_back (direction src_ip dst_ip f) g' m r')

-- `GameEventSubscriber.Close`, behind `s.Stop()`.
unfoldable pub close_game_events : GameEventSubscriber → Outcome GameEventSubscriber
close_game_events g = elim (close g.ingress_events) [
  | ok a ↦ elim (close g.egress_events) [
    | ok b ↦ ok (record g { ingress_events = a; egress_events = b })
    | err e ↦ err e
    | panic ↦ panic
  ]
  | err e ↦ err e
  | panic ↦ panic
]

is_keepalive : GenericHeader → Bool
is_keepalive h = h.segment == server_ping || h.segment == server_pong

-- `NewKeepaliveSubscriber`
abbrev pub new_keepalive_subscriber : Channel KeepaliveMessage
new_keepalive_subscriber = new_channel

-- The function of `KeepaliveSubscriber.Subscribe`, over its channel.
pub keepalive_subscribe : {F : Type 0} → FrameHandler F (Channel KeepaliveMessage)
keepalive_subscribe k f h r =
    if not (is_keepalive h)
    then (k, ok r)
    else received_message k (decode_keepalive r) (λ m r'.
      if k.closed then (k, panic) else (record k { received = k.received ++ (m ∷ []) }, ok r'))

-- `KeepaliveSubscriber.Close`, behind `s.Stop()`.
unfoldable pub close_keepalives : Channel KeepaliveMessage → Outcome (Channel KeepaliveMessage)
unfolding close
close_keepalives k = close k

-- `KeepaliveHandler` with the log of its callback's calls, and the message that the callback is given;
-- `Reset` clears it before each `Decode`.
pub record KeepaliveHandler : Type 0 where
  pub calls : List KeepaliveMessage
  pub msg : KeepaliveMessage

-- `NewKeepaliveHandler`
abbrev pub new_keepalive_handler : KeepaliveHandler
new_keepalive_handler = record { calls = []; msg = zero_keepalive }

-- The function of `KeepaliveHandler.Subscribe`.
pub keepalive_handle : {F : Type 0} → FrameHandler F KeepaliveHandler
keepalive_handle k f h r =
    if not (is_keepalive h)
    then (k, ok r)
    else received_message (record k { msg = zero_keepalive }) (decode_keepalive r)
        (λ m r'. (record { calls = k.calls ++ (m ∷ []); msg = m }, ok r'))
