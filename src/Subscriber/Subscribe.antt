-- ===== src/Subscriber/Subscribe.antt =====
-- The `Subscribe` methods: the sniffer is started where it is not active, and its frames are processed.
use zanarkand.Prelude.{Bool, not, List}
use zanarkand.Frame.Direction.{Ip}
use zanarkand.Message.{KeepaliveMessage}
use zanarkand.Sniffer.{SnifferState, FrameHandler, Reset, Turn, Ended, process_frames}
use zanarkand.Sniffer.Start.{is_active}
use zanarkand.Subscriber.{
  Channel, GameEventSubscriber, GameEventHandler, KeepaliveHandler, game_event_subscribe,
  game_event_handle, keepalive_subscribe, keepalive_handle,
}

-- Whether `go s.Start(ctx)` has been called, the state that the handler's calls leave, and the end.
pub record Subscribed (S : Type 0) : Type 0 where
  pub spawned : Bool
  pub state : S
  pub ended : Ended

module _ {F : Type 0} (z : F) (reset : Reset) (found : SnifferState) (started : Bool) where
  -- What the four methods share. `found` is the sniffer's state at the call, and `started` tells whether some
  -- `Start` has set the context when `NextFrame` looks it up.
  abbrev pub subscribe_with : {S : Type 0} → FrameHandler F S → S → List (Turn F) → Subscribed S
  subscribe_with fn s ts =
      let (t, e) = process_frames z reset fn started 0 s ts in
      record { spawned = not (is_active found); state = t; ended = e }

  -- `KeepaliveSubscriber.Subscribe`
  unfoldable pub subscribe_keepalives :
      Channel KeepaliveMessage → List (Turn F) → Subscribed (Channel KeepaliveMessage)
  subscribe_keepalives = subscribe_with keepalive_subscribe

  -- `KeepaliveHandler.Subscribe`
  unfoldable pub handle_keepalives : KeepaliveHandler → List (Turn F) → Subscribed KeepaliveHandler
  handle_keepalives = subscribe_with keepalive_handle

  module _ (src_ip dst_ip : F → Ip) where
    -- `GameEventSubscriber.Subscribe`
    unfoldable pub subscribe_game_events :
        GameEventSubscriber → List (Turn F) → Subscribed GameEventSubscriber
    subscribe_game_events = subscribe_with (game_event_subscribe src_ip dst_ip)

    -- `GameEventHandler.Subscribe`
    unfoldable pub handle_game_events :
        GameEventHandler → List (Turn F) → Subscribed GameEventHandler
    handle_game_events = subscribe_with (game_event_handle src_ip dst_ip)
