-- ===== src/Subscriber/Delivery/Blocked.antt =====
-- A send that nothing receives.
use zanarkand.Prelude.{◌≡◌, ◌≢◌, ◌⊎◌, inl, inr, refl, Bool, true, false}
use zanarkand.Message.{GameEventMessage}
use zanarkand.Frame.Direction.{FlowDirection, neither, ingress, egress}
use zanarkand.Subscriber.{GameEventSubscriber}
use zanarkand.Subscriber.Delivery.{
  working, sending, panicked, Delivery, is_closed, Step, decode, deliver, panic_send, finish, stop,
  close_ingress, close_egress, Steps, here, then_step,
}

-- Nothing receives from the channel of `d`, or it is closed.
abbrev pub IsBlocked : (FlowDirection → Bool) → FlowDirection → Delivery → Type 0
IsBlocked reads d s = (reads d ≡ false) ⊎ (is_closed d s.subscriber ≡ true)

-- `t` has decoded and delivered no more than `s`, and its goroutine is still at the send, or in a panic
-- at the closed channel.
pub record IsStuck (d : FlowDirection) (m : GameEventMessage) (s t : Delivery) : Type 0 where
  pub at_send :
      (t.sender ≡ sending d m) ⊎ ((t.sender ≡ panicked) × (is_closed d t.subscriber ≡ true))
  pub decoded_same : t.decoded ≡ s.decoded
  pub ingress_same : t.subscriber.ingress_events.received ≡ s.subscriber.ingress_events.received
  pub egress_same : t.subscriber.egress_events.received ≡ s.subscriber.egress_events.received

abbrev with_ingress_closed : GameEventSubscriber → GameEventSubscriber
with_ingress_closed g = record g { ingress_events = record (g.ingress_events) { closed = true } }

abbrev with_egress_closed : GameEventSubscriber → GameEventSubscriber
with_egress_closed g = record g { egress_events = record (g.egress_events) { closed = true } }

ingress-is_closed :
    (d : FlowDirection) (g : GameEventSubscriber)
    → is_closed d g ≡ true
    → is_closed d (with_ingress_closed g) ≡ true
ingress-is_closed ingress g h = refl
ingress-is_closed egress g h = h
ingress-is_closed neither g h = h

egress-is_closed :
    (d : FlowDirection) (g : GameEventSubscriber)
    → is_closed d g ≡ true
    → is_closed d (with_egress_closed g) ≡ true
egress-is_closed ingress g h = h
egress-is_closed egress g h = refl
egress-is_closed neither g h = h

-- The goroutine is not back in `ProcessFrames`.
not_working :
    {d : FlowDirection} {m : GameEventMessage} {s t : Delivery}
    → IsStuck d m s t
    → t.sender ≢ working
not_working k e = elim k.at_send [ inl a ↦ cc | inr (a, c) ↦ cc ]

module _ (reads : FlowDirection → Bool) (d : FlowDirection) (m : GameEventMessage) where
  not_delivered :
      {s t : Delivery} (e : FlowDirection) (n : GameEventMessage)
      → IsBlocked reads d t
      → IsStuck d m s t
      → t.sender ≡ sending e n
      → reads e ≡ true
      → is_closed e t.subscriber ≢ false
  not_delivered e n (inl b) k a r c = elim k.at_send [ inl x ↦ cc | inr (x, y) ↦ cc ]
  not_delivered e n (inr b) k a r c = elim k.at_send [ inl x ↦ cc | inr (x, y) ↦ cc ]

  -- At a closed channel the send panics.
  panics :
      {s t : Delivery} (e : FlowDirection) (n : GameEventMessage)
      → IsStuck d m s t
      → t.sender ≡ sending e n
      → is_closed e t.subscriber ≡ true
      → is_closed d t.subscriber ≡ true
  panics e n k a c = elim k.at_send [ inl x ↦ cc | inr (x, y) ↦ y ]

  Step-IsStuck :
      {s t u : Delivery}
      → IsBlocked reads d t
      → IsStuck d m s t
      → Step reads t u
      → IsBlocked reads d u × IsStuck d m s u
  Step-IsStuck b k (decode e n w dir pass) = absurd (not_working k w)
  Step-IsStuck b k (deliver e n r a read c) = absurd (not_delivered e n b k a read c)
  Step-IsStuck b k (panic_send e n a c) = (
    b,
    record {
      at_send = inr (refl, panics e n k a c);
      decoded_same = k.decoded_same;
      ingress_same = k.ingress_same;
      egress_same = k.egress_same;
    },
  )
  Step-IsStuck b k (finish w) = absurd (not_working k w)
  Step-IsStuck b k stop = (
    b,
    record {
      at_send = k.at_send;
      decoded_same = k.decoded_same;
      ingress_same = k.ingress_same;
      egress_same = k.egress_same;
    },
  )
  Step-IsStuck {t = t} b k (close_ingress x y) = (
    elim b [ inl never ↦ inl never | inr c ↦ inr (ingress-is_closed d t.subscriber c) ],
    record {
      at_send = elim k.at_send [
        | inl a ↦ inl a
        | inr (a, c) ↦ inr (a, ingress-is_closed d t.subscriber c)
      ];
      decoded_same = k.decoded_same;
      ingress_same = k.ingress_same;
      egress_same = k.egress_same;
    },
  )
  Step-IsStuck {t = t} b k (close_egress x y) = (
    elim b [ inl never ↦ inl never | inr c ↦ inr (egress-is_closed d t.subscriber c) ],
    record {
      at_send = elim k.at_send [
        | inl a ↦ inl a
        | inr (a, c) ↦ inr (a, egress-is_closed d t.subscriber c)
      ];
      decoded_same = k.decoded_same;
      ingress_same = k.ingress_same;
      egress_same = k.egress_same;
    },
  )

  remaining_at_send :
      {s t : Delivery}
      → s.sender ≡ sending d m
      → IsBlocked reads d s
      → Steps reads s t
      → IsBlocked reads d t × IsStuck d m s t
  remaining_at_send a b here =
      (b, record { at_send = inl a; decoded_same = refl; ingress_same = refl; egress_same = refl })
  remaining_at_send a b (then_step ss st) =
      let (b', k) = remaining_at_send a b ss in Step-IsStuck b' k st

  -- A goroutine at a send on a channel that the program does not read, or that is closed, stays there for
  -- ever, `Stop` or not, and decodes and delivers nothing more in either direction; it can only panic, if
  -- the channel is closed.
  pub Steps-IsStuck :
      {s t : Delivery}
      → s.sender ≡ sending d m
      → IsBlocked reads d s
      → Steps reads s t
      → IsStuck d m s t
  Steps-IsStuck a b ss = (remaining_at_send a b ss).1
