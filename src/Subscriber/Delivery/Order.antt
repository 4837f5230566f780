-- ===== src/Subscriber/Delivery/Order.antt =====
-- What has been received on each channel.
use zanarkand.Prelude.{
  ◌≡◌, refl, sym, ap, ◌∙◌, subst, Bool, true, false, List, [], ◌∷◌, ◌++◌, append-nil, length,
  if◌then◌else◌, All, All-snoc,
}
use zanarkand.Io.{Reader}
use zanarkand.Message.{GameEventMessage}
use zanarkand.Frame.Direction.{FlowDirection, neither, ingress, egress}
use zanarkand.Subscriber.{Opcodes, GameEventSubscriber, filtered_out, send_event}
use zanarkand.Subscriber.Delivery.{
  Sender, working, sending, ended, panicked, Delivery, is_closed, Step, decode, deliver, panic_send,
  finish, stop, close_ingress, close_egress, Reach, start, next,
}

abbrev Sent : Type 0
Sent = List (FlowDirection × GameEventMessage)

abbrev same_side : FlowDirection → FlowDirection → Bool
same_side ingress ingress = true
same_side egress egress = true
same_side neither neither = true
same_side _ _ = false

-- The messages of one direction.
abbrev pub of_side : FlowDirection → List (FlowDirection × GameEventMessage) → List GameEventMessage
of_side d [] = []
of_side d ((e, m) ∷ xs) = if same_side e d then m ∷ of_side d xs else of_side d xs

of_side-append :
    (d : FlowDirection) (xs ys : Sent) → of_side d (xs ++ ys) ≡ of_side d xs ++ of_side d ys
of_side-append d [] ys = refl
of_side-append d ((e, m) ∷ xs) ys =
    elim (same_side e d)
      as (λ b.
        (if b then m ∷ of_side d (xs ++ ys) else of_side d (xs ++ ys))
        ≡ (if b then m ∷ of_side d xs else of_side d xs) ++ of_side d ys) [
          | true ↦ ap (◌∷◌ m) (of_side-append d xs ys)
          | false ↦ of_side-append d xs ys
        ]

-- The messages that were decoded and not received.
abbrev pub Unsent : Sender → List (FlowDirection × GameEventMessage) → Type 0
Unsent working u = u ≡ []
Unsent (sending d m) u = u ≡ (d, m) ∷ []
Unsent ended u = u ≡ []
Unsent panicked u = length u ≡ 1

-- `done` have been received, of those that were decoded.
pub record IsInOrder (reads : FlowDirection → Bool) (ops : Opcodes) (s : Delivery) : Type 0 where
  pub done : List (FlowDirection × GameEventMessage)
  pub unsent : List (FlowDirection × GameEventMessage)
  pub in_order : s.decoded ≡ done ++ unsent
  pub is_unsent : Unsent s.sender unsent
  pub ingress_received : s.subscriber.ingress_events.received ≡ of_side ingress done
  pub egress_received : s.subscriber.egress_events.received ≡ of_side egress done
  pub all_read : All (λ x. reads x.0 ≡ true) done
  pub same_opcodes : s.subscriber.opcodes ≡ ops
  pub all_pass : All (λ x. filtered_out ops x.1.opcode ≡ false) s.decoded

-- What a send adds to each channel.
send_event-received :
    (d : FlowDirection) (g : GameEventSubscriber) (m : GameEventMessage) (r : Reader)
    → is_closed d g ≡ false
    → ((send_event d g m r).0.ingress_events.received
        ≡ g.ingress_events.received ++ of_side ingress ((d, m) ∷ []))
      × ((send_event d g m r).0.egress_events.received
          ≡ g.egress_events.received ++ of_side egress ((d, m) ∷ []))
      × ((send_event d g m r).0.opcodes ≡ g.opcodes)
unfolding send_event
send_event-received ingress g m r h = rw h (refl, sym (append-nil g.egress_events.received), refl)
send_event-received egress g m r h = rw h (sym (append-nil g.ingress_events.received), refl, refl)
send_event-received neither g m r h =
    (sym (append-nil g.ingress_events.received), sym (append-nil g.egress_events.received), refl)

module _ {reads : FlowDirection → Bool} {ops : Opcodes} where
  -- What has not been received while the goroutine is at `x`.
  unsent_at :
      {s : Delivery} {x : Sender} → s.sender ≡ x → (h : IsInOrder reads ops s) → Unsent x h.unsent
  unsent_at e h = subst (λ y. Unsent y h.unsent) e h.is_unsent

  -- A step that neither decodes nor delivers.
  undelivered :
      {s : Delivery} (h : IsInOrder reads ops s) (t : Delivery)
      → t.decoded ≡ s.decoded
      → t.subscriber.ingress_events.received ≡ s.subscriber.ingress_events.received
      → t.subscriber.egress_events.received ≡ s.subscriber.egress_events.received
      → t.subscriber.opcodes ≡ s.subscriber.opcodes
      → Unsent t.sender h.unsent
      → IsInOrder reads ops t
  undelivered h t d i e o u = record {
    done = h.done;
    unsent = h.unsent;
    in_order = d ∙ h.in_order;
    is_unsent = u;
    ingress_received = i ∙ h.ingress_received;
    egress_received = e ∙ h.egress_received;
    all_read = h.all_read;
    same_opcodes = o ∙ h.same_opcodes;
    all_pass = subst (All (λ x. filtered_out ops x.1.opcode ≡ false)) (sym d) h.all_pass;
  }

  Step-IsInOrder : {s t : Delivery} → Step reads s t → IsInOrder reads ops s → IsInOrder reads ops t
  Step-IsInOrder {s} (decode d m e dir pass) h = record {
    done = h.done;
    unsent = (d, m) ∷ [];
    in_order =
        ap (λ (xs : Sent). xs ++ ((d, m) ∷ []))
          (h.in_order ∙ ap (◌++◌ h.done) (unsent_at e h) ∙ append-nil h.done);
    is_unsent = refl;
    ingress_received = h.ingress_received;
    egress_received = h.egress_received;
    all_read = h.all_read;
    same_opcodes = h.same_opcodes;
    all_pass =
        All-snoc _ s.decoded (d, m) h.all_pass
          (subst (λ o. filtered_out o m.opcode ≡ false) h.same_opcodes pass);
  }
  Step-IsInOrder {s} (deliver d m r e read opened) h =
      let (i, o, same) = send_event-received d s.subscriber m r opened in
      record {
        done = h.done ++ ((d, m) ∷ []);
        unsent = [];
        in_order =
            h.in_order
            ∙ ap (◌++◌ h.done) (unsent_at e h)
            ∙ sym (append-nil (h.done ++ ((d, m) ∷ [])));
        is_unsent = refl;
        ingress_received =
            i
            ∙ ap (λ (xs : List GameEventMessage). xs ++ of_side ingress ((d, m) ∷ []))
                h.ingress_received
            ∙ sym (of_side-append ingress h.done ((d, m) ∷ []));
        egress_received =
            o
            ∙ ap (λ (xs : List GameEventMessage). xs ++ of_side egress ((d, m) ∷ []))
                h.egress_received
            ∙ sym (of_side-append egress h.done ((d, m) ∷ []));
        all_read = All-snoc _ h.done (d, m) h.all_read read;
        same_opcodes = same ∙ h.same_opcodes;
        all_pass = h.all_pass;
      }
  Step-IsInOrder (panic_send d m e closed) h =
      undelivered h _ refl refl refl refl (ap length (unsent_at e h))
  Step-IsInOrder (finish e) h = undelivered h _ refl refl refl refl (unsent_at e h)
  Step-IsInOrder stop h = undelivered h _ refl refl refl refl h.is_unsent
  Step-IsInOrder (close_ingress a b) h = undelivered h _ refl refl refl refl h.is_unsent
  Step-IsInOrder (close_egress a b) h = undelivered h _ refl refl refl refl h.is_unsent

  -- However `Subscribe`, the receivers and `Close` interleave: each channel has given the messages of its
  -- direction in the order they were decoded, each once; only messages that the filter lets through are
  -- sent; and of all that was decoded only the message at a send that waits, or at one that panicked, has
  -- not been received.
  pub Reach-IsInOrder : {s : Delivery} → Reach reads ops s → IsInOrder reads ops s
  Reach-IsInOrder start = record {
    done = [];
    unsent = [];
    in_order = refl;
    is_unsent = refl;
    ingress_received = refl;
    egress_received = refl;
    all_read = tt;
    same_opcodes = refl;
    all_pass = tt;
  }
  Reach-IsInOrder (next r st) = Step-IsInOrder st (Reach-IsInOrder r)
