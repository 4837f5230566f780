-- ===== src/Tests/Delivery.antt =====
-- A program that reads the messages of the server only, as the one in the README, and a client's message.
use zanarkand.Prelude.{◌≡◌, ◌++◌, refl, Bool, true, false, [], ◌∷◌, inl}
use zanarkand.Frame.Direction.{FlowDirection, ingress, egress}
use zanarkand.Subscriber.{filtered_out}
use zanarkand.Subscriber.Delivery.{
  Step, working, sending, panicked, Delivery, new_delivery, decode, panic_send, stop, close_ingress,
  close_egress, Reach, start, next, Steps, here, then_step,
}
use zanarkand.Subscriber.Delivery.Order.{IsInOrder, Reach-IsInOrder}
use zanarkand.Subscriber.Delivery.Blocked.{IsStuck, Steps-IsStuck}
use zanarkand.Subscriber.Delivery.Progress.{received_on, Reach-delivers}
use zanarkand.Tests.Data.{buffered, event}

abbrev reads_ingress : FlowDirection → Bool
reads_ingress ingress = true
reads_ingress _ = false

abbrev at_send : Delivery
at_send = record (new_delivery []) { sender = sending egress event; decoded = (egress, event) ∷ [] }

reached : Reach reads_ingress [] at_send
unfolding filtered_out
reached = next start (decode egress event refl (λ e. cc) refl)

abbrev closed_under_it : Delivery
closed_under_it = record at_send {
  sender = panicked;
  stopped = true;
  subscriber = record {
    ingress_events = record { received = []; closed = true };
    egress_events = record { received = []; closed = true };
    opcodes = [];
  };
}

then_closed : Steps reads_ingress at_send closed_under_it
then_closed =
    then_step
      (then_step (then_step (then_step here stop) (close_ingress refl refl))
        (close_egress refl refl))
      (panic_send egress event refl refl)

Reach-IsInOrder_example : IsInOrder reads_ingress [] at_send
Reach-IsInOrder_example = Reach-IsInOrder reached

Steps-IsStuck_example : IsStuck egress event at_send closed_under_it
Steps-IsStuck_example = Steps-IsStuck reads_ingress egress event refl (inl refl) then_closed

-- A program that reads both channels.
abbrev reads_both : FlowDirection → Bool
reads_both d = true

reached_both : Reach reads_both [] at_send
unfolding filtered_out
reached_both = next start (decode egress event refl (λ e. cc) refl)

Reach-delivers_example :
    (t : Delivery) × Step reads_both at_send t
    × (t.sender ≡ working)
    × (received_on egress t.subscriber ≡ received_on egress at_send.subscriber ++ (event ∷ []))
Reach-delivers_example =
    Reach-delivers egress event (buffered [] 20) reached_both (λ e n. refl) refl refl
