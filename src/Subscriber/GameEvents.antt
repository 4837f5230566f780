-- ===== src/Subscriber/GameEvents.antt =====
-- What `GameEventSubscriber` makes of a message, at its start and behind its header.
use zanarkand.Prelude.{
  ltb-true, ◌⊎◌, List, true, sym, ℕ, suc, ◌+◌, ◌-◌, ◌*◌, ◌≤◌, ◌<◌, ◌≡◌, ◌≢◌, refl, ap, ◌∙◌, false,
  [], ◌∷◌, ◌++◌, ◌==◌, ==_iff, length, append_assoc, length-append, Bool-cases, inl, inr, arith,
}
use zanarkand.Prelude.Int.{pos}
use zanarkand.Prelude.Bytes.{Bytes}
use zanarkand.Io.{IoError, Reader, size}
use zanarkand.Io.View.{stream}
use zanarkand.Error.{io, not_enough_data, decoding_failure, ok, err}
use zanarkand.Message.{GenericHeader, game_event, GameEventMessage, zero_game_event}
use zanarkand.Message.Wire.{encode_header, HeaderFits, decode_header-encode}
use zanarkand.Message.Body.{front}
use zanarkand.Message.Cases.{decode_game_event_too_long}
use zanarkand.Message.GameEvent.{
  encode_ipc, length-encode_ipc, encode_game_event, GameEventFits, decode_game_event-encode,
}
use zanarkand.Frame.{Frame}
use zanarkand.Frame.Direction.{FlowDirection, neither, ingress, egress, direction, Ip}
use zanarkand.Sniffer.{default_size, process_messages}
use zanarkand.Subscriber.{
  contains_opcode, filtered_out, GameEventSubscriber, received_message, send_event, send_ingress,
  send_egress, game_event_subscribe,
}

true-false : true ≢ false
true-false e = cc

-- The length that is read where the IPC header is taken for a message's header.
front_ipc :
    (m : GameEventMessage) (rest : Bytes)
    → GameEventFits m
    → (front (encode_ipc m ++ rest)).length ≡ m.reserved + 65536 * m.opcode
unfolding encode_ipc
front_ipc m rest f = omega (arith, f.reserved_fits, f.opcode_fits)

-- A message with its paddings cleared, as `Decode` leaves them in a new message.
abbrev pub cleared : GameEventMessage → GameEventMessage
cleared m = record m { padding2 = 0; padding3 = 0 }

-- An opcode is among those that a filter lists.
abbrev pub Listed : ℕ → List ℕ → Type 0
Listed op [] = ⊥
Listed op (x ∷ xs) = (x ≡ op) ⊎ Listed op xs

-- A subscriber lets an opcode through where it has no opcodes, or where the opcode is among them.
abbrev pub Passes : List ℕ → ℕ → Type 0
Passes [] op = Unit
Passes (x ∷ xs) op = Listed op (x ∷ xs)

contains_opcode-Listed :
    (ops : List ℕ) (op : ℕ)
    → ((contains_opcode ops op ≡ true) × Listed op ops)
      ⊎ ((contains_opcode ops op ≡ false) × (¬ Listed op ops))
unfolding contains_opcode
contains_opcode-Listed [] op = inr (refl, λ x. x)
contains_opcode-Listed (x ∷ xs) op = elim (Bool-cases (x == op)) [
  | inl same ↦ rw same (inl (refl, inl ((==_iff x op).0 same)))
  | inr other ↦ rw other (elim (contains_opcode-Listed xs op) [
    | inl (e, l) ↦ inl (e, inr l)
    | inr (e, n) ↦ inr (
      e,
      λ l. elim l [
        | inl same ↦ true-false (sym ((==_iff x op).1 same) ∙ other)
        | inr later ↦ n later
      ],
    )
  ])
]

-- What is filtered out, and what passes.
filtered_out-Passes :
    (ops : List ℕ) (op : ℕ)
    → ((filtered_out ops op ≡ true) × (¬ Passes ops op))
      ⊎ ((filtered_out ops op ≡ false) × Passes ops op)
unfolding filtered_out
filtered_out-Passes [] op = inr (refl, tt)
filtered_out-Passes (x ∷ xs) op = elim (contains_opcode-Listed (x ∷ xs) op) [
  | inl (e, l) ↦ inr (rw (ltb-true 0 (length (x ∷ xs)) (omega arith)) (rw e refl), l)
  | inr (e, n) ↦ inl (rw (ltb-true 0 (length (x ∷ xs)) (omega arith)) (rw e refl), n)
]

module _ {F : Type 0} (src_ip dst_ip : F → Ip) (f : Frame F) (g : GameEventSubscriber) where
  -- In `ProcessFrames` the header is read before the handler is called, and the handler reads a
  -- header again. So a game event with an opcode other than 0 that fits its fields is never
  -- delivered, though it stands at the front of a reader of the default size: the loop ends with
  -- a decoding error and the subscriber is unchanged, whatever the direction, the filter and the
  -- channels are.
  pub process_messages-encode_game_event :
      (n : ℕ) (m : GameEventMessage) (rest : Bytes) (r : Reader)
      → GameEventFits m
      → m.header.segment ≡ game_event
      → 0 < m.opcode
      → size r ≡ default_size
      → stream r ≡ encode_game_event m ++ rest
      → (got : ℕ) × (process_messages (game_event_subscribe src_ip dst_ip) f (suc n) g r ≡ (
        g,
        err (
            decoding_failure (
              not_enough_data
                (pos (m.reserved + 65536 * m.opcode - 16))
                got
                (io IoError.buffer_full))),
      ))
  unfolding process_messages game_event_subscribe received_message encode_game_event
  process_messages-encode_game_event n m rest r fits seg op hs e =
      let (a, d, after, same) =
        decode_header-encode m.header (encode_ipc m ++ rest) r fits.header_fits (omega arith)
          (e ∙ append_assoc (encode_header m.header) (encode_ipc m) rest) in
      let l : (front (stream a)).length ≡ m.reserved + 65536 * m.opcode =
        ap (λ (s : Bytes). (front s).length) after ∙ front_ipc m rest fits in
      let (got, x) =
        decode_game_event_too_long zero_game_event a (omega arith)
          (omega (arith, ap length after, length-append (encode_ipc m) rest, length-encode_ipc m))
          (omega (arith, l)) in
      (
        got,
        rw d (
            rw ((==_iff m.header.segment game_event).1 seg) (
              rw x (
                ap
                  (λ (k : ℕ). (
                    g,
                    err (
                        decoding_failure
                          (not_enough_data (pos (k - 16)) got (io IoError.buffer_full))),
                  ))
                  l))),
      )

  -- A message of another segment type than the game event, over a buffer of at least 16 bytes, is
  -- skipped without its payload: the loop goes on right behind its header.
  process_messages_other :
      (n : ℕ) (h : GenericHeader) (rest : Bytes) (r : Reader)
      → HeaderFits h
      → h.segment ≢ game_event
      → 16 ≤ size r
      → stream r ≡ encode_header h ++ rest
      → (a : Reader) × (process_messages (game_event_subscribe src_ip dst_ip) f (suc n) g r
          ≡ process_messages (game_event_subscribe src_ip dst_ip) f n g a)
        × (stream a ≡ rest)
  unfolding process_messages game_event_subscribe
  process_messages_other n h rest r fits other hs e =
      let (a, d, after, same) = decode_header-encode h rest r fits hs e in
      (
        a,
        rw d (elim (Bool-cases (h.segment == game_event)) [
          | inl is_event ↦ absurd (other ((==_iff h.segment game_event).0 is_event))
          | inr is_other ↦ rw is_other
        ]),
        after,
      )

-- The subscriber with the message added to the channel of the direction.
abbrev pub delivered : FlowDirection → GameEventSubscriber → GameEventMessage → GameEventSubscriber
delivered neither g m = g
delivered ingress g m = record g {
  ingress_events = record (g.ingress_events) { received = g.ingress_events.received ++ (m ∷ []) };
}
delivered egress g m = record g {
  egress_events = record (g.egress_events) { received = g.egress_events.received ++ (m ∷ []) };
}

send_event-delivered :
    (d : FlowDirection) (g : GameEventSubscriber) (m : GameEventMessage) (r : Reader)
    → d ≢ neither
    → g.ingress_events.closed ≡ false
    → g.egress_events.closed ≡ false
    → send_event d g m r ≡ (delivered d g m, ok r)
unfolding send_event send_ingress send_egress
send_event-delivered neither g m r h a b = absurd (h refl)
send_event-delivered ingress g m r h a b = rw a
send_event-delivered egress g m r h a b = rw b

-- Called with the reader at the start of a game event that fits its fields and the buffer, header
-- included, for a frame with a direction and with open channels, the handler leaves the reader behind the
-- message. Where the subscriber has no opcodes or the message's own is among them, it sends the message
-- on the channel of the frame's direction; where it has opcodes and the message's own is not among them,
-- the subscriber is unchanged.
pub game_event_subscribe-encode :
    {F : Type 0} (src_ip dst_ip : F → Ip) (f : Frame F) (g : GameEventSubscriber)
    (m : GameEventMessage) (rest : Bytes) (r : Reader)
    → GameEventFits m
    → m.header.segment ≡ game_event
    → 16 + length m.body ≤ size r
    → stream r ≡ encode_game_event m ++ rest
    → direction src_ip dst_ip f ≢ neither
    → g.ingress_events.closed ≡ false
    → g.egress_events.closed ≡ false
    → (a : Reader) × (stream a ≡ rest)
      × (((¬ Passes g.opcodes m.opcode)
            × (game_event_subscribe src_ip dst_ip g f m.header r ≡ (g, ok a)))
          ⊎ (Passes g.opcodes m.opcode
              × (game_event_subscribe src_ip dst_ip g f m.header r
                  ≡ (delivered (direction src_ip dst_ip f) g (cleared m), ok a))))
unfolding game_event_subscribe received_message
game_event_subscribe-encode src_ip dst_ip f g m rest r fits seg room e dir a b =
    let (t, d, left) = decode_game_event-encode m zero_game_event rest r fits room e in
    (
      t,
      left,
      elim (filtered_out-Passes g.opcodes m.opcode) [
        | inl (out, n) ↦
            inl (n, rw ((==_iff m.header.segment game_event).1 seg) (rw d (rw out refl)))
        | inr (kept, p) ↦ inr (
          p,
          rw ((==_iff m.header.segment game_event).1 seg) (
              rw d (
                rw kept
                  (send_event-delivered (direction src_ip dst_ip f) g (cleared m) t dir a b))),
        )
      ],
    )
