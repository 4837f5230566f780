-- ===== src/Sniffer/Assembly/Hung.antt =====
-- What a call of the assembler does that gives a stream more than its goroutine reads.
use zanarkand.Prelude.{
  ℕ, ◌≡◌, ◌≢◌, refl, sym, ap, ◌∙◌, Bool, true, false, List, [], length, update_other, update,
  update_same, ◌∷◌, ◌++◌, ◌==◌, ==_iff, Bool-cases, arith, inl, inr, ◌⊎◌, append_assoc,
}
use mathlib.Core.Path.{ap₂}
use zanarkand.Error.{Error}
use zanarkand.Io.{Reader}
use zanarkand.Prelude.Bytes.{Bytes}
use zanarkand.Reassembler.{Packet, round, sent}
use zanarkand.Sniffer.Assembly.{
  given, selecting, Stream, live, left, Place, Starter, between, calling, Assembly, Step, assemble,
  assembled, end_stream, cancel, notice, flushed, file_end, send, hand_over, leave, receive, Steps,
  here, then_step,
}

in_a_call : {i : ℕ} {k l : Place} {x : Starter} → x ≡ calling i k → x ≢ between l
in_a_call e f = cc

calls_one : {i j : ℕ} {k l : Place} {x : Starter} → x ≡ calling i k → x ≡ calling j l → j ≡ i
calls_one e f = cc

left_live :
    {F : Type 0} {m n : F} {e : Error} {ps : List Bytes} {r : Reader} → left m e ps ≢ live n r
left_live e = cc

live-injective : {F : Type 0} {m n : F} {q r : Reader} → live m q ≡ live n r → (m ≡ n) × (q ≡ r)
live-injective e = (cc, cc)

-- Stream `i` was given its first piece and is `one`, or also the next piece and is `two`, and nothing else
-- was given.
abbrev pub Gave :
    {F : Type 0} → ℕ → Bytes → Bytes → Stream F → Stream F → Assembly F → Assembly F → Type 0
Gave i p n one two s t =
    ((t.streams i ≡ one) × (t.handed ≡ s.handed ++ ((i, p) ∷ [])))
    ⊎ ((t.streams i ≡ two) × (t.handed ≡ s.handed ++ ((i, p) ∷ (i, n) ∷ [])))

true-false : true ≢ false
true-false e = cc

module _ {F : Type 0} (reads : Bool) where
  -- Why a stream is read no further: its goroutine has returned, or waits to send on a channel that is full
  -- and that nobody receives from.
  pub data IsUnread (i : ℕ) (s : Assembly F) : Type 0 where
    nobody : (net : F) (e : Error) (ps : List Bytes) → s.streams i ≡ left net e ps → IsUnread i s
    no_room :
        (net : F) (now after : Reader) (p : Packet F)
        → s.streams i ≡ live net now
        → round net now ≡ sent p after
        → reads ≡ false
        → length s.queue ≡ s.capacity
        → IsUnread i s

  module _ (returns : Stream F → Bool) where
    -- `Start` is in a call that gave stream `i` a piece, and the stream is read no further.
    pub record IsHung (i : ℕ) (s : Assembly F) : Type 0 where
      pub place : Place
      pub at_call : s.starter ≡ calling i place
      pub not_read : returns (s.streams i) ≡ false
      pub unread : IsUnread i s

    -- What a step leaves of it.
    pub record Hangs (i : ℕ) (s t : Assembly F) : Type 0 where
      pub hung : IsHung i t
      pub same_state : t.state ≡ s.state
      pub same_handed : t.handed ≡ s.handed

    -- A hung stream's goroutine makes no step: a step's stream is another one.
    other_stream :
        {i j : ℕ} {s : Assembly F} {net : F} {now : Reader}
        → IsUnread i s
        → s.streams j ≡ live net now
        → ((p : Packet F) (after : Reader)
            → round net now ≡ sent p after
            → reads ≡ false
            → ¬ (length s.queue ≡ s.capacity))
        → (j == i) ≡ false
    other_stream {i} {j} {s} u e apart = elim (Bool-cases (j == i)) [
      | inr other ↦ other
      | inl same ↦
          let here : s.streams i ≡ s.streams j = ap s.streams (sym ((==_iff j i).0 same)) in
          elim u [
            | nobody net reason ps gone ↦ absurd (left_live (sym gone ∙ here ∙ e))
            | no_room net now after p at goes never full ↦
                let (n, r) = live-injective (sym at ∙ here ∙ e) in
                absurd (apart p after (sym (ap₂ round n r) ∙ goes) never full)
          ]
    ]

    -- What does not touch the call, its stream or a full channel leaves it hung.
    stays :
        {i : ℕ} {s : Assembly F} (t : Assembly F)
        → IsHung i s
        → t.starter ≡ s.starter
        → t.streams i ≡ s.streams i
        → (reads ≡ false → length s.queue ≡ s.capacity → length t.queue ≡ t.capacity)
        → t.state ≡ s.state
        → t.handed ≡ s.handed
        → Hangs i s t
    stays t h a b c d e = record {
      hung = record {
        place = h.place;
        at_call = a ∙ h.at_call;
        not_read = ap returns b ∙ h.not_read;
        unread = elim (h.unread) [
          | nobody net reason ps gone ↦ nobody net reason ps (b ∙ gone)
          | no_room net now after p at goes never full ↦
              no_room net now after p (b ∙ at) goes never (c never full)
        ];
      };
      same_state = d;
      same_handed = e;
    }

    Step-Hangs : {i : ℕ} {s t : Assembly F} → IsHung i s → Step returns reads s t → Hangs i s t
    Step-Hangs h (assemble k j net p at o) = absurd (in_a_call h.at_call at)
    Step-Hangs {s = s} h (assembled k j at read) = absurd (
        true-false
          (sym read ∙ ap (λ x. returns (s.streams x)) (calls_one h.at_call at) ∙ h.not_read))
    Step-Hangs h (end_stream k j at) = absurd (in_a_call h.at_call at)
    Step-Hangs {t = t} h cancel = stays t h refl refl (λ n f. f) refl refl
    Step-Hangs h (notice at c) = absurd (in_a_call h.at_call at)
    Step-Hangs h (flushed at) = absurd (in_a_call h.at_call at)
    Step-Hangs h (file_end at) = absurd (in_a_call h.at_call at)
    Step-Hangs {i} {s} {t} h (send j {net} {now} {after} e goes room) =
        stays t h refl
          (update_other s.streams j i (live net after)
            (other_stream h.unread e (λ p a q never full. omega arith)))
          (λ never full. absurd (omega arith)) refl refl
    Step-Hangs {i} {s} {t} h (hand_over j {net} {now} {after} e goes read none_left) =
        stays t h refl
          (update_other s.streams j i (live net after)
            (other_stream h.unread e (λ p a q never full. cc)))
          (λ never full. full) refl refl
    Step-Hangs {i} {s} {t} h (leave j {net} {now} {e = reason} e stops w) =
        stays t h refl
          (update_other s.streams j i (left net reason [])
            (other_stream h.unread e (λ p a q never full. cc)))
          (λ never full. full) refl refl
    Step-Hangs {t = t} h (receive read e) = stays t h refl refl (λ never full. cc) refl refl

    -- Where `Start` is in a call of the assembler that gave a stream a piece, the call is not and the
    -- stream's goroutine has returned, or waits to send on a full channel that nobody receives from: then
    -- however the other goroutines go on, and whatever stops the sniffer, `Start` stays in that call, the
    -- sniffer's state stays what it is, and no stream is given another piece.
    pub Steps-Hangs :
        {i : ℕ} {s t : Assembly F} → IsHung i s → Steps returns reads s t → Hangs i s t
    Steps-Hangs h here = record { hung = h; same_state = refl; same_handed = refl }
    Steps-Hangs h (then_step ss st) =
        let a = Steps-Hangs h ss in
        let b = Step-Hangs a.hung st in
        record {
          hung = b.hung;
          same_state = b.same_state ∙ a.same_state;
          same_handed = b.same_handed ∙ a.same_handed;
        }

    -- The state in which the assembler gives stream `i` a piece.
    abbrev pub giving : ℕ → F → Bytes → Assembly F → Assembly F
    giving i net p s = record s {
      starter = calling i selecting;
      streams = update s.streams i (given net p (s.streams i));
      handed = s.handed ++ ((i, p) ∷ []);
    }

    pub giving-Gave :
        {i : ℕ} (net : F) (p n : Bytes) {one : Stream F} (s : Assembly F) {b t : Assembly F}
        → b.streams i ≡ one
        → b.handed ≡ s.handed ++ ((i, p) ∷ [])
        → (t ≡ b) ⊎ (t ≡ giving i net n b)
        → Gave i p n one (given net n one) s t
    giving-Gave {i} net p n s at h (inl e) =
        inl (ap (λ (x : Assembly F). x.streams i) e ∙ at, ap (λ (x : Assembly F). x.handed) e ∙ h)
    giving-Gave {i} net p n {one} s {b} at h (inr e) = inr (
      ap (λ (x : Assembly F). x.streams i) e
          ∙ update_same b.streams i (given net n (b.streams i))
          ∙ ap (given net n) at,
      ap (λ (x : Assembly F). x.handed) e
          ∙ ap (λ (l : List (ℕ × Bytes)). l ++ ((i, n) ∷ [])) h
          ∙ append_assoc s.handed ((i, p) ∷ []) ((i, n) ∷ []),
    )

    -- In a call for a stream that is read no further `Start` hangs, or does so at the next piece.
    pub IsHung-next :
        (s : Assembly F) (i : ℕ) (net : F) (p : Bytes)
        → s.starter ≡ calling i selecting
        → s.complete i ≡ false
        → IsUnread i s
        → IsUnread i (giving i net p s)
        → returns (given net p (s.streams i)) ≡ false
        → (t : Assembly F) × Steps returns reads s t
          × IsHung i t
          × ((t ≡ s) ⊎ (t ≡ giving i net p s))
    IsHung-next s i net p at not_ended u v no_return = elim (Bool-cases (returns (s.streams i))) [
      | inr never ↦ (
        s,
        here,
        record { place = selecting; at_call = at; not_read = never; unread = u },
        inl refl,
      )
      | inl returned ↦ (
        giving i net p s,
        then_step (then_step here (assembled selecting i at returned))
            (assemble selecting i net p refl not_ended),
        record {
          place = selecting;
          at_call = refl;
          not_read = ap returns (update_same s.streams i (given net p (s.streams i))) ∙ no_return;
          unread = v;
        },
        inr refl,
      )
    ]
