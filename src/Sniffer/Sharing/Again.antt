-- ===== src/Sniffer/Sharing/Again.antt =====
-- A `Subscribe` of a sniffer that was stopped.
use zanarkand.Prelude.{
  ℕ, ◌≡◌, ◌≢◌, refl, sym, ◌∙◌, subst, true, false, some, update, update_same, update_other,
  Bool-cases, inl, inr, ◌==◌, ==_iff,
}
use zanarkand.Sniffer.{SnifferState}
use zanarkand.Sniffer.Sharing.{
  idle, spawned, entered, looping, ReaderPlace, unsubscribed, called, waiting, ended, crashed,
  Shared, subscribe, enter, run, enter_select, end, Steps, here, then_step,
}

-- A reader is not yet called, or has come back or panicked.
abbrev pub IsAway : ReaderPlace → Type 0
IsAway unsubscribed = Unit
IsAway ended = Unit
IsAway crashed = Unit
IsAway _ = ⊥

-- What the run below leaves of `s`: a sniffer in its loop, with a context of its own that is not
-- cancelled, and no reader that is in a call.
pub record RunsUnread {P : Type 0} (i j : ℕ) (s t : Shared P) : Type 0 where
  pub came_back : t.readers j ≡ ended
  pub no_reader : (k : ℕ) → IsAway (t.readers k)
  pub none_taken : t.taken ≡ s.taken
  pub is_running : t.state ≡ SnifferState.running
  pub in_loop : t.starts i ≡ looping s.made s.made
  pub not_cancelled : t.cancelled s.made ≡ false

-- A reader that comes back in its first select is away, and so are the others as before.
IsAway-again :
    (f : ℕ → ReaderPlace) (j w k : ℕ)
    → ((n : ℕ) → IsAway (f n))
    → IsAway (update (update (update f j called) j (waiting w)) j ended k)
IsAway-again f j w k h =
    let g : ℕ → ReaderPlace = update (update f j called) j (waiting w) in
    elim (Bool-cases (j == k)) [
      | inl same ↦
          subst (λ n. IsAway (update g j ended n)) ((==_iff j k).0 same)
            (subst IsAway (sym (update_same g j ended)) tt)
      | inr other ↦
          subst IsAway
            (sym (
              update_other g j k ended other
              ∙ update_other (update f j called) j k (waiting w) other
              ∙ update_other f j k called other))
            (h k)
    ]

-- Wherever `s.ctx` is cancelled, the sniffer is not active, as it is once it was stopped or its file has
-- ended, and no reader is in a call, a new `Subscribe` may return without a frame: it looks up the old context before its own `Start`
-- has made the new one. Then the sniffer runs, with a context
-- that is not cancelled, no reader is in a call, and none has taken a packet.
pub subscribe_again :
    {P : Type 0} (s : Shared P) (i j w : ℕ)
    → s.state ≢ SnifferState.running
    → s.current ≡ some w
    → s.cancelled w ≡ true
    → s.readers j ≡ unsubscribed
    → s.starts i ≡ idle
    → ((k : ℕ) → IsAway (s.readers k))
    → (t : Shared P) × Steps s t × RunsUnread i j s t
subscribe_again s i j w inactive current done new_reader new_start away = (
  _,
  then_step
      (then_step
        (then_step
          (then_step (then_step here (subscribe i j new_reader inactive new_start))
            (enter_select j w (update_same s.readers j called) current))
          (end j {w = w} (update_same (update s.readers j called) j (waiting w)) done))
        (enter i false (update_same s.starts i spawned)))
      (run i (update_same (update s.starts i spawned) i (entered s.made)) refl),
  record {
    came_back = update_same (update (update s.readers j called) j (waiting w)) j ended;
    no_reader = λ k. IsAway-again s.readers j w k away;
    none_taken = refl;
    is_running = refl;
    in_loop =
        update_same (update (update s.starts i spawned) i (entered s.made)) i
          (looping s.made s.made);
    not_cancelled = update_same s.cancelled s.made false;
  },
)
