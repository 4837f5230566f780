-- ===== src/Tests/Shared.antt =====
-- One sniffer with two readers, and one that is subscribed to again.
use zanarkand.Prelude.{
  ℕ, refl, some, update, Bool-cases, inl, inr, ◌==◌, ==_iff, subst, sym, update_same, update_other,
}
use zanarkand.Sniffer.Sharing.{Shared, new_shared, left, ended, Steps}
use zanarkand.Sniffer.Sharing.Again.{IsAway, RunsUnread, subscribe_again}

-- A sniffer that was started once and stopped.
abbrev stopped_once : Shared ℕ
stopped_once = record (new_shared 5) {
  current = some 0;
  made = 1;
  starts = update (new_shared {P = ℕ} 5).starts 0 (left 0);
  readers = update (new_shared {P = ℕ} 5).readers 0 ended;
}

all-IsAway : (k : ℕ) → IsAway (stopped_once.readers k)
all-IsAway k = elim (Bool-cases (0 == k)) [
  | inl same ↦
      subst (λ n. IsAway (stopped_once.readers n)) ((==_iff 0 k).0 same)
        (subst IsAway (sym (update_same (new_shared {P = ℕ} 5).readers 0 ended)) tt)
  | inr other ↦ subst IsAway (sym (update_other (new_shared {P = ℕ} 5).readers 0 k ended other)) tt
]

subscribe_again_example : (t : Shared ℕ) × Steps stopped_once t × RunsUnread 1 1 stopped_once t
subscribe_again_example =
    subscribe_again stopped_once 1 1 0 (λ e. cc) refl refl refl refl all-IsAway
