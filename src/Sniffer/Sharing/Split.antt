-- ===== src/Sniffer/Sharing/Split.antt =====
-- What the readers of one sniffer get, however they and the calls of `Start` interleave.
use zanarkand.Prelude.{ℕ, ◌≤◌, ◌≡◌, List, ◌++◌, map, length}
use zanarkand.Sniffer.{SnifferState}
use zanarkand.Sniffer.Sharing.{StartPlace, looping, Shared}

-- The packets that were taken, by whichever reader.
abbrev pub packets : {P : Type 0} → List (ℕ × P) → List P
packets xs = map (λ x. x.1) xs

-- A call of `Start` in its loop.
abbrev pub HasLoop : (ℕ → StartPlace) → Type 0
HasLoop f = (i : ℕ) × (own : ℕ) × (w : ℕ) × (f i ≡ looping own w)

pub record IsSplit {P : Type 0} (size : ℕ) (s : Shared P) : Type 0 where
  pub split : packets s.taken ++ s.queue ≡ s.sent
  pub same_capacity : s.capacity ≡ size
  pub room : length s.queue ≤ size
  pub active : s.state ≡ SnifferState.running → HasLoop s.starts
