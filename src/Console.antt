-- ===== src/Console.antt =====
-- examples/craft_state/main.go and examples/message_printer/main.go: what the two programs share, the
-- set-up, the loop over what the subscriber's channels give, and the ways to end.
use zanarkand.Prelude.{ℕ, Bool, true, List, [], ◌∷◌, ◌++◌}
use zanarkand.Prelude.Format.{codes}
use zanarkand.Error.Printed.{Library, error_text}
use zanarkand.Prelude.Bytes.{Bytes}
use zanarkand.Error.{Error, Outcome, ok, err, panic}
use zanarkand.Message.{GameEventMessage}

-- What the goroutines give to `fakeMain`: a message from a channel, the error of `Subscribe`, or a signal.
pub data Received : Type 0 where
  ingress : GameEventMessage → Received
  egress : GameEventMessage → Received
  failed : Error → Received
  signal : ℕ → Received

-- The texts of other packages: of their errors, and of signals.
pub record Texts : Type 0 where
  pub errors : Library
  pub signal_text : ℕ → Bytes

-- How `fakeMain` ends: not yet, by `os.Exit` with a code from `log.Fatal`, by `return`, which runs what is
-- deferred, or by a panic.
pub data Ending : Type 0 where
  waiting panicked : Ending
  exited returned : ℕ → Ending

-- What tells the programs apart: what they say in front of the source when they start and when they have
-- stopped the sniffer, and the lines for a message from each channel. Lines stand without the time that the
-- log puts in front of them.
pub record Program : Type 0 where
  pub starting : Bytes
  pub stopped : Bytes
  pub on_ingress : GameEventMessage → List Bytes
  pub on_egress : GameEventMessage → List Bytes

module _ (t : Texts) (p : Program) where
  -- The loop of `fakeMain`.
  unfoldable pub loop : List Received → List Bytes × Ending
  loop [] = ([], waiting)
  loop (ingress m ∷ rs) = let (ls, end) = loop rs in (p.on_ingress m ++ ls, end)
  loop (egress m ∷ rs) = let (ls, end) = loop rs in (p.on_egress m ++ ls, end)
  loop (failed e ∷ rs) = (error_text t.errors e ∷ [], exited 1)
  loop (signal n ∷ rs) =
      ((codes "Received " ++ (t.signal_text n ++ codes " signal")) ∷ [], returned 0)

  -- The deferred function, which `return` runs: where the sniffer is active, it closes the subscriber and
  -- says so.
  unfoldable pub closing : Bool → Ending → List Bytes
  closing true (returned n) = p.stopped ∷ []
  closing active end = []

  -- `fakeMain` for the answer of `NewSniffer`, whether the sniffer is active when it returns, and what it
  -- receives.
  unfoldable pub fake_main :
      {S : Type 0} → Bytes → Outcome S → Bool → List Received → List Bytes × Ending
  unfolding loop closing
  fake_main src (ok s) active rs =
      let (ls, end) = loop rs in ((p.starting ++ (b' ' ∷ src)) ∷ (ls ++ closing active end), end)
  fake_main src (err e) active rs = (error_text t.errors e ∷ [], exited 1)
  fake_main src panic active rs = ([], panicked)
