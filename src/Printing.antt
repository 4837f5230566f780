-- ===== src/Printing.antt =====
-- examples/message_printer/main.go: a program that prints every game event.
use zanarkand.Prelude.{Bool, List, [], ◌∷◌, ◌++◌}
use zanarkand.Prelude.Bytes.{Bytes}
use zanarkand.Prelude.Format.{codes}
use zanarkand.Message.Texts.{game_event_text}
use zanarkand.Sniffer.Config.{Mode, file, pcap, Openers, new_sniffer}
use zanarkand.Console.{Texts, Received, Ending, Program, fake_main}

-- The source for `NewSniffer`: the file of `-f` where the mode of `-m` asks for one, and else the interface
-- of `-i`.
source_of : Mode → Bytes → Bytes → Bytes
source_of file path inet = path
source_of pcap path inet = inet
source_of _ path inet = inet

-- What the program says, and the cases of the select for messages.
unfoldable pub printing : Program
printing = record {
  starting = codes "Starting sniffer from source";
  stopped = codes "Stopped active snifer";
  on_ingress = λ m. (codes "Received: " ++ game_event_text m) ∷ [];
  on_egress = λ m. (codes "Sent: " ++ game_event_text m) ∷ [];
}

-- The program for its flags, with the functions that open a device.
message_printer :
    {H : Type 0}
    → Texts
    → Openers H
    → Mode
    → Bytes
    → Bytes
    → Bool
    → List Received
    → List Bytes × Ending
unfolding source_of printing
message_printer t dev mode path inet active rs =
    let src = source_of mode path inet in
    fake_main t printing src (new_sniffer dev mode src []) active rs
