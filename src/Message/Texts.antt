-- ===== src/Message/Texts.antt =====
-- The `String` methods of message.go: what is printed of a message, and that its numbers can be read off
-- the text.
use zanarkand.Prelude.{ℕ, ◌^◌, ◌<◌, ◌≡◌, refl, sym, ◌∙◌, List, [], ◌∷◌, ◌++◌, All, arith}
use zanarkand.Prelude.Bytes.{Bytes}
use zanarkand.Prelude.Radix.{decimal, hexadecimal, decimal-IsRadix}
use zanarkand.Prelude.Format.{Format, IsFormat, sprintf, sprintf-append, sprintf-injective, codes}
use zanarkand.Message.{GenericHeader, GameEventMessage, KeepaliveMessage}

abbrev header_format : Format
header_format =
    (codes "Segment - size: ", decimal)
    ∷ (codes ", source: ", decimal)
    ∷ (codes ", target: ", decimal)
    ∷ (codes ", segment: ", decimal)
    ∷ []

abbrev newline : Bytes
newline = b'\n' ∷ []

abbrev pub header_numbers : GenericHeader → List ℕ
header_numbers h = h.length ∷ h.source_actor ∷ h.target_actor ∷ h.segment ∷ []

-- `GenericHeader.String`
unfoldable pub header_text : GenericHeader → Bytes
header_text h = sprintf header_format (header_numbers h) newline

abbrev game_event_format : Format
game_event_format =
    (codes "Message - server: ", decimal)
    ∷ (codes ", opcode: 0x", hexadecimal)
    ∷ (codes ", timestamp: ", decimal)
    ∷ []

abbrev pub game_event_numbers : GameEventMessage → List ℕ
game_event_numbers m = m.server_id ∷ m.opcode ∷ m.timestamp ∷ []

-- `GameEventMessage.String`
unfoldable pub game_event_text : GameEventMessage → Bytes
unfolding header_text
game_event_text m = header_text m.header ++ sprintf game_event_format (game_event_numbers m) newline

abbrev keepalive_format : Format
keepalive_format = (codes "Message - ID: ", decimal) ∷ (codes ", timestamp: ", decimal) ∷ []

abbrev pub keepalive_numbers : KeepaliveMessage → List ℕ
keepalive_numbers m = m.id ∷ m.timestamp ∷ []

-- `KeepaliveMessage.String`
unfoldable pub keepalive_text : KeepaliveMessage → Bytes
unfolding header_text
keepalive_text m = header_text m.header ++ sprintf keepalive_format (keepalive_numbers m) newline

header_format-IsFormat : IsFormat header_format newline
header_format-IsFormat = (
  decimal-IsRadix,
  omega arith,
  refl,
  (
    decimal-IsRadix,
    omega arith,
    refl,
    (decimal-IsRadix, omega arith, refl, (decimal-IsRadix, omega arith, refl, tt)),
  ),
)

keepalive_format-IsFormat : IsFormat keepalive_format newline
keepalive_format-IsFormat =
    (decimal-IsRadix, omega arith, refl, (decimal-IsRadix, omega arith, refl, tt))

-- Numbers of at most 64 bits.
abbrev pub Fit64 : List ℕ → Type 0
Fit64 = All (λ n. n < 2 ^ 64)

-- A header's text in front of another text.
header_text-injective :
    (h k : GenericHeader) (p q : Bytes)
    → Fit64 (header_numbers h)
    → Fit64 (header_numbers k)
    → header_text h ++ p ≡ header_text k ++ q
    → (header_numbers h ≡ header_numbers k) × (p ≡ q)
unfolding header_text
header_text-injective h k p q f g e =
    sprintf-injective header_format (header_numbers h) (header_numbers k) newline p q
      header_format-IsFormat refl refl f g
      (sym (sprintf-append header_format (header_numbers h) newline p)
        ∙ e
        ∙ sprintf-append header_format (header_numbers k) newline q)

keepalive_text-injective :
    (m k : KeepaliveMessage)
    → Fit64 (header_numbers m.header)
    → Fit64 (header_numbers k.header)
    → Fit64 (keepalive_numbers m)
    → Fit64 (keepalive_numbers k)
    → keepalive_text m ≡ keepalive_text k
    → (header_numbers m.header ≡ header_numbers k.header)
      × (keepalive_numbers m ≡ keepalive_numbers k)
unfolding keepalive_text
keepalive_text-injective m k f g a b e =
    let (same, later) = header_text-injective m.header k.header _ _ f g e in
    (
      same,
      (sprintf-injective keepalive_format (keepalive_numbers m) (keepalive_numbers k) newline [] []
          keepalive_format-IsFormat refl refl a b later).0,
    )
