-- ===== src/Broker/Debug/Payload/Hex.antt =====
-- internal/broker/broker.go, formatHexPayload: the payload can be read back from the log.
use go_meshtastic_serial2tcp.Prelude.{
  ℕ, ◌+◌, ◌*◌, ◌-◌, ◌/◌, ◌%◌, ◌<◌, ◌≡◌, refl, ap₂, List, [], ◌∷◌, if◌then◌else◌, ltb, arith,
}
use go_meshtastic_serial2tcp.Prelude.Keys.{Text}
use go_meshtastic_serial2tcp.Prelude.Format.{digit_char}
use go_meshtastic_serial2tcp.Broker.Debug.Payload.{hex_bytes, format_hex_payload}

abbrev pub Bytes8 : List ℕ → Type 0
Bytes8 [] = Unit
Bytes8 (c ∷ s) = (c < 256) × Bytes8 s

abbrev pub digit_value : ℕ → ℕ
digit_value c = if ltb c 58 then c - 48 else c - 87

-- Reads hexadecimal digits in pairs.
abbrev pub read_pairs : Text → List ℕ
read_pairs [] = []
read_pairs (a ∷ []) = []
read_pairs (a ∷ b ∷ s) = (digit_value a * 16 + digit_value b) ∷ read_pairs s

-- What follows the two characters in front.
abbrev pub read_hex : Text → List ℕ
read_hex (a ∷ b ∷ s) = read_pairs s
read_hex _ = []

pair :
    (c : ℕ)
    → c < 256
    → digit_value (digit_char (c / 16)) * 16 + digit_value (digit_char (c % 16)) ≡ c
pair c h = ground arith

read_pairs-hex_bytes : (bs : List ℕ) → Bytes8 bs → read_pairs (hex_bytes bs) ≡ bs
unfolding hex_bytes
read_pairs-hex_bytes [] h = refl
read_pairs-hex_bytes (c ∷ bs) h = ap₂ ◌∷◌ (pair c h.0) (read_pairs-hex_bytes bs h.1)

-- A payload of bytes, shown in hexadecimal by the log, is read back from what is shown, byte for
-- byte.
pub read_hex-format_hex_payload : (bs : List ℕ) → Bytes8 bs → read_hex (format_hex_payload bs) ≡ bs
unfolding format_hex_payload
read_hex-format_hex_payload bs h = read_pairs-hex_bytes bs h
