-- ===== src/Broker/Debug/Payload.antt =====
-- internal/broker/broker.go, decodeDataPayload: the text in which the log shows the payload of a
-- packet.
pub mod Hex
use go_meshtastic_serial2tcp.Prelude.{
  ℕ, zero, suc, ◌+◌, ◌/◌, ◌%◌, ◌<◌, Bool, true, false, ◌&&◌, ◌||◌, Option, none, some, List, [],
  ◌∷◌, ◌++◌, if◌then◌else◌, ◌==◌, leb, ltb, is_nil, arith,
}
use go_meshtastic_serial2tcp.Prelude.Keys.{Text}
use go_meshtastic_serial2tcp.Prelude.Text.{bytes}
use go_meshtastic_serial2tcp.Prelude.Format.{digit_char}
use go_meshtastic_serial2tcp.Meshtastic.{Data}
use go_meshtastic_serial2tcp.Meshtastic.PortNum

-- What the first byte of a rune in UTF-8 asks for: how many bytes follow it, and the range of the
-- first of them.
abbrev pub lead : ℕ → Option (ℕ × ℕ × ℕ)
lead c =
    if ltb c 0x80
    then some (0, 0, 0)
    else if ltb c 0xC2
    then none
    else if ltb c 0xE0
    then some (1, 0x80, 0xBF)
    else if c == 0xE0
    then some (2, 0xA0, 0xBF)
    else if c == 0xED
    then some (2, 0x80, 0x9F)
    else if ltb c 0xF0
    then some (2, 0x80, 0xBF)
    else if c == 0xF0
    then some (3, 0x90, 0xBF)
    else if ltb c 0xF4
    then some (3, 0x80, 0xBF)
    else if c == 0xF4
    then some (3, 0x80, 0x8F)
    else none

-- utf8.Valid, where `n` bytes of a rune are missing, the next of them in a range
unfoldable pub utf8_from : ℕ → ℕ → ℕ → Text → Bool
utf8_from zero lo hi [] = true
utf8_from (suc n) lo hi [] = false
utf8_from zero lo hi (c ∷ s) = elim (lead c) [
  | none ↦ false
  | some (n, lo', hi') ↦ utf8_from n lo' hi' s
]
utf8_from (suc n) lo hi (c ∷ s) = (leb lo c && leb c hi) && utf8_from n 0x80 0xBF s

-- hex.EncodeToString
unfoldable pub hex_bytes : List ℕ → Text
hex_bytes [] = []
hex_bytes (c ∷ s) = digit_char (c / 16) ∷ digit_char (c % 16) ∷ hex_bytes s

unfoldable pub format_hex_payload : List ℕ → Text
unfolding hex_bytes
format_hex_payload payload = bytes "0x" ++ hex_bytes payload

unfoldable pub format_text_payload : List ℕ → Text
unfolding format_hex_payload utf8_from
format_text_payload payload =
    if is_nil payload
    then []
    else if utf8_from 0 0 0 payload
    then payload
    else format_hex_payload payload

abbrev pub is_shown_text : ℕ → Bool
is_shown_text port =
    port == PortNum.text_message_app
    || (port == PortNum.detection_sensor_app
        || (port == PortNum.alert_app
            || (port == PortNum.reply_app || port == PortNum.range_test_app)))

-- The ports whose payload is a protobuf message.
abbrev pub is_message_port : ℕ → Bool
is_message_port port =
    port == PortNum.position_app
    || (port == PortNum.nodeinfo_app
        || (port == PortNum.routing_app
            || (port == PortNum.admin_app
                || (port == PortNum.waypoint_app
                    || (port == PortNum.key_verification_app
                        || (port == PortNum.paxcounter_app
                            || (port == PortNum.store_forward_app
                                || (port == PortNum.node_status_app
                                    || (port == PortNum.telemetry_app
                                        || (port == PortNum.traceroute_app
                                            || (port == PortNum.neighborinfo_app
                                                || (port == PortNum.map_report_app
                                                    || port == PortNum.powerstress_app))))))))))))

-- formatProtoPayload; `as_json port payload` is the JSON of the message of the port's type, `none`
-- if the payload is none or the message does not marshal.
unfoldable pub format_proto_payload : (ℕ → List ℕ → Option Text) → ℕ → List ℕ → Option Text
format_proto_payload as_json port payload =
    if is_nil payload then some (bytes "<empty>") else as_json port payload

abbrev pub opaque_payload : List ℕ → Text
opaque_payload payload = if is_nil payload then bytes "<empty>" else format_hex_payload payload

abbrev pub or_opaque : List ℕ → Option Text → Text
or_opaque payload none = opaque_payload payload
or_opaque payload (some json) = json

unfoldable pub decode_data_payload : (ℕ → List ℕ → Option Text) → Data → Text
unfolding format_text_payload format_hex_payload format_proto_payload
decode_data_payload as_json d =
    if is_shown_text d.portnum
    then format_text_payload d.payload
    else if d.portnum == PortNum.text_message_compressed_app
    then format_hex_payload d.payload
    else if is_message_port d.portnum
    then or_opaque d.payload (format_proto_payload as_json d.portnum d.payload)
    else opaque_payload d.payload
