-- ===== src/Broker/Debug/Line.antt =====
-- internal/broker/broker.go, logDecodedPayload: the line of the log for a payload, in debug mode. The
-- JSON of the message, with the payload's text in it, is an argument.
use go_meshtastic_serial2tcp.Prelude.{
  ℕ, ◌-◌, ◌≡◌, ◌<◌, refl, Option, none, some, List, [], ◌++◌, length, length-take, take,
  if◌then◌else◌, ltb, lt→ltb, is_nil, arith,
}
use go_meshtastic_serial2tcp.Prelude.Keys.{Text}
use go_meshtastic_serial2tcp.Prelude.Text.{bytes}
use go_meshtastic_serial2tcp.Prelude.Format.{decimal}
use go_meshtastic_serial2tcp.Meshtastic.{MeshPacket, ToRadio, decoded_of}
use go_meshtastic_serial2tcp.Broker.Debug.Payload.{decode_data_payload}

abbrev pub debug_max_decoded : ℕ
debug_max_decoded = 2048

-- ToRadio.GetPacket
abbrev pub packet_to_radio : ToRadio → Option MeshPacket
packet_to_radio (ToRadio.packet p) = p
packet_to_radio _ = none

-- describeMeshPayload
unfoldable pub describe_mesh_payload : (ℕ → List ℕ → Option Text) → Option MeshPacket → Option Text
unfolding decode_data_payload
describe_mesh_payload as_json none = none
describe_mesh_payload as_json (some pkt) = elim (decoded_of pkt.payload_variant) [
  | none ↦ none
  | some d ↦ some (decode_data_payload as_json d)
]

unfoldable pub line_label : Text → Text → Text → Text
line_label direction addr variant =
    let label =
      if is_nil addr then direction else direction ++ (bytes " [" ++ (addr ++ bytes "]")) in
    if is_nil variant then label else label ++ (bytes " <" ++ (variant ++ bytes ">"))

-- What is shown of the JSON, and the note on what is not; the length in the note is taken after the
-- cut.
unfoldable pub shown_json : Text → Text × Text
shown_json json =
    if ltb debug_max_decoded (length json)
    then (let decoded = take debug_max_decoded json in
        (
          decoded,
          bytes " ...(truncated "
              ++ (decimal (length decoded - debug_max_decoded) ++ bytes " chars)"),
        ))
    else (json, [])

unfoldable pub decoded_line : Text → Text → Text → Text → Text
unfolding line_label shown_json
decoded_line direction addr variant json =
    let (decoded, truncated) = shown_json json in
    line_label direction addr variant ++ (bytes " decoded: " ++ (decoded ++ truncated))

-- Of a long JSON text the line shows the first 2048 bytes, and says that 0 are not shown.
shown_json-cut :
    (json : Text)
    → debug_max_decoded < length json
    → shown_json json ≡ (take debug_max_decoded json, bytes " ...(truncated 0 chars)")
unfolding shown_json decimal
shown_json-cut json long =
    let none_left : length (take debug_max_decoded json) - debug_max_decoded ≡ 0 =
      omega (arith, length-take debug_max_decoded json) in
    rw (lt→ltb debug_max_decoded (length json) long, none_left) refl
