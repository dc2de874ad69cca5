-- ===== src/Webui/Packets.antt =====
-- internal/webui/chat.go, the text messages in packets; and observer.go, isTextPort and isUTF8.
use go_meshtastic_serial2tcp.Prelude.{
  ℕ, ◌-◌, ◌^◌, Bool, true, ◌&&◌, ◌||◌, not, Option, none, some, List, [], ◌∷◌, map, if◌then◌else◌,
  ltb, ◌==◌, is_nil,
}
use go_meshtastic_serial2tcp.Prelude.Keys.{ℤ, pos, negsuc, Text}
use go_meshtastic_serial2tcp.Meshtastic.{Data, MeshPacket, decoded_of}
use go_meshtastic_serial2tcp.Meshtastic.PortNum
use go_meshtastic_serial2tcp.Meshtastic.Printer.{Printer}
use go_meshtastic_serial2tcp.Webui.Hub.{Hub, ChatMessage}
use go_meshtastic_serial2tcp.Webui.Protos.{proto_json_for_packet, lookup_packet_proto}
use go_meshtastic_serial2tcp.Webui.Chat.{set_proto, record_chat}

-- int32(x) of a uint32, and back
abbrev pub to_int32 : ℕ → ℤ
to_int32 x = if ltb x (2 ^ 31) then pos x else negsuc (2 ^ 32 - 1 - x)

abbrev pub to_uint32 : ℤ → ℕ
to_uint32 (pos n) = n
to_uint32 (negsuc n) = 2 ^ 32 - 1 - n

-- isTextPort and isChatPort are the same test.
unfoldable pub is_text_port : ℕ → Bool
is_text_port port =
    port == PortNum.text_message_app
    || (port == PortNum.reply_app
        || (port == PortNum.detection_sensor_app || port == PortNum.alert_app))

-- isUTF8: no control character but the line feed, the carriage return and the tab
unfoldable pub is_utf8 : Text → Bool
is_utf8 [] = true
is_utf8 (c ∷ s) = not (ltb c 0x20 && not (c == 10 || (c == 13 || c == 9))) && is_utf8 s

-- chatTextFromData
unfoldable pub chat_text_from_data : Data → Text
unfolding is_text_port is_utf8
chat_text_from_data d =
    if is_nil d.payload
    then []
    else if is_text_port d.portnum && is_utf8 d.payload
    then d.payload
    else []

-- The text of a packet that carries one.
unfoldable pub chat_text : MeshPacket → Text
unfolding chat_text_from_data
chat_text pkt = elim (decoded_of pkt.payload_variant) [
  | none ↦ []
  | some d ↦ if is_text_port d.portnum then chat_text_from_data d else []
]

module _ (q : Printer) where
  abbrev pub received_message : ℕ → Hub → MeshPacket → ℕ → ChatMessage
  received_message now h pkt local = record {
    time = now;
    text = chat_text pkt;
    from = pkt.from;
    to = pkt.to;
    channel = to_int32 pkt.channel;
    channel_name = [];
    outgoing = not (local == 0) && pkt.from == local;
    packet_id = pkt.id;
    proto_json = proto_json_for_packet q h (some pkt);
  }

  unfoldable pub try_record_chat_from_packet : ℕ → Hub → Option MeshPacket → ℕ → Hub
  unfolding chat_text
  try_record_chat_from_packet now h none local = h
  try_record_chat_from_packet now h (some pkt) local =
      if is_nil (chat_text pkt) then h else record_chat now h (received_message now h pkt local)

-- The JSON that a message without one has in the cache.
abbrev pub fill_proto : Hub → ChatMessage → ChatMessage
fill_proto h msg =
    if is_nil msg.proto_json && not (msg.packet_id == 0)
    then set_proto msg (lookup_packet_proto h msg.packet_id)
    else msg

-- SnapshotChat, newest first like the chat of the hub
unfoldable pub snapshot_chat : Hub → List ChatMessage
snapshot_chat h = map (fill_proto h) h.chats
