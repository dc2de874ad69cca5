-- ===== src/Webui/Send.antt =====
-- internal/webui/chat.go, SendChat: a message that the viewer of the web UI writes; and canned.go.
pub mod Laws
use go_meshtastic_serial2tcp.Prelude.{ℕ, true, false, some, []}
use go_meshtastic_serial2tcp.Prelude.Keys.{ℤ, Text, int_key}
use go_meshtastic_serial2tcp.Prelude.Text.{trim_space}
use go_meshtastic_serial2tcp.Meshtastic.{MeshPacket, PacketPayload}
use go_meshtastic_serial2tcp.Meshtastic.PortNum
use go_meshtastic_serial2tcp.Meshtastic.Printer.{Printer}
use go_meshtastic_serial2tcp.Broker.State.{Error}
use go_meshtastic_serial2tcp.Broker.Chat.{Sent, sent, refused}
use go_meshtastic_serial2tcp.Broker.Canned.Fetch.{Fetch}
use go_meshtastic_serial2tcp.Webui.Hub.{Hub, ChatMessage, name_of}
use go_meshtastic_serial2tcp.Webui.Labels.{marshal_proto_json_full}
use go_meshtastic_serial2tcp.Webui.Chat.{record_chat}
use go_meshtastic_serial2tcp.Webui.Packets.{to_uint32}
use go_meshtastic_serial2tcp.Webui.Radio.{Radio, Provided, no_radio, nil_broker, active}

-- The results of SendChat; a call of a method of the nil broker panics.
pub data ChatSent : Type 0 where
  chat_sent : ChatMessage → ChatSent
  chat_refused : Error → ChatSent
  not_connected panicked : ChatSent

-- chatMeshPacketJSON, the packet
abbrev pub chat_mesh_packet : ℕ → ℕ → ℤ → ℕ → Text → MeshPacket
chat_mesh_packet from to channel id text = record {
  from = from;
  to = to;
  channel = to_uint32 channel;
  id = id;
  rx_snr = 0;
  hop_limit = 0;
  want_ack = false;
  payload_variant =
      PacketPayload.decoded (
        some
          (record { portnum = PortNum.text_message_app; payload = text; want_response = false }));
  other_fields = [];
}

module _ (q : Printer) where
  abbrev pub sent_message : ℕ → Hub → ℕ → ℕ → ℤ → ℕ → Text → ChatMessage
  sent_message now h from to channel id text = record {
    time = now;
    text = text;
    from = from;
    to = to;
    channel = channel;
    channel_name = name_of h channel [];
    outgoing = true;
    packet_id = id;
    proto_json =
        marshal_proto_json_full (q.json_of_packet (chat_mesh_packet from to channel id text));
  }

  module _ {S : Type 0} where
    -- SendChat, after the radio has answered
    abbrev pub after_send : Radio S → ℕ → Hub → ℤ → ℕ → Text → S × Sent → Hub × S × ChatSent
    after_send r now h channel to text (s, refused e) = (h, s, chat_refused e)
    after_send r now h channel to text (s, sent id) =
        let msg = sent_message now h (r.local_node_num s) to channel id text in
        (record_chat now h msg, s, chat_sent msg)

    unfoldable pub send_chat : Provided S → ℕ → Hub → S → ℤ → ℕ → Text → Hub × S × ChatSent
    send_chat no_radio now h s channel to text = (h, s, not_connected)
    send_chat nil_broker now h s channel to text = (h, s, panicked)
    send_chat (active r) now h s channel to text =
        after_send r now h channel to (trim_space text)
          (r.send_text_message s channel to (trim_space text))

-- The results of FetchCanned, up to the select of FetchCannedMessages.
pub data CannedFetched : Type 0 where
  fetching : Fetch → CannedFetched
  unavailable panicked : CannedFetched

unfoldable pub fetch_canned : {S : Type 0} → Provided S → S → S × CannedFetched
fetch_canned no_radio s = (s, unavailable)
fetch_canned nil_broker s = (s, panicked)
fetch_canned (active r) s = ((r.fetch_canned_messages s).0, fetching (r.fetch_canned_messages s).1)
