-- ===== src/Broker/Chat.antt =====
-- internal/broker/chat.go: a text message that the web UI sends.
pub mod Laws
pub mod Invariant
use go_meshtastic_serial2tcp.Prelude.{
  ℕ, true, false, Option, none, some, [], length, if◌then◌else◌, ◌==◌, ltb, is_nil,
}
use go_meshtastic_serial2tcp.Prelude.Keys.{ℤ, pos, negsuc, Text}
use go_meshtastic_serial2tcp.Prelude.Text.{trim_space}
use go_meshtastic_serial2tcp.Meshtastic.{Codec, MeshPacket, PacketPayload, FromRadio, ToRadio}
use go_meshtastic_serial2tcp.Meshtastic.PortNum
use go_meshtastic_serial2tcp.Broker.Cache.{local_node_num}
use go_meshtastic_serial2tcp.Broker.State.{
  Broker, Error, serial_not_ready, empty_message, message_too_long, invalid_channel,
  node_id_unknown,
}
use go_meshtastic_serial2tcp.Broker.Delivery.{broadcast}
use go_meshtastic_serial2tcp.Broker.Serial.{forward_to_serial}

abbrev pub max_text_len : ℕ
max_text_len = 200

-- nextPacketID: the random word, `none` if the random source fails.
unfoldable pub next_packet_id : Option ℕ → ℕ
next_packet_id none = 1
next_packet_id (some id) = if id == 0 then 1 else id

-- The id of the packet, or the error.
pub data Sent : Type 0 where
  sent : ℕ → Sent
  refused : Error → Sent

abbrev pub text_packet : ℕ → ℕ → ℕ → ℕ → Text → MeshPacket
text_packet from to channel id text = record {
  from = from;
  to = to;
  channel = channel;
  id = id;
  rx_snr = 0;
  hop_limit = 3;
  want_ack = true;
  payload_variant =
      PacketPayload.decoded (
        some
          (record { portnum = PortNum.text_message_app; payload = text; want_response = false }));
  other_fields = [];
}

module _ (p : Codec) where
  -- The copy for the clients, all of them.
  pub share_text : Broker → MeshPacket → Broker
  share_text b pkt = elim (p.marshal_from_radio (FromRadio.packet (some pkt))) [
    | none ↦ b
    | some x ↦ broadcast p b x
  ]

  pub forwarded_text : MeshPacket → Broker × Option Error → Broker × Sent
  unfolding share_text
  forwarded_text pkt (b, none) = (share_text b pkt, sent pkt.id)
  forwarded_text pkt (b, some e) = (b, refused e)

  pub transmit_text : Broker → MeshPacket → Broker × Sent
  unfolding forwarded_text
  transmit_text b pkt = forwarded_text pkt (forward_to_serial p b (ToRadio.packet (some pkt)))

  -- A channel index that is not negative, and the radio's node number.
  pub address_text : Broker → ℤ → ℕ → Text → Option ℕ → Broker × Sent
  unfolding transmit_text
  address_text b (negsuc n) to text draw = (b, refused invalid_channel)
  address_text b (pos c) to text draw = elim (local_node_num p b.cache) [
    | none ↦ (b, refused node_id_unknown)
    | some from ↦ transmit_text b (text_packet from to c (next_packet_id draw) text)
  ]

  pub send_trimmed : Broker → ℤ → ℕ → Text → Option ℕ → Broker × Sent
  unfolding address_text
  send_trimmed b ch to text draw =
      if is_nil text
      then (b, refused empty_message)
      else if ltb max_text_len (length text)
      then (b, refused message_too_long)
      else address_text b ch to text draw

  unfoldable pub send_text_message : Broker → ℤ → ℕ → Text → Option ℕ → Broker × Sent
  unfolding send_trimmed
  send_text_message b ch to text draw =
      if b.done then (b, refused serial_not_ready) else send_trimmed b ch to (trim_space text) draw
