-- ===== src/Meshtastic/Toy.antt =====
-- A small encoding of a few messages, for runs on concrete data. The real one is
-- google.golang.org/protobuf.
use go_meshtastic_serial2tcp.Prelude.{
  ℕ, ◌==◌, if◌then◌else◌, true, false, Option, none, some, List, [], ◌∷◌,
}
use go_meshtastic_serial2tcp.Meshtastic.{
  Codec, MeshPacket, PacketPayload, FromRadio, ToRadio, AdminMessage,
}

abbrev pub packet_on : ℕ → ℕ → MeshPacket
packet_on id port = record {
  from = 5;
  to = 6;
  channel = 0;
  id = id;
  rx_snr = 0;
  hop_limit = 3;
  want_ack = false;
  payload_variant =
      PacketPayload.decoded (some (record { portnum = port; payload = []; want_response = false }));
  other_fields = [];
}

marshal_from_radio : FromRadio → Option (List ℕ)
marshal_from_radio (FromRadio.packet (some pkt)) = some (2 ∷ pkt.id ∷ [])
marshal_from_radio (FromRadio.config_complete_id id) = some (8 ∷ id ∷ [])
marshal_from_radio _ = none

unmarshal_from_radio : List ℕ → Option FromRadio
unmarshal_from_radio (tag ∷ id ∷ port ∷ []) =
    if tag == 2 then some (FromRadio.packet (some (packet_on id port))) else none
unmarshal_from_radio (tag ∷ n ∷ []) =
    if tag == 8
    then some (FromRadio.config_complete_id n)
    else if tag == 3
    then some (FromRadio.my_info (some n))
    else none
unmarshal_from_radio (tag ∷ []) = if tag == 9 then some (FromRadio.rebooted true) else none
unmarshal_from_radio _ = none

marshal_to_radio : ToRadio → Option (List ℕ)
marshal_to_radio (ToRadio.packet (some pkt)) = some (1 ∷ pkt.id ∷ [])
marshal_to_radio (ToRadio.want_config_id id) = some (3 ∷ id ∷ [])
marshal_to_radio _ = none

unmarshal_to_radio : List ℕ → Option ToRadio
unmarshal_to_radio (tag ∷ id ∷ port ∷ []) =
    if tag == 1 then some (ToRadio.packet (some (packet_on id port))) else none
unmarshal_to_radio (tag ∷ id ∷ []) = if tag == 3 then some (ToRadio.want_config_id id) else none
unmarshal_to_radio (tag ∷ []) = if tag == 4 then some (ToRadio.disconnect true) else none
unmarshal_to_radio _ = none

marshal_admin : AdminMessage → Option (List ℕ)
marshal_admin (AdminMessage.get_canned_messages_request b) = some (1 ∷ [])
marshal_admin (AdminMessage.get_canned_messages_response raw) = some (2 ∷ raw)
marshal_admin _ = none

unmarshal_admin : List ℕ → Option AdminMessage
unmarshal_admin [] = none
unmarshal_admin (tag ∷ raw) =
    if tag == 2
    then some (AdminMessage.get_canned_messages_response raw)
    else some (AdminMessage.get_canned_messages_request true)

unfoldable pub toy : Codec
unfolding marshal_from_radio unmarshal_from_radio marshal_to_radio unmarshal_to_radio marshal_admin
    unmarshal_admin
toy = record {
  marshal_from_radio = marshal_from_radio;
  unmarshal_from_radio = unmarshal_from_radio;
  marshal_to_radio = marshal_to_radio;
  unmarshal_to_radio = unmarshal_to_radio;
  marshal_admin = marshal_admin;
  unmarshal_admin = unmarshal_admin;
}
