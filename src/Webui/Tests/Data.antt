-- ===== src/Webui/Tests/Data.antt =====
-- internal/webui: small data for the tests. A payload is a text message whose id is its first byte.
use go_meshtastic_serial2tcp.Prelude.{ℕ, false, none, some, [], ◌∷◌}
use go_meshtastic_serial2tcp.Prelude.Keys.{Text, nat_key}
use go_meshtastic_serial2tcp.Prelude.Assoc.{keys}
use go_meshtastic_serial2tcp.Meshtastic.{
  Codec, MeshPacket, PacketPayload, FromRadio, ToRadio, NodeInfo,
}
use go_meshtastic_serial2tcp.Meshtastic.Printer.{Printer}
use go_meshtastic_serial2tcp.Webui.Observer.{Ambient}
use go_meshtastic_serial2tcp.Webui.Hub.{Event}

abbrev pub hi : Text
hi = 104 ∷ 105 ∷ []

abbrev pub text_message : ℕ → MeshPacket
text_message id = record {
  from = 7;
  to = 9;
  channel = 0;
  id = id;
  rx_snr = 3;
  hop_limit = 3;
  want_ack = false;
  payload_variant =
      PacketPayload.decoded (some (record { portnum = 1; payload = hi; want_response = false }));
  other_fields = [];
}

abbrev pub plain : Printer
plain = record {
  hardware_model = λ m. 109 ∷ m ∷ [];
  device_role = λ r. 114 ∷ [];
  channel_role = λ r. 114 ∷ [];
  port_name = λ n. 112 ∷ [];
  json_of_packet = λ pkt. some (123 ∷ pkt.id ∷ []);
  json_of_from_radio = λ frame. some (123 ∷ []);
  json_of_to_radio = λ frame. some (123 ∷ []);
}

abbrev pub texts : Codec
texts = record {
  marshal_from_radio = λ frame. some (1 ∷ []);
  unmarshal_from_radio =
      λ bs. elim bs [ [] ↦ none | b ∷ rest ↦ some (FromRadio.packet (some (text_message b))) ];
  marshal_to_radio = λ frame. some (1 ∷ []);
  unmarshal_to_radio =
      λ bs. elim bs [ [] ↦ none | b ∷ rest ↦ some (ToRadio.packet (some (text_message b))) ];
  marshal_admin = λ m. none;
  unmarshal_admin = λ bs. none;
}

-- No radio is connected.
abbrev pub calm : Ambient
calm = record { now = 5000000000; range = keys; local = some 0 }

abbrev pub alice : NodeInfo
alice = record {
  num = 7;
  user =
      some (record {
        id = 33 ∷ [];
        long_name = 65 ∷ 108 ∷ [];
        short_name = [];
        hw_model = 0;
        role = 0;
      });
  position = none;
  snr = 0;
  last_heard = 1;
  device_metrics = none;
  via_mqtt = false;
  hops_away = none;
  is_favorite = false;
  is_ignored = false;
}

abbrev pub note : Event
note = record {
  time = 0;
  direction = [];
  addr = [];
  variant = [];
  category = [];
  channel_index = none;
  channel_name = [];
  summary = 110 ∷ [];
  json = [];
}
