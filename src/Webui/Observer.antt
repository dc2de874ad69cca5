-- ===== src/Webui/Observer.antt =====
-- internal/webui/observer.go: what a payload adds to the hub.
pub mod Keeps
pub mod Invariant
pub mod Once
pub mod Events
use go_meshtastic_serial2tcp.Prelude.{
  ℕ, Bool, true, false, ◌&&◌, Option, none, some, [], ◌∷◌, ◌++◌, if◌then◌else◌, is_nil,
}
use go_meshtastic_serial2tcp.Prelude.Keys.{Text}
use go_meshtastic_serial2tcp.Prelude.Text.{bytes}
use go_meshtastic_serial2tcp.Meshtastic.{
  Codec, Data, MeshPacket, Channel, FromRadio, ToRadio, decoded_of,
}
use go_meshtastic_serial2tcp.Meshtastic.Printer.{Printer}
use go_meshtastic_serial2tcp.Webui.Hub.{Hub, Event, name_of, record_event, update_channel}
use go_meshtastic_serial2tcp.Webui.Labels.{marshal_proto_json, from_radio_variant, to_radio_variant}
use go_meshtastic_serial2tcp.Webui.Nodes.{
  set_local_node_num, update_node_from_info, touch_node_activity, node_info_summary,
}
use go_meshtastic_serial2tcp.Webui.Protos.{Range, cache_packet_proto}
use go_meshtastic_serial2tcp.Webui.Packets.{
  to_int32, is_text_port, is_utf8, try_record_chat_from_packet,
}

-- What a call finds: the time, the order of `range` over the cache of packets, and what
-- LocalNodeNum of the radio returns. That is 0 also where there is no radio provider; `none` is a
-- provider that returns a nil broker, whose LocalNodeNum panics.
pub record Ambient : Type 0 where
  pub now : ℕ
  pub range : Range
  pub local : Option ℕ

-- Event{}, with what every observed frame sets
abbrev pub new_event : Text → Text → Text → Text → Event
new_event dir addr variant json = record {
  time = 0;
  direction = dir;
  addr = addr;
  variant = variant;
  category = [];
  channel_index = none;
  channel_name = [];
  summary = [];
  json = json;
}

abbrev pub in_category : Text → Event → Event
in_category c ev = record ev { category = c }

abbrev pub with_summary : Text → Event → Event
with_summary s ev = record ev { summary = s }

abbrev pub channel_of : Option Text → Text
channel_of none = []
channel_of (some name) = name

module _ (q : Printer) where
  unfoldable pub packet_summary : Data → Text
  packet_summary d =
      if is_nil d.payload
      then q.port_name d.portnum
      else if is_text_port d.portnum && is_utf8 d.payload
      then q.port_name d.portnum ++ (bytes ": " ++ d.payload)
      else q.port_name d.portnum

  -- enrichPacketEvent: the event, and the hub
  abbrev pub packet_event : Hub → Event → Option MeshPacket → Event
  packet_event h ev none = ev
  packet_event h ev (some pkt) = record ev {
    channel_index = some (to_int32 pkt.channel);
    channel_name = name_of h (to_int32 pkt.channel) ev.channel_name;
    summary = elim (decoded_of pkt.payload_variant) [
      | none ↦ ev.summary
      | some d ↦ packet_summary d
    ];
  }

  abbrev pub touch_sender : ℕ → Hub → Option MeshPacket → Hub
  touch_sender now h none = h
  touch_sender now h (some pkt) = touch_node_activity now h pkt.from pkt.rx_snr now

  -- tryRecordChatPacket
  unfoldable pub try_record_chat_packet : Ambient → Hub → Option MeshPacket → Option Hub
  try_record_chat_packet a h none = some h
  try_record_chat_packet a h (some pkt) = elim a.local [
    | none ↦ none
    | some local ↦ some (try_record_chat_from_packet q a.now h (some pkt) local)
  ]

  abbrev pub then_record : Ambient → Event → Option Hub → Option Hub
  then_record a ev none = none
  then_record a ev (some h) = some (record_event a.now h ev)

  -- The case of a packet, of both directions.
  unfoldable pub observe_packet : Ambient → Hub → Event → Option MeshPacket → Option Hub
  unfolding try_record_chat_packet
  observe_packet a h ev pkt =
      then_record a (packet_event h (in_category (bytes "packet") ev) pkt)
        (try_record_chat_packet a (cache_packet_proto q a.range (touch_sender a.now h pkt) pkt) pkt)

  abbrev pub observe_channel : Ambient → Hub → Event → Channel → Option Hub
  observe_channel a h ev ch = some (
      record_event a.now
        (update_channel a.now h ch.index (channel_of ch.settings) (q.channel_role ch.role))
        (record ev {
          category = bytes "channel";
          channel_index = some ch.index;
          channel_name = channel_of ch.settings;
          summary = bytes "channel definition";
        }))

  abbrev pub observe_other : Ambient → Hub → Event → Text → Option Hub
  observe_other a h ev category = some (record_event a.now h (in_category category ev))

  -- observeFromRadio, from the switch on
  unfoldable pub observe_variant : Ambient → Hub → Event → FromRadio → Option Hub
  unfolding observe_packet
  observe_variant a h ev (FromRadio.channel (some ch)) = observe_channel a h ev ch
  observe_variant a h ev (FromRadio.channel none) = observe_other a h ev []
  observe_variant a h ev (FromRadio.packet pkt) = observe_packet a h ev pkt
  observe_variant a h ev (FromRadio.node_info (some info)) =
      observe_other a (update_node_from_info q a.now h (some info))
        (with_summary (node_info_summary (some info)) ev) (bytes "config")
  observe_variant a h ev (FromRadio.node_info none) = observe_other a h ev []
  observe_variant a h ev (FromRadio.my_info (some num)) =
      observe_other a (set_local_node_num a.now h num) (with_summary (bytes "MyInfo") ev)
        (bytes "config")
  observe_variant a h ev (FromRadio.my_info none) = observe_other a h ev []
  observe_variant a h ev (FromRadio.config c) = observe_other a h ev (bytes "config")
  observe_variant a h ev (FromRadio.module_config c) = observe_other a h ev (bytes "config")
  observe_variant a h ev (FromRadio.config_complete_id id) = observe_other a h ev (bytes "config")
  observe_variant a h ev FromRadio.metadata = observe_other a h ev (bytes "config")
  observe_variant a h ev FromRadio.deviceui_config = observe_other a h ev (bytes "config")
  observe_variant a h ev FromRadio.log_record = observe_other a h ev (bytes "debug")
  observe_variant a h ev (FromRadio.rebooted b) = observe_other a h ev (bytes "debug")
  observe_variant a h ev FromRadio.queue_status = observe_other a h ev (bytes "debug")
  observe_variant a h ev FromRadio.xmodem_packet = observe_other a h ev (bytes "debug")
  observe_variant a h ev FromRadio.mqtt_client_proxy_message = observe_other a h ev (bytes "debug")
  observe_variant a h ev FromRadio.file_info = observe_other a h ev (bytes "debug")
  observe_variant a h ev FromRadio.client_notification = observe_other a h ev (bytes "debug")
  observe_variant a h ev FromRadio.lockdown_status = observe_other a h ev (bytes "debug")
  observe_variant a h ev FromRadio.no_variant = observe_other a h ev (bytes "debug")

  abbrev pub radio_event : Text → Text → FromRadio → Event
  radio_event dir addr frame =
      new_event dir addr (from_radio_variant frame)
        (marshal_proto_json (q.json_of_from_radio frame))

  abbrev pub request_event : Text → Text → ToRadio → Event
  request_event dir addr frame =
      new_event dir addr (to_radio_variant frame) (marshal_proto_json (q.json_of_to_radio frame))

  unfoldable pub observe_from_radio : Ambient → Hub → Text → Text → FromRadio → Option Hub
  unfolding observe_variant
  observe_from_radio a h dir addr frame = observe_variant a h (radio_event dir addr frame) frame

  -- observeToRadio, from the switch on
  unfoldable pub observe_request : Ambient → Hub → Event → ToRadio → Option Hub
  unfolding observe_packet
  observe_request a h ev (ToRadio.packet pkt) = observe_packet a h ev pkt
  observe_request a h ev (ToRadio.want_config_id id) =
      observe_other a h (with_summary (bytes "WantConfigId") ev) (bytes "config")
  observe_request a h ev (ToRadio.disconnect b) = observe_other a h ev (bytes "debug")
  observe_request a h ev (ToRadio.xmodem_packet x) = observe_other a h ev (bytes "debug")
  observe_request a h ev (ToRadio.mqtt_client_proxy_message x) =
      observe_other a h ev (bytes "debug")
  observe_request a h ev (ToRadio.heartbeat x) = observe_other a h ev (bytes "debug")
  observe_request a h ev ToRadio.no_variant = observe_other a h ev (bytes "debug")

  unfoldable pub observe_to_radio : Ambient → Hub → Text → Text → ToRadio → Option Hub
  unfolding observe_request
  observe_to_radio a h dir addr frame = observe_request a h (request_event dir addr frame) frame

  -- ObservePayload; `none` is a panic.
  unfoldable pub observe_payload : Codec → Ambient → Hub → Text → Text → Text → Bool → Option Hub
  observe_payload p a h dir addr [] from_radio = some h
  observe_payload p a h dir addr (c ∷ payload) true = elim (p.unmarshal_from_radio (c ∷ payload)) [
    | none ↦ some h
    | some frame ↦ observe_from_radio a h dir addr frame
  ]
  observe_payload p a h dir addr (c ∷ payload) false = elim (p.unmarshal_to_radio (c ∷ payload)) [
    | none ↦ some h
    | some frame ↦ observe_to_radio a h dir addr frame
  ]
