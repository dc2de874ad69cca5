-- ===== src/Webui/Labels.antt =====
-- internal/webui/proto.go: messages as JSON, and short names for their variants.
use go_meshtastic_serial2tcp.Prelude.{
  ℕ, ◌-◌, ◌&&◌, Option, none, some, [], ◌++◌, length, take, if◌then◌else◌, ltb,
}
use go_meshtastic_serial2tcp.Prelude.Keys.{Text}
use go_meshtastic_serial2tcp.Prelude.Text.{bytes}
use go_meshtastic_serial2tcp.Prelude.Format.{hex, decimal, signed, bool_text}
use go_meshtastic_serial2tcp.Meshtastic.{MeshPacket, FromRadio, ToRadio}

abbrev pub max_event_json : ℕ
max_event_json = 2048

-- marshalProtoJSONLimit, of what protojson gives; no limit if it is 0
unfoldable pub marshal_proto_json_limit : Option Text → ℕ → Text
marshal_proto_json_limit none max_len = []
marshal_proto_json_limit (some json) max_len =
    if ltb 0 max_len && ltb max_len (length json)
    then take max_len json
      ++ (bytes " ...(truncated " ++ (decimal (length json - max_len) ++ bytes " chars)"))
    else json

unfoldable pub marshal_proto_json : Option Text → Text
unfolding marshal_proto_json_limit
marshal_proto_json o = marshal_proto_json_limit o max_event_json

unfoldable pub marshal_proto_json_full : Option Text → Text
unfolding marshal_proto_json_limit
marshal_proto_json_full o = marshal_proto_json_limit o 0

-- Packet id=0x%x from=0x%x
unfoldable pub packet_label : Option MeshPacket → Text
packet_label none = bytes "Packet"
packet_label (some pkt) = bytes "Packet id=0x" ++ (hex pkt.id ++ (bytes " from=0x" ++ hex pkt.from))

-- protoVariantLabel; a variant without a label of its own has the name of its Go type.
unfoldable pub from_radio_variant : FromRadio → Text
unfolding packet_label
from_radio_variant (FromRadio.config_complete_id id) = bytes "ConfigCompleteId=0x" ++ hex id
from_radio_variant (FromRadio.rebooted b) = bytes "rebooted=" ++ bool_text b
from_radio_variant (FromRadio.packet p) = packet_label p
from_radio_variant (FromRadio.channel (some ch)) = bytes "Channel index=" ++ signed ch.index
from_radio_variant (FromRadio.channel none) = bytes "Channel"
from_radio_variant (FromRadio.config c) = bytes "Config"
from_radio_variant (FromRadio.module_config c) = bytes "ModuleConfig"
from_radio_variant (FromRadio.my_info i) = bytes "MyInfo"
from_radio_variant (FromRadio.node_info n) = bytes "NodeInfo"
from_radio_variant FromRadio.log_record = bytes "*generated.FromRadio_LogRecord"
from_radio_variant FromRadio.queue_status = bytes "*generated.FromRadio_QueueStatus"
from_radio_variant FromRadio.xmodem_packet = bytes "*generated.FromRadio_XmodemPacket"
from_radio_variant FromRadio.metadata = bytes "*generated.FromRadio_Metadata"
from_radio_variant FromRadio.mqtt_client_proxy_message =
    bytes "*generated.FromRadio_MqttClientProxyMessage"
from_radio_variant FromRadio.file_info = bytes "*generated.FromRadio_FileInfo"
from_radio_variant FromRadio.client_notification = bytes "*generated.FromRadio_ClientNotification"
from_radio_variant FromRadio.deviceui_config = bytes "*generated.FromRadio_DeviceuiConfig"
from_radio_variant FromRadio.lockdown_status = bytes "*generated.FromRadio_LockdownStatus"
from_radio_variant FromRadio.no_variant = []

-- protoVariantLabelTo
unfoldable pub to_radio_variant : ToRadio → Text
unfolding packet_label
to_radio_variant (ToRadio.want_config_id id) = bytes "WantConfigId=0x" ++ hex id
to_radio_variant (ToRadio.disconnect b) = bytes "Disconnect"
to_radio_variant (ToRadio.packet p) = packet_label p
to_radio_variant (ToRadio.xmodem_packet x) = bytes "*generated.ToRadio_XmodemPacket"
to_radio_variant (ToRadio.mqtt_client_proxy_message x) =
    bytes "*generated.ToRadio_MqttClientProxyMessage"
to_radio_variant (ToRadio.heartbeat x) = bytes "*generated.ToRadio_Heartbeat"
to_radio_variant ToRadio.no_variant = []
