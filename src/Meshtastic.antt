-- ===== src/Meshtastic.antt =====
-- internal/meshtastic: the messages that the program reads, with the fields that it uses. The rest
-- of a packet stands in one opaque field. A nil pointer is `none`; a string or byte slice is the
-- list of its bytes, `[]` where it is nil; a float32 is its bit pattern.
-- The encoding itself is google.golang.org/protobuf, which the repository only calls: a `Codec`.
pub mod PortNum
pub mod Toy
pub mod Printer
use go_meshtastic_serial2tcp.Prelude.{ℕ, Bool, Option, none, List}
use go_meshtastic_serial2tcp.Prelude.Keys.{ℤ, Text}

pub record Data : Type 0 where
  pub portnum : ℕ
  pub payload : List ℕ
  pub want_response : Bool

pub data PacketPayload : Type 0 where
  decoded : Option Data → PacketPayload
  encrypted : List ℕ → PacketPayload
  no_payload : PacketPayload

pub record MeshPacket : Type 0 where
  pub from : ℕ
  pub to : ℕ
  pub channel : ℕ
  pub id : ℕ
  pub rx_snr : ℕ
  pub hop_limit : ℕ
  pub want_ack : Bool
  pub payload_variant : PacketPayload
  pub other_fields : List ℕ

-- GetDecoded
abbrev pub decoded_of : PacketPayload → Option Data
decoded_of (decoded d) = d
decoded_of (encrypted bs) = none
decoded_of no_payload = none

pub record User : Type 0 where
  pub id : Text
  pub long_name : Text
  pub short_name : Text
  pub hw_model : ℕ
  pub role : ℕ

pub record Position : Type 0 where
  pub latitude_i : Option ℤ
  pub longitude_i : Option ℤ
  pub altitude : Option ℤ

pub record NodeInfo : Type 0 where
  pub num : ℕ
  pub user : Option User
  pub position : Option Position
  pub snr : ℕ
  pub last_heard : ℕ
  -- device_metrics, of which only battery_level is read
  pub device_metrics : Option (Option ℕ)
  pub via_mqtt : Bool
  pub hops_away : Option ℕ
  pub is_favorite : Bool
  pub is_ignored : Bool

pub record Channel : Type 0 where
  pub index : ℤ
  -- settings, of which only the name is read
  pub settings : Option Text
  pub role : ℕ

-- The variants of FromRadio. A Config and a ModuleConfig are known by the name of the Go type of
-- their own variant, which is all that the broker looks at; the rest of each is in the raw payload.
pub data FromRadio : Type 0 where
  packet : Option MeshPacket → FromRadio
  -- my_info.my_node_num
  my_info : Option ℕ → FromRadio
  node_info : Option NodeInfo → FromRadio
  config : Option Text → FromRadio
  log_record : FromRadio
  config_complete_id : ℕ → FromRadio
  rebooted : Bool → FromRadio
  module_config : Option Text → FromRadio
  channel : Option Channel → FromRadio
  queue_status : FromRadio
  xmodem_packet : FromRadio
  metadata : FromRadio
  mqtt_client_proxy_message : FromRadio
  file_info : FromRadio
  client_notification : FromRadio
  deviceui_config : FromRadio
  lockdown_status : FromRadio
  no_variant : FromRadio

-- FromRadio.GetPacket
abbrev pub packet_of : FromRadio → Option MeshPacket
packet_of (packet p) = p
packet_of _ = none

pub data ToRadio : Type 0 where
  packet : Option MeshPacket → ToRadio
  want_config_id : ℕ → ToRadio
  disconnect : Bool → ToRadio
  xmodem_packet : List ℕ → ToRadio
  mqtt_client_proxy_message : List ℕ → ToRadio
  heartbeat : List ℕ → ToRadio
  no_variant : ToRadio

-- AdminMessage, of which the program reads and writes the canned messages.
pub data AdminMessage : Type 0 where
  get_canned_messages_request : Bool → AdminMessage
  get_canned_messages_response : Text → AdminMessage
  other_admin : AdminMessage

-- proto.Marshal and proto.Unmarshal; `none` is an error.
pub record Codec : Type 0 where
  pub marshal_from_radio : FromRadio → Option (List ℕ)
  pub unmarshal_from_radio : List ℕ → Option FromRadio
  pub marshal_to_radio : ToRadio → Option (List ℕ)
  pub unmarshal_to_radio : List ℕ → Option ToRadio
  pub marshal_admin : AdminMessage → Option (List ℕ)
  pub unmarshal_admin : List ℕ → Option AdminMessage
