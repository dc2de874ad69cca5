-- ===== src/Broker/Debug.antt =====
-- internal/broker/debug.go: the labels and the statistics of the log; and broker.go, the text for
-- the payload of a packet.
pub mod Payload
pub mod Laws
pub mod Line
use go_meshtastic_serial2tcp.Prelude.{Option, none, some, [], ◌++◌, length, ltb}
use go_meshtastic_serial2tcp.Prelude.Keys.{Text}
use go_meshtastic_serial2tcp.Prelude.Text.{bytes}
use go_meshtastic_serial2tcp.Prelude.Format.{hex, decimal, signed, bool_text}
use go_meshtastic_serial2tcp.Meshtastic.{MeshPacket, FromRadio, ToRadio}
use go_meshtastic_serial2tcp.Broker.Cache.{CacheSnapshot}
use go_meshtastic_serial2tcp.Broker.State.{CacheStats}

unfoldable pub logged_packet : Option MeshPacket → Text
logged_packet none = bytes "Packet"
logged_packet (some pkt) =
    bytes "Packet id=0x" ++ (hex pkt.id ++ (bytes " from=0x" ++ hex pkt.from))

-- protoVariantLabel of a ToRadio
unfoldable pub to_radio_label : ToRadio → Text
unfolding logged_packet
to_radio_label (ToRadio.want_config_id id) = bytes "WantConfigId=0x" ++ hex id
to_radio_label (ToRadio.disconnect b) = bytes "Disconnect"
to_radio_label (ToRadio.packet p) = logged_packet p
to_radio_label _ = []

-- protoVariantLabel of a FromRadio
unfoldable pub from_radio_label : FromRadio → Text
unfolding logged_packet
from_radio_label (FromRadio.config_complete_id id) = bytes "ConfigCompleteId=0x" ++ hex id
from_radio_label (FromRadio.rebooted b) = bytes "rebooted=" ++ bool_text b
from_radio_label (FromRadio.my_info i) = bytes "MyInfo"
from_radio_label (FromRadio.config (some key)) = bytes "Config " ++ key
from_radio_label (FromRadio.config none) = bytes "Config"
from_radio_label (FromRadio.module_config (some key)) = bytes "ModuleConfig " ++ key
from_radio_label (FromRadio.module_config none) = bytes "ModuleConfig"
from_radio_label (FromRadio.channel (some ch)) = bytes "Channel index=" ++ signed ch.index
from_radio_label (FromRadio.channel none) = bytes "Channel"
from_radio_label (FromRadio.node_info (some info)) = bytes "NodeInfo num=0x" ++ hex info.num
from_radio_label (FromRadio.node_info none) = bytes "NodeInfo"
from_radio_label FromRadio.metadata = bytes "Metadata"
from_radio_label FromRadio.deviceui_config = bytes "DeviceuiConfig"
from_radio_label (FromRadio.packet p) = logged_packet p
from_radio_label _ = []

unfoldable pub cache_update_label : FromRadio → Text
unfolding from_radio_label
cache_update_label (FromRadio.my_info i) = from_radio_label (FromRadio.my_info i)
cache_update_label (FromRadio.node_info n) = from_radio_label (FromRadio.node_info n)
cache_update_label (FromRadio.config c) = from_radio_label (FromRadio.config c)
cache_update_label (FromRadio.module_config c) = from_radio_label (FromRadio.module_config c)
cache_update_label (FromRadio.channel ch) = from_radio_label (FromRadio.channel ch)
cache_update_label FromRadio.metadata = from_radio_label FromRadio.metadata
cache_update_label FromRadio.deviceui_config = from_radio_label FromRadio.deviceui_config
cache_update_label _ = []

unfoldable pub format_cache_stats : CacheStats → Text
format_cache_stats s =
    bytes "myInfo="
    ++ (bool_text s.my_info
        ++ (bytes " configs="
            ++ (decimal s.configs
                ++ (bytes " moduleConfigs="
                    ++ (decimal s.module_configs
                        ++ (bytes " channels="
                            ++ (decimal s.channels
                                ++ (bytes " nodeInfo="
                                    ++ (decimal s.node_info
                                        ++ (bytes " metadata="
                                            ++ (bool_text s.metadata
                                                ++ (bytes " deviceUI="
                                                    ++ bool_text s.device_ui))))))))))))

-- describeCacheSnapshot, as the arguments of formatCacheStats
unfoldable pub describe_cache_snapshot : CacheSnapshot → CacheStats
describe_cache_snapshot snap = record {
  my_info = ltb 0 (length snap.my_info);
  configs = length snap.configs;
  module_configs = length snap.module_config;
  channels = length snap.channels;
  node_info = length snap.node_info;
  metadata = ltb 0 (length snap.metadata);
  device_ui = ltb 0 (length snap.device_ui);
}
