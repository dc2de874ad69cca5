-- ===== src/Broker/Cache.antt =====
-- internal/broker/broker.go, configCache (and chat.go, localNodeNum): the last payload of each kind
-- that the radio sent in its config dump.
pub mod Laws
pub mod Order
mod Tests
use go_meshtastic_serial2tcp.Prelude.{
  ℕ, Bool, ◌&&◌, not, Option, none, some, List, [], is_nil, if◌then◌else◌, ◌==◌,
}
use go_meshtastic_serial2tcp.Prelude.Keys.{ℤ, Text, nat_key, int_key, text_key}
use go_meshtastic_serial2tcp.Prelude.Assoc.{Assoc, put}
use go_meshtastic_serial2tcp.Prelude.Sorted.{in_key_order}
use go_meshtastic_serial2tcp.Meshtastic.{
  Codec, FromRadio, my_info, node_info, config, module_config, channel, metadata, deviceui_config,
}

abbrev pub Bytes : Type 0
Bytes = List ℕ

-- A slice that the cache holds is a clone, `append([]byte(nil), payload...)`, which is nil exactly
-- where the payload is empty.
pub record ConfigCache : Type 0 where
  pub my_info : Bytes
  pub node_info : Assoc ℕ Bytes
  pub config : Assoc Text Bytes
  pub module_config : Assoc Text Bytes
  pub channels : Assoc ℤ Bytes
  pub metadata : Bytes
  pub device_ui : Bytes

unfoldable pub new_config_cache : ConfigCache
new_config_cache = record {
  my_info = [];
  node_info = [];
  config = [];
  module_config = [];
  channels = [];
  metadata = [];
  device_ui = [];
}

unfoldable pub update : ConfigCache → FromRadio → Bytes → ConfigCache
update c (my_info i) p = record c { my_info = p }
update c (node_info (some n)) p = record c { node_info = put c.node_info n.num p }
update c (config (some key)) p = record c { config = put c.config key p }
update c (module_config (some key)) p = record c { module_config = put c.module_config key p }
update c (channel (some ch)) p = record c { channels = put c.channels ch.index p }
update c metadata p = record c { metadata = p }
update c deviceui_config p = record c { device_ui = p }
update c _ p = c

pub record CacheSnapshot : Type 0 where
  pub my_info : Bytes
  pub configs : List Bytes
  pub module_config : List Bytes
  pub channels : List Bytes
  pub node_info : List Bytes
  pub metadata : Bytes
  pub device_ui : Bytes

unfoldable pub snapshot : ConfigCache → CacheSnapshot
snapshot c = record {
  my_info = c.my_info;
  configs = in_key_order [] c.config;
  module_config = in_key_order [] c.module_config;
  channels = in_key_order [] c.channels;
  node_info = in_key_order [] c.node_info;
  metadata = c.metadata;
  device_ui = c.device_ui;
}

pub empty : ConfigCache → Bool
empty c =
    is_nil c.my_info
    && (is_nil c.node_info
        && (is_nil c.config
            && (is_nil c.module_config
                && (is_nil c.channels && (is_nil c.metadata && is_nil c.device_ui)))))

unfoldable pub ready : ConfigCache → Bool
ready c = not (is_nil c.my_info)

unfoldable pub reset : ConfigCache → ConfigCache
reset c = record c {
  my_info = [];
  node_info = [];
  config = [];
  module_config = [];
  channels = [];
  metadata = [];
  device_ui = [];
}

-- GetMyInfo().GetMyNodeNum() of a frame that unmarshals
abbrev pub my_node_num : FromRadio → ℕ
my_node_num (my_info (some n)) = n
my_node_num _ = 0

-- `none` is the result `(0, false)`, and also `(num, num != 0)` with num = 0.
unfoldable pub local_node_num : Codec → ConfigCache → Option ℕ
local_node_num p c = if is_nil c.my_info then none else elim (p.unmarshal_from_radio c.my_info) [
  | none ↦ none
  | some frame ↦ if my_node_num frame == 0 then none else some (my_node_num frame)
]
