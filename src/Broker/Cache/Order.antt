-- ===== src/Broker/Cache/Order.antt =====
-- internal/broker/broker.go, configCache.snapshot: its order.
use go_meshtastic_serial2tcp.Prelude.{◌≡◌, [], Perm}
use go_meshtastic_serial2tcp.Prelude.Keys.{nat_key, int_key, text_key}
use go_meshtastic_serial2tcp.Prelude.Assoc.{values}
use go_meshtastic_serial2tcp.Prelude.Sorted.{in_key_order-perm}
use go_meshtastic_serial2tcp.Prelude.Canonical.{SameMap, in_key_order-SameMap}
use go_meshtastic_serial2tcp.Broker.Cache.{ConfigCache, snapshot}
use go_meshtastic_serial2tcp.Broker.Cache.Laws.{IsCache}

-- Two caches that hold the same payloads, whatever the order in which their maps are visited.
pub record SameCache (c d : ConfigCache) : Type 0 where
  pub my_info : c.my_info ≡ d.my_info
  pub node_info : SameMap c.node_info d.node_info
  pub config : SameMap c.config d.config
  pub module_config : SameMap c.module_config d.module_config
  pub channels : SameMap c.channels d.channels
  pub metadata : c.metadata ≡ d.metadata
  pub device_ui : c.device_ui ≡ d.device_ui

-- The snapshot depends only on which payload the cache has under each key, not on the order of its
-- maps: two caches with the same payloads give the same snapshot, list for list.
pub snapshot-SameCache :
    (c d : ConfigCache) → IsCache c → IsCache d → SameCache c d → snapshot c ≡ snapshot d
unfolding snapshot
snapshot-SameCache c d hc hd same = rw (
  same.my_info,
  same.metadata,
  same.device_ui,
  in_key_order-SameMap [] c.config d.config hc.config hd.config same.config,
  in_key_order-SameMap [] c.module_config d.module_config hc.module_config hd.module_config
      same.module_config,
  in_key_order-SameMap [] c.channels d.channels hc.channels hd.channels same.channels,
  in_key_order-SameMap [] c.node_info d.node_info hc.node_info hd.node_info same.node_info,
)

-- The snapshot has each payload of the cache once: its lists are those of the maps, rearranged.
pub snapshot-values :
    (c : ConfigCache)
    → IsCache c
    → Perm (snapshot c).configs (values c.config)
      × Perm (snapshot c).module_config (values c.module_config)
      × Perm (snapshot c).channels (values c.channels)
      × Perm (snapshot c).node_info (values c.node_info)
unfolding snapshot
snapshot-values c h = (
  in_key_order-perm [] c.config h.config,
  in_key_order-perm [] c.module_config h.module_config,
  in_key_order-perm [] c.channels h.channels,
  in_key_order-perm [] c.node_info h.node_info,
)
