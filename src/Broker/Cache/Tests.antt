-- ===== src/Broker/Cache/Tests.antt =====
-- internal/broker/broker.go, configCache: runs on a few frames.
use go_meshtastic_serial2tcp.Prelude.{◌≡◌, refl, some, List, [], ◌∷◌, arith}
use go_meshtastic_serial2tcp.Prelude.Keys.{pos}
use go_meshtastic_serial2tcp.Prelude.Keys.{nat_key, int_key, text_key}
use go_meshtastic_serial2tcp.Prelude.Assoc.{get, put}
use go_meshtastic_serial2tcp.Broker.Cache.{snapshot}
use go_meshtastic_serial2tcp.Broker.Cache.Laws.{IsCache, update-IsCache}
use go_meshtastic_serial2tcp.Broker.Cache.Order.{SameCache, snapshot-SameCache}
use go_meshtastic_serial2tcp.Meshtastic.{FromRadio}
use go_meshtastic_serial2tcp.Broker.Cache.{Bytes, ConfigCache, new_config_cache, update}
use go_meshtastic_serial2tcp.Broker.Cache.Laws.{Slot, Writes, update-Writes, stored}

abbrev lora : FromRadio
lora = FromRadio.config (some (108 ∷ []))

abbrev primary_channel : FromRadio
primary_channel =
    FromRadio.channel (some (record { index = pos 0; settings = some (97 ∷ []); role = 1 }))

abbrev dump : List (FromRadio × Bytes)
dump = (lora, 1 ∷ []) ∷ (FromRadio.my_info (some 5), 3 ∷ 5 ∷ []) ∷ (primary_channel, 4 ∷ []) ∷ []

abbrev filled : ConfigCache
filled = stored dump new_config_cache

update-Writes_example :
    Writes filled (update filled lora (9 ∷ [])) (Slot.config (108 ∷ [])) (9 ∷ [])
update-Writes_example = update-Writes filled lora (9 ∷ []) (Slot.config (108 ∷ [])) refl

new_config_cache-IsCache : IsCache new_config_cache
unfolding new_config_cache
new_config_cache-IsCache = record { node_info = tt; config = tt; module_config = tt; channels = tt }

-- The same two configs, which the radio sent in either order.
abbrev bluetooth : FromRadio
bluetooth = FromRadio.config (some (98 ∷ []))

abbrev one_way : ConfigCache
one_way = stored ((lora, 1 ∷ []) ∷ (bluetooth, 2 ∷ []) ∷ []) new_config_cache

abbrev other_way : ConfigCache
other_way = stored ((bluetooth, 2 ∷ []) ∷ (lora, 1 ∷ []) ∷ []) new_config_cache

one_way-IsCache : IsCache one_way
unfolding update new_config_cache
one_way-IsCache =
    update-IsCache _ bluetooth (2 ∷ [])
      (update-IsCache new_config_cache lora (1 ∷ []) new_config_cache-IsCache)

other_way-IsCache : IsCache other_way
unfolding update new_config_cache
other_way-IsCache =
    update-IsCache _ lora (1 ∷ [])
      (update-IsCache new_config_cache bluetooth (2 ∷ []) new_config_cache-IsCache)

same_payloads : SameCache one_way other_way
unfolding update new_config_cache get put
same_payloads = record {
  my_info = refl;
  node_info = λ k. refl;
  config = λ k. ground arith;
  module_config = λ k. refl;
  channels = λ k. refl;
  metadata = refl;
  device_ui = refl;
}

snapshot-SameCache_example : snapshot one_way ≡ snapshot other_way
snapshot-SameCache_example =
    snapshot-SameCache one_way other_way one_way-IsCache other_way-IsCache same_payloads
