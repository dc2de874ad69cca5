-- ===== src/Broker/State.antt =====
-- internal/broker/broker.go, Broker: the shared state, its construction, and how it ends.
-- Clients are pointers, so a client is a number, and `heap` holds the object that it points to.
-- `debug` only chooses what is logged, and logs are not modelled.
use go_meshtastic_serial2tcp.Prelude.{
  ℕ, Bool, true, false, Option, none, some, List, [], ◌∷◌, ◌++◌, length, if◌then◌else◌, ◌==◌,
  is_nil, not,
}
use go_meshtastic_serial2tcp.Prelude.Keys.{Text}
use go_meshtastic_serial2tcp.Prelude.Assoc.{Assoc}
use go_meshtastic_serial2tcp.Frame.{Writer}
use go_meshtastic_serial2tcp.Meshtastic.{Codec}
use go_meshtastic_serial2tcp.Broker.Client.{Client}
use go_meshtastic_serial2tcp.Broker.Cache.{
  Bytes, ConfigCache, new_config_cache, ready, local_node_num,
}

pub data Error : Type 0 where
  serial_closed canceled marshal_failed : Error
  node_id_unknown empty_message message_too_long invalid_channel serial_not_ready : Error
  canned_unavailable : Error

-- `none` is the nil client of a bootstrap request.
pub record ConfigRequest : Type 0 where
  pub client : Option ℕ
  pub original_id : ℕ

-- Times are in nanoseconds.
pub record OutboundEntry : Type 0 where
  pub client : Option ℕ
  pub until : ℕ

pub data Direction : Type 0 where
  serial_to_broker broker_to_client client_to_broker broker_to_serial : Direction

-- formatCacheStats, as its arguments
pub record CacheStats : Type 0 where
  pub my_info : Bool
  pub configs : ℕ
  pub module_configs : ℕ
  pub channels : ℕ
  pub node_info : ℕ
  pub metadata : Bool
  pub device_ui : Bool

-- webui.Status
pub record Status : Type 0 where
  pub serial_connected : Bool
  pub client_count : ℕ
  pub primary_addr : Text
  pub cache_ready : Bool
  -- `none` is the empty text
  pub cache_summary : Option CacheStats
  pub local_node_num : ℕ

-- The calls that the broker makes on the hub of the web UI: ObservePayload and SetStatus.
pub data HubCall : Type 0 where
  observe_payload : Direction → Text → Bytes → Bool → HubCall
  set_status : Status → HubCall

pub record Broker : Type 0 where
  pub serial : Writer
  pub heap : ℕ → Client
  pub clients : List ℕ
  pub primary : Option ℕ
  pub cache : ConfigCache
  pub read_only_clients : Bool
  -- the calls made so far, oldest first, if there is a hub
  pub observability : Option (List HubCall)
  pub pending_config : Assoc ℕ ConfigRequest
  pub outbound_by_packet : Assoc ℕ OutboundEntry
  -- each waiter's channel, of one place
  pub canned_waiters : Assoc ℕ (Option (List Text))
  pub canned_cache : List Text
  pub canned_cache_at : ℕ
  pub done : Bool
  pub err : Option Error

unfoldable pub new : Writer → (ℕ → Client) → Bool → Bool → Broker
new serial heap read_only_clients observed = record {
  serial = serial;
  heap = heap;
  clients = [];
  primary = none;
  cache = new_config_cache;
  read_only_clients = read_only_clients;
  observability = if observed then some [] else none;
  pending_config = [];
  outbound_by_packet = [];
  canned_waiters = [];
  canned_cache = [];
  canned_cache_at = 0;
  done = false;
  err = none;
}

-- The first call decides; a nil error stands for a closed serial line.
unfoldable pub fail : Broker → Option Error → Broker
fail b e =
    if b.done
    then b
    else record b { done = true; err = elim e [ none ↦ some serial_closed | some x ↦ some x ] }

-- A write through the pointer `cl`.
abbrev pub at_client : Broker → ℕ → Client → Broker
at_client b cl c = record b { heap = λ x. if cl == x then c else b.heap x }

abbrev pub tell : Broker → HubCall → Broker
tell b call = record b {
  observability = elim b.observability [ none ↦ none | some calls ↦ some (calls ++ (call ∷ [])) ];
}

-- logDecodedPayload, which for the hub is ObservePayload
unfoldable pub log_decoded_payload : Broker → Direction → Text → Bytes → Bool → Broker
log_decoded_payload b dir addr payload from_radio =
    tell b (observe_payload dir addr payload from_radio)

unfoldable pub describe : ConfigCache → CacheStats
describe c = record {
  my_info = not (is_nil c.my_info);
  configs = length c.config;
  module_configs = length c.module_config;
  channels = length c.channels;
  node_info = length c.node_info;
  metadata = not (is_nil c.metadata);
  device_ui = not (is_nil c.device_ui);
}

module _ (p : Codec) where
  -- LocalNodeNum, 0 if it is not known
  abbrev pub node_num : ConfigCache → ℕ
  node_num c = elim (local_node_num p c) [ none ↦ 0 | some n ↦ n ]

  unfoldable pub publish_status : Broker → Broker
  unfolding describe
  publish_status b = tell b (
      set_status (record {
        serial_connected = true;
        client_count = length b.clients;
        primary_addr = elim b.primary [ none ↦ [] | some cl ↦ (b.heap cl).addr ];
        cache_ready = ready b.cache;
        cache_summary = some (describe b.cache);
        local_node_num = node_num b.cache;
      }))
