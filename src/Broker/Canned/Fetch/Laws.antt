-- ===== src/Broker/Canned/Fetch/Laws.antt =====
-- internal/broker/canned.go, FetchCannedMessages and tryDeliverCanned: a fetch and its answer.
use go_meshtastic_serial2tcp.Prelude.{ℕ, some, List}
use go_meshtastic_serial2tcp.Prelude.Keys.{Text, nat_key}
use go_meshtastic_serial2tcp.Prelude.Assoc.{put}
use go_meshtastic_serial2tcp.Meshtastic.{Codec}
use go_meshtastic_serial2tcp.Broker.State.{Broker}
use go_meshtastic_serial2tcp.Broker.Canned.Fetch.{Fetch}

module _ (p : Codec) where
  -- The broker once the answer is there.
  abbrev answered_broker : ℕ → Broker → ℕ → List Text → Broker
  answered_broker t b id msgs = record b {
    canned_waiters = put b.canned_waiters id (some msgs);
    canned_cache = msgs;
    canned_cache_at = t;
  }
