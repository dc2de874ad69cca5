-- ===== src/Broker/Canned.antt =====
-- internal/broker/canned.go: the canned messages of the radio, fetched by an admin request, and
-- cached for two minutes.
pub mod Fetch
pub mod Laws
use go_meshtastic_serial2tcp.Prelude.{
  ℕ, ◌*◌, ◌-◌, Bool, true, false, Option, none, some, List, [], ◌∷◌, if◌then◌else◌, ◌==◌, ltb,
  is_nil,
}
use go_meshtastic_serial2tcp.Prelude.Keys.{Text, nat_key}
use go_meshtastic_serial2tcp.Prelude.Assoc.{get, put, delete}
use go_meshtastic_serial2tcp.Prelude.Text.{trim_space, split}
use go_meshtastic_serial2tcp.Meshtastic.{
  Codec, MeshPacket, decoded_of, AdminMessage, get_canned_messages_response,
}
use go_meshtastic_serial2tcp.Meshtastic.PortNum
use go_meshtastic_serial2tcp.Broker.State.{Broker}

-- The parts of a blob, trimmed, without those that are blank.
keep_messages : List Text → List Text
keep_messages [] = []
keep_messages (m ∷ ms) =
    let t = trim_space m in if is_nil t then keep_messages ms else t ∷ keep_messages ms

unfoldable pub parse_canned_messages : Text → List Text
unfolding keep_messages
parse_canned_messages raw =
    let s = trim_space raw in if is_nil s then [] else keep_messages (split b'|' s)

abbrev pub canned_response : Option AdminMessage → Option Text
canned_response (some (get_canned_messages_response raw)) = some raw
canned_response _ = none

module _ (p : Codec) where
  unfoldable pub extract_canned_from_packet : MeshPacket → Option Text
  extract_canned_from_packet pkt = elim (decoded_of pkt.payload_variant) [
    | none ↦ none
    | some data' ↦
        if data'.portnum == PortNum.admin_app
        then canned_response (p.unmarshal_admin data'.payload)
        else none
  ]

-- A send on a channel of one place that has a message already is dropped.
abbrev pub offer : Option (List Text) → List Text → Option (List Text)
offer none msgs = some msgs
offer (some old) msgs = some old

unfoldable pub register_canned_wait : Broker → ℕ → Broker
register_canned_wait b id = record b { canned_waiters = put b.canned_waiters id none }

pub unregister_canned_wait : Broker → ℕ → Broker
unregister_canned_wait b id = record b { canned_waiters = delete b.canned_waiters id }

unfoldable pub store_canned_cache : ℕ → Broker → List Text → Broker
store_canned_cache now b msgs = record b { canned_cache = msgs; canned_cache_at = now }

-- Two minutes, in nanoseconds.
abbrev pub canned_cache_ttl : ℕ
canned_cache_ttl = 2 * 60 * 1000000000

-- cachedCanned: an old cache is dropped.
unfoldable pub cached_canned : ℕ → Broker → Broker × List Text
cached_canned now b =
    if is_nil b.canned_cache
    then (b, [])
    else if ltb canned_cache_ttl (now - b.canned_cache_at)
    then (record b { canned_cache = [] }, [])
    else (b, b.canned_cache)

module _ (p : Codec) where
  unfoldable pub try_deliver_canned : ℕ → Broker → MeshPacket → Broker × Bool
  unfolding store_canned_cache
  try_deliver_canned now b pkt = elim (extract_canned_from_packet p pkt) [
    | none ↦ (b, false)
    | some raw ↦ elim (get b.canned_waiters pkt.id) [
      | none ↦ (b, false)
      | some ch ↦
          let msgs = parse_canned_messages raw in
          (
            store_canned_cache now
                (record b { canned_waiters = put b.canned_waiters pkt.id (offer ch msgs) }) msgs,
            true,
          )
    ]
  ]
