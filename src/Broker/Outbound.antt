-- ===== src/Broker/Outbound.antt =====
-- internal/broker/broker.go: which client sent a packet, so that the radio's echo of it can be
-- kept from that client.
use go_meshtastic_serial2tcp.Prelude.{
  ℕ, ◌+◌, ◌*◌, Bool, false, ◌||◌, Option, none, some, if◌then◌else◌, ◌==◌, ltb,
}
use go_meshtastic_serial2tcp.Prelude.Keys.{nat_key}
use go_meshtastic_serial2tcp.Prelude.Assoc.{get, put, delete, delete_if}
use go_meshtastic_serial2tcp.Meshtastic.{MeshPacket, decoded_of}
use go_meshtastic_serial2tcp.Meshtastic.PortNum
use go_meshtastic_serial2tcp.Broker.State.{Broker, OutboundEntry}

-- 30 seconds
abbrev pub outbound_echo_suppress : ℕ
outbound_echo_suppress = 30 * 1000000000

-- now.After(until)
abbrev pub is_over : ℕ → OutboundEntry → Bool
is_over now e = ltb e.until now

-- noteOutboundPacket for a packet with an id: entries that are over are dropped first.
note_id : ℕ → Broker → ℕ → ℕ → Broker
note_id now b cl id = record b {
  outbound_by_packet =
      put (delete_if (λ _ e. is_over now e) b.outbound_by_packet) id
        (record { client = some cl; until = now + outbound_echo_suppress });
}

unfoldable pub note_outbound_packet : ℕ → Broker → ℕ → Option MeshPacket → Broker
unfolding note_id
note_outbound_packet now b cl none = b
note_outbound_packet now b cl (some pkt) = if pkt.id == 0 then b else note_id now b cl pkt.id

-- The client of an entry that is not over, if it is still open.
live_client : ℕ → Broker → OutboundEntry → Option ℕ
live_client now b e = elim e.client [
  | none ↦ none
  | some cl ↦ if is_over now e || (b.heap cl).done then none else some cl
]

unfoldable pub consume_outbound_origin : ℕ → Broker → MeshPacket → Broker × Option ℕ
unfolding live_client
consume_outbound_origin now b pkt =
    if pkt.id == 0 then (b, none) else elim (get b.outbound_by_packet pkt.id) [
      | none ↦ (b, none)
      | some e ↦ (
        record b { outbound_by_packet = delete b.outbound_by_packet pkt.id },
        live_client now b e,
      )
    ]

-- Chat ports, whose echo the sender does not get.
pub is_echo_port : ℕ → Bool
is_echo_port n =
    n == PortNum.text_message_app
    || (n == PortNum.text_message_compressed_app || n == PortNum.reply_app)

pub packet_suppresses_origin_echo : MeshPacket → Bool
unfolding is_echo_port
packet_suppresses_origin_echo pkt = elim (decoded_of pkt.payload_variant) [
  | none ↦ false
  | some d ↦ is_echo_port d.portnum
]
