-- ===== src/Webui/Protos.antt =====
-- internal/webui/packet_proto.go: the JSON of the packets seen, by packet id.
pub mod Laws
use go_meshtastic_serial2tcp.Prelude.{
  ℕ, Option, none, some, List, [], ◌∷◌, length, if◌then◌else◌, ◌==◌, leb, ltb, is_nil,
}
use go_meshtastic_serial2tcp.Prelude.Keys.{Text, nat_key}
use go_meshtastic_serial2tcp.Prelude.Assoc.{Assoc, get, put, delete}
use go_meshtastic_serial2tcp.Prelude.Sorted.{at}
use go_meshtastic_serial2tcp.Meshtastic.{MeshPacket}
use go_meshtastic_serial2tcp.Meshtastic.Printer.{Printer}
use go_meshtastic_serial2tcp.Webui.Hub.{Hub}
use go_meshtastic_serial2tcp.Webui.Labels.{marshal_proto_json_full}

abbrev pub max_packet_proto_cache : ℕ
max_packet_proto_cache = 2048

-- The keys of a map in the order in which `range` happens to visit them.
abbrev pub Range : Type 0
Range = Assoc ℕ Text → List ℕ

-- The loop that deletes.
unfoldable pub evict : List ℕ → Assoc ℕ Text → Assoc ℕ Text
evict [] m = m
evict (k ∷ visited) m =
    let more = evict visited (delete m k) in
    if leb (length (delete m k)) 1024 then delete m k else more

unfoldable pub store_proto : Range → Assoc ℕ Text → ℕ → Text → Assoc ℕ Text
unfolding evict
store_proto range m id json =
    if ltb max_packet_proto_cache (length (put m id json))
    then evict (range (put m id json)) (put m id json)
    else put m id json

-- lookupPacketProto
unfoldable pub lookup_packet_proto : Hub → ℕ → Text
lookup_packet_proto h id = if id == 0 then [] else at [] h.packet_protos id

module _ (q : Printer) where
  -- marshalProtoJSONFull of a packet
  abbrev pub packet_json : MeshPacket → Text
  packet_json pkt = marshal_proto_json_full (q.json_of_packet pkt)

  unfoldable pub cache_packet_proto : Range → Hub → Option MeshPacket → Hub
  unfolding store_proto
  cache_packet_proto range h none = h
  cache_packet_proto range h (some pkt) =
      if pkt.id == 0
      then h
      else if is_nil (packet_json pkt)
      then h
      else record h { packet_protos = store_proto range h.packet_protos pkt.id (packet_json pkt) }

  abbrev pub or_printed : MeshPacket → Option Text → Text
  or_printed pkt none = packet_json pkt
  or_printed pkt (some s) = s

  unfoldable pub proto_json_for_packet : Hub → Option MeshPacket → Text
  proto_json_for_packet h none = []
  proto_json_for_packet h (some pkt) =
      if pkt.id == 0 then packet_json pkt else or_printed pkt (get h.packet_protos pkt.id)
