-- ===== src/Webui/Http/Order.antt =====
-- internal/webui/server.go: what a viewer is shown does not depend on the order in which `range`
-- visits the hub's maps.
use go_meshtastic_serial2tcp.Prelude.{
  ℕ, ◌≡◌, refl, ap, ap₂, ◌∙◌, Option, none, some, List, [], ◌∷◌, map, if◌then◌else◌, ◌==◌, not,
  ◌&&◌, is_nil,
}
use go_meshtastic_serial2tcp.Prelude.Keys.{pos, Text, text_eq, nat_key, int_key}
use go_meshtastic_serial2tcp.Prelude.Canonical.{SameMap}
use go_meshtastic_serial2tcp.Prelude.Sorted.By.{sort_by-SameMap}
use go_meshtastic_serial2tcp.Webui.Hub.{Hub, ChannelInfo}
use go_meshtastic_serial2tcp.Webui.Nodes.Order.{snapshot_nodes-SameMap}
use go_meshtastic_serial2tcp.Webui.Observer.Keeps.{IsHub}
use go_meshtastic_serial2tcp.Webui.Packets.{snapshot_chat, fill_proto}
use go_meshtastic_serial2tcp.Webui.Chat.{set_proto}
use go_meshtastic_serial2tcp.Webui.Protos.{lookup_packet_proto}
use go_meshtastic_serial2tcp.Webui.Http.{view, handle_snapshot, Response, index_of, get_method}

-- The same content, in maps that `range` may visit in different orders.
pub record SameHub (h g : Hub) : Type 0 where
  pub events : h.events ≡ g.events
  pub chats : h.chats ≡ g.chats
  pub status : h.status ≡ g.status
  pub local : h.local_node_num ≡ g.local_node_num
  pub nodes : SameMap h.nodes g.nodes
  pub channels : SameMap h.channels g.channels
  pub protos : SameMap h.packet_protos g.packet_protos

map-same : {A B : Type 0} (f g : A → B) (xs : List A) → ((x : A) → f x ≡ g x) → map f xs ≡ map g xs
map-same f g [] e = refl
map-same f g (x ∷ xs) e = ap₂ ◌∷◌ (e x) (map-same f g xs e)

lookup-same :
    (h g : Hub) (id : ℕ)
    → SameMap h.packet_protos g.packet_protos
    → lookup_packet_proto h id ≡ lookup_packet_proto g id
unfolding lookup_packet_proto
lookup-same h g id same =
    ap (λ (o : Option Text). if id == 0 then [] else elim o [ none ↦ [] | some v ↦ v ]) (same id)

snapshot_chat-same :
    (h g : Hub)
    → h.chats ≡ g.chats
    → SameMap h.packet_protos g.packet_protos
    → snapshot_chat h ≡ snapshot_chat g
unfolding snapshot_chat
snapshot_chat-same h g chats same =
    map-same (fill_proto h) (fill_proto g) h.chats (λ msg.
      ap (λ s. if is_nil msg.proto_json && not (msg.packet_id == 0) then set_proto msg s else msg)
        (lookup-same h g msg.packet_id same))
    ∙ ap (map (fill_proto g)) chats

zero_channel : ChannelInfo
zero_channel = record { index = pos 0; name = []; role = []; updated = 0 }

view-SameHub : (now : ℕ) (h g : Hub) → IsHub h → IsHub g → SameHub h g → view now h ≡ view now g
unfolding view
view-SameHub now h g hh hg same = λ i. record {
  events = same.events i;
  channels =
      sort_by-SameMap index_of zero_channel h.channels g.channels hh.channels.0 hg.channels.0
        hh.channels.1 hg.channels.1 same.channels i;
  nodes = snapshot_nodes-SameMap now h g hh.nodes hg.nodes same.local same.nodes i;
  status = same.status i;
  chats = snapshot_chat-same h g same.chats same.protos i;
}

-- Two hubs in order with the same content give the same answer to every request for a snapshot:
-- the channels by their index and the nodes by their number, however their maps are visited.
pub handle_snapshot-SameHub :
    (method : Text) (now : ℕ) (h g : Hub)
    → IsHub h
    → IsHub g
    → SameHub h g
    → handle_snapshot method now h ≡ handle_snapshot method now g
unfolding handle_snapshot
handle_snapshot-SameHub method now h g hh hg same =
    ap (λ v. if text_eq method get_method then Response.shown v else Response.method_not_allowed)
      (view-SameHub now h g hh hg same)
