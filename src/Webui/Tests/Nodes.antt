-- ===== src/Webui/Tests/Nodes.antt =====
-- internal/webui/nodes.go: a node with a name, and without.
use go_meshtastic_serial2tcp.Prelude.{
  ◌+◌, ◌*◌, ◌/◌, ◌≡◌, ◌≤◌, ◌<◌, ◌^◌, refl, none, List, [], ◌∷◌, leb, arith,
}
use go_meshtastic_serial2tcp.Prelude.Keys.{nat_key}
use go_meshtastic_serial2tcp.Prelude.Assoc.{get, put}
use go_meshtastic_serial2tcp.Webui.Node.{node_online_window}
use go_meshtastic_serial2tcp.Webui.Hub.{new_hub}
use go_meshtastic_serial2tcp.Webui.Nodes.{
  node_at, refresh, update_node_from_info, touch_node_activity, set_local_node_num,
}
use go_meshtastic_serial2tcp.Webui.Nodes.News.{News, info_news, packet_news, local_news, hear_all}
use go_meshtastic_serial2tcp.Webui.Nodes.Merge.{names_of, last_names, hear_all-names}
use go_meshtastic_serial2tcp.Webui.Nodes.Online.{last_active, hear_all-online}
use go_meshtastic_serial2tcp.Webui.Tests.Data.{plain, alice}

-- A name, a packet, and a NodeInfo without a user.
abbrev news : List News
news =
    info_news 2000000000 alice
    ∷ packet_news 3000000000 7 0
    ∷ info_news 4000000000 (record alice { user = none })
    ∷ local_news 5000000000 7
    ∷ []

named : names_of (node_at (hear_all plain new_hub news) 7) ≡ (33 ∷ [], 65 ∷ 108 ∷ [], [])
unfolding update_node_from_info touch_node_activity set_local_node_num get put
named = refl

hear_all-names_example :
    names_of (node_at (hear_all plain new_hub news) 7)
    ≡ last_names 7 (names_of (node_at new_hub 7)) news
hear_all-names_example = hear_all-names plain 7 news new_hub (omega arith)

seen :
    (1000000000 ≤ last_active 7 (node_at new_hub 7).last_activity news)
    × (last_active 7 (node_at new_hub 7).last_activity news < 2 ^ 32 * 1000000000)
unfolding get
seen = omega arith

hear_all-online_example :
    (refresh 6000000000 0 (node_at (hear_all plain new_hub news) 7)).online
    ≡ leb 6000000000 (
        last_active 7 (node_at new_hub 7).last_activity news / 1000000000 * 1000000000
        + node_online_window)
hear_all-online_example =
    hear_all-online plain 7 news new_hub 6000000000 0 (omega arith) (omega arith) seen.0 seen.1
