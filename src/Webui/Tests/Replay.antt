-- ===== src/Webui/Tests/Replay.antt =====
-- internal/broker and internal/webui: the first client of an observed broker.
use go_meshtastic_serial2tcp.Prelude.{
  ◌+◌, ◌≡◌, refl, not, is_nil, true, false, Option, none, some, List, [], ◌∷◌, length,
}
use go_meshtastic_serial2tcp.Frame.{Writer}
use go_meshtastic_serial2tcp.Broker.Client.{new_client}
use go_meshtastic_serial2tcp.Broker.Cache.{ready}
use go_meshtastic_serial2tcp.Broker.State.{Broker, HubCall, new, publish_status}
use go_meshtastic_serial2tcp.Broker.Delivery.{add_client}
use go_meshtastic_serial2tcp.Meshtastic.Toy.{toy}
use go_meshtastic_serial2tcp.Webui.Hub.{Hub, new_hub}
use go_meshtastic_serial2tcp.Webui.Replay.{replay, addr_or, add_client-status}
use go_meshtastic_serial2tcp.Webui.Replay.Ending.{end_session, end_session-status}
use go_meshtastic_serial2tcp.Webui.Tests.Data.{plain, calm}

abbrev or_new : Option Hub → Hub
or_new none = new_hub
or_new (some h) = h

abbrev calls_of : Broker → List HubCall
calls_of b = elim b.observability [ none ↦ [] | some cs ↦ cs ]

abbrev line : Writer
line = record { sent = []; script = [] }

abbrev alone : Broker
alone = new line (λ i. new_client line []) false true

abbrev joined : Broker
joined = add_client toy alone 1 line (97 ∷ [])

abbrev shown : Hub
shown = or_new (replay plain toy calm (some new_hub) (calls_of joined))

alone_eq : alone.observability ≡ some []
unfolding new
alone_eq = refl

joined_eq : joined.observability ≡ some (calls_of joined)
unfolding new add_client publish_status
joined_eq = refl

shown_eq : replay plain toy calm (some new_hub) (calls_of joined) ≡ some shown
unfolding new add_client publish_status
shown_eq = refl

add_client-status_example :
    (shown.status.serial_connected ≡ true)
    × (shown.status.client_count ≡ length alone.clients + 1)
    × (shown.status.primary_addr ≡ addr_or (97 ∷ []) joined.heap alone.primary)
    × (shown.status.cache_ready ≡ ready alone.cache)
add_client-status_example =
    add_client-status plain toy calm alone 1 line (97 ∷ []) [] (calls_of joined) new_hub shown
      alone_eq joined_eq shown_eq

end_session-status_example :
    (g : Hub) × (end_session plain toy calm joined shown ≡ some g)
    × (g.status.serial_connected ≡ not (is_nil joined.clients))
    × (g.status.client_count ≡ 0)
end_session-status_example = end_session-status plain toy calm joined shown
