-- ===== src/Webui/Tests/Stream.antt =====
-- internal/webui/server.go: a viewer that is sent one event while another waits.
use go_meshtastic_serial2tcp.Prelude.{
  ◌≡◌, ◌<◌, refl, Bool, true, List, [], ◌∷◌, ◌++◌, length, arith,
}
use go_meshtastic_serial2tcp.Prelude.Keys.{nat_key}
use go_meshtastic_serial2tcp.Prelude.Assoc.{get, put}
use go_meshtastic_serial2tcp.Webui.Hub.{Hub, Event, new_hub, record_event, complete_event}
use go_meshtastic_serial2tcp.Webui.Http.Stream.{
  Sse, Viewer, serve_round, event_ready, goes_on, ended, Served,
}
use go_meshtastic_serial2tcp.Webui.Http.Stream.Complete.{
  Streams, starts, records, serves, kept, messages, waiting, event_rounds,
}
use go_meshtastic_serial2tcp.Webui.Http.Stream.Laws.{
  opened_hub, opened_viewer, Streams-events, Streams-drains,
}
use go_meshtastic_serial2tcp.Webui.Tests.Data.{note}

abbrev all : Sse → Bool
all x = true

abbrev at_first : Hub
at_first = opened_hub all 1 new_hub new_hub 1 2 3

abbrev viewer : Viewer
viewer = opened_viewer all 1 new_hub new_hub 1 2 3

abbrev one : List Event
one = [] ++ (complete_event 2 at_first note ∷ [])

abbrev after_one : Hub
after_one = record_event 2 at_first note

abbrev hub_of : Served → Hub
hub_of (goes_on g w) = g
hub_of (ended g) = g

abbrev viewer_of : Served → Viewer
viewer_of (goes_on g w) = w
viewer_of (ended g) = viewer

abbrev served : Served
served = serve_round all after_one viewer event_ready

abbrev two : List Event
two = one ++ (complete_event 3 (hub_of served) note ∷ [])

served_eq : served ≡ goes_on (hub_of served) (viewer_of served)
unfolding serve_round get record_event go_meshtastic_serial2tcp.Webui.Http.Stream.open_stream
    go_meshtastic_serial2tcp.Webui.Nodes.subscribe_nodes
    go_meshtastic_serial2tcp.Webui.Hub.subscribe_chat go_meshtastic_serial2tcp.Webui.Hub.subscribe
    put
served_eq = refl

room_eq : length (waiting at_first viewer.events) < 128
unfolding get go_meshtastic_serial2tcp.Webui.Http.Stream.open_stream
    go_meshtastic_serial2tcp.Webui.Nodes.subscribe_nodes
    go_meshtastic_serial2tcp.Webui.Hub.subscribe_chat go_meshtastic_serial2tcp.Webui.Hub.subscribe
    put
room_eq = omega arith

room_again : length (waiting (hub_of served) (viewer_of served).events) < 128
unfolding get serve_round record_event go_meshtastic_serial2tcp.Webui.Http.Stream.open_stream
    go_meshtastic_serial2tcp.Webui.Nodes.subscribe_nodes
    go_meshtastic_serial2tcp.Webui.Hub.subscribe_chat go_meshtastic_serial2tcp.Webui.Hub.subscribe
    put
room_again = omega arith

stream : Streams all at_first viewer two (record_event 3 (hub_of served) note) (viewer_of served)
stream =
    records
      (serves (records starts 2 note room_eq one refl) event_ready (hub_of served)
        (viewer_of served) served_eq)
      3 note room_again two refl

Streams-events_example :
    messages (viewer_of served).sent
      ++ kept all (waiting (record_event 3 (hub_of served) note) (viewer_of served).events)
    ≡ kept all two
Streams-events_example =
    Streams-events all 1 new_hub new_hub 1 2 3 two (record_event 3 (hub_of served) note)
      (viewer_of served) stream

Streams-drains_example :
    (g' : Hub) × (w' : Viewer) × (event_rounds all
        (length (waiting (record_event 3 (hub_of served) note) (viewer_of served).events))
        (goes_on (record_event 3 (hub_of served) note) (viewer_of served))
      ≡ goes_on g' w')
    × (messages w'.sent ≡ kept all two)
Streams-drains_example =
    Streams-drains all 1 new_hub new_hub 1 2 3 two (record_event 3 (hub_of served) note)
      (viewer_of served) stream
