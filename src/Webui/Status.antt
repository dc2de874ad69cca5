-- ===== src/Webui/Status.antt =====
-- internal/webui/hub.go: the status, and what a viewer is shown first.
use go_meshtastic_serial2tcp.Prelude.{ℕ, List, if◌then◌else◌, ◌==◌}
use go_meshtastic_serial2tcp.Prelude.Keys.{int_key}
use go_meshtastic_serial2tcp.Prelude.Assoc.{values}
use go_meshtastic_serial2tcp.Broker.State.{Status}
use go_meshtastic_serial2tcp.Webui.Hub.{Hub, Event, ChannelInfo}
use go_meshtastic_serial2tcp.Webui.Nodes.{notify_nodes}

unfoldable pub set_status : ℕ → Hub → Status → Hub
unfolding notify_nodes
set_status now h st =
    if st.local_node_num == 0
    then record h { status = st }
    else notify_nodes now (record h { status = st; local_node_num = st.local_node_num })

-- Snapshot; the events stand newest first here
unfoldable pub snapshot : Hub → List Event × List ChannelInfo × Status
snapshot h = (h.events, values h.channels, h.status)
