-- ===== src/Webui/Nodes.antt =====
-- internal/webui/nodes.go: the table of nodes, and what its subscribers get.
pub mod Invariant
pub mod Order
pub mod News
pub mod Merge
pub mod Online
use go_meshtastic_serial2tcp.Prelude.{
  ℕ, ◌+◌, true, ◌||◌, Option, none, some, List, [], ◌++◌, map, if◌then◌else◌, ◌==◌, is_nil,
}
use go_meshtastic_serial2tcp.Prelude.Keys.{Text, nat_key}
use go_meshtastic_serial2tcp.Prelude.Assoc.{get, put, delete, values}
use go_meshtastic_serial2tcp.Prelude.Sorted.{at}
use go_meshtastic_serial2tcp.Prelude.Text.{bytes}
use go_meshtastic_serial2tcp.Meshtastic.{User, Position, NodeInfo}
use go_meshtastic_serial2tcp.Meshtastic.Printer.{Printer}
use go_meshtastic_serial2tcp.Webui.Node.{NodeView, zero_node, is_zero_float, node_online}
use go_meshtastic_serial2tcp.Webui.Hub.{Hub, offer_all}

-- A node as SnapshotNodes returns it.
unfoldable pub refresh : ℕ → ℕ → NodeView → NodeView
refresh now local n = record n { is_local = n.num == local; online = node_online n now }

unfoldable pub snapshot_nodes : ℕ → Hub → List NodeView
unfolding refresh
snapshot_nodes now h = map (refresh now h.local_node_num) (values h.nodes)

unfoldable pub notify_nodes : ℕ → Hub → Hub
unfolding snapshot_nodes
notify_nodes now h = record h { node_subs = offer_all (snapshot_nodes now h) h.node_subs }

-- SubscribeNodes; `id` is the new channel.
unfoldable pub subscribe_nodes : Hub → ℕ → ℕ → Hub
subscribe_nodes h id buffer = record h {
  node_subs =
      put h.node_subs id (record { capacity = if buffer == 0 then 16 else buffer; buffer = [] });
}

unfoldable pub unsubscribe_nodes : Hub → ℕ → Hub
unsubscribe_nodes h id = record h { node_subs = delete h.node_subs id }

-- h.nodes[num], the zero value where there is none
abbrev pub node_at : Hub → ℕ → NodeView
node_at h num = at zero_node h.nodes num

abbrev pub mark_local : NodeView → NodeView
mark_local n = record n { is_local = true }

abbrev pub put_node : Hub → ℕ → NodeView → Hub
put_node h num n = record h { nodes = put h.nodes num n }

abbrev pub mark_known : Hub → ℕ → Option NodeView → Hub
mark_known h num none = h
mark_known h num (some n) = put_node h num (mark_local n)

unfoldable pub set_local_node_num : ℕ → Hub → ℕ → Hub
unfolding notify_nodes
set_local_node_num now h num =
    if num == 0
    then h
    else notify_nodes now (mark_known (record h { local_node_num = num }) num (get h.nodes num))

abbrev pub judge_online : ℕ → NodeView → NodeView
judge_online now n = record n { online = node_online n now }

abbrev pub or_else : {A : Type 0} → Option A → Option A → Option A
or_else none old = old
or_else (some x) old = some x

-- The new text, unless it is empty.
abbrev pub or_old : Text → Text → Text
or_old new old = if is_nil new then old else new

abbrev pub with_position : Option Position → NodeView → NodeView
with_position none n = n
with_position (some p) n = record n {
  latitude = or_else p.latitude_i n.latitude;
  longitude = or_else p.longitude_i n.longitude;
  altitude = or_else p.altitude n.altitude;
}

abbrev pub with_metrics : Option (Option ℕ) → NodeView → NodeView
with_metrics none n = n
with_metrics (some level) n = record n { battery_level = or_else level n.battery_level }

-- The fields that UpdateNodeFromInfo sets itself.
abbrev pub with_info : ℕ → ℕ → NodeInfo → NodeView → NodeView
with_info now local info n = record n {
  num = info.num;
  updated = now;
  last_activity = if n.last_activity == 0 then now else n.last_activity;
  last_heard = if info.last_heard == 0 then n.last_heard else info.last_heard;
  snr = if is_zero_float info.snr then n.snr else info.snr;
  hops_away = info.hops_away;
  via_mqtt = info.via_mqtt;
  is_favorite = info.is_favorite;
  is_ignored = info.is_ignored;
  is_local = info.num == local;
}

module _ (q : Printer) where
  abbrev pub with_user : Option User → NodeView → NodeView
  with_user none n = n
  with_user (some u) n = record n {
    user_id = or_old u.id n.user_id;
    long_name = or_old u.long_name n.long_name;
    short_name = or_old u.short_name n.short_name;
    hw_model = if u.hw_model == 0 then n.hw_model else q.hardware_model u.hw_model;
    role = q.device_role u.role;
  }

  unfoldable pub merge_info : ℕ → ℕ → NodeInfo → NodeView → NodeView
  merge_info now local info n = judge_online now (
      with_metrics info.device_metrics
        (with_position info.position (with_user info.user (with_info now local info n))))

  unfoldable pub update_node_from_info : ℕ → Hub → Option NodeInfo → Hub
  unfolding merge_info notify_nodes
  update_node_from_info now h none = h
  update_node_from_info now h (some info) =
      if info.num == 0
      then h
      else notify_nodes now
          (put_node h info.num (merge_info now h.local_node_num info (node_at h info.num)))

-- touchNodeActivity, on the node
unfoldable pub touch : ℕ → ℕ → ℕ → ℕ → NodeView → NodeView
touch num snr time local n = judge_online time (record n {
  num = if n.num == 0 then num else n.num;
  last_activity = time;
  updated = time;
  snr = if is_zero_float snr then n.snr else snr;
  is_local = num == local;
})

abbrev pub broadcast_node : ℕ
broadcast_node = 0xFFFFFFFF

unfoldable pub touch_node_activity : ℕ → Hub → ℕ → ℕ → ℕ → Hub
unfolding touch notify_nodes
touch_node_activity now h num snr time =
    if num == 0 || num == broadcast_node
    then h
    else notify_nodes now (put_node h num (touch num snr time h.local_node_num (node_at h num)))

-- nodeInfoSummary
abbrev pub display_name : Option User → Text
display_name none = []
display_name (some u) = or_old u.long_name u.short_name

unfoldable pub node_info_summary : Option NodeInfo → Text
node_info_summary none = bytes "NodeInfo"
node_info_summary (some info) =
    let name = display_name info.user in
    if is_nil name then bytes "NodeInfo" else bytes "NodeInfo " ++ name
