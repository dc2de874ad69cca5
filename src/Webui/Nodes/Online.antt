-- ===== src/Webui/Nodes/Online.antt =====
-- internal/webui/nodes.go: which nodes are online.
use go_meshtastic_serial2tcp.Prelude.{
  ℕ, ◌+◌, ◌*◌, ◌/◌, ◌^◌, ◌≡◌, ◌≢◌, ◌≤◌, ◌<◌, refl, ap, ◌∙◌, ◌||◌, Option, none, some, List, [], ◌∷◌,
  if◌then◌else◌, ◌==◌, leb, arith, Bool-cases, inl, inr,
}
use go_meshtastic_serial2tcp.Meshtastic.{User, Position, NodeInfo}
use go_meshtastic_serial2tcp.Meshtastic.Printer.{Printer}
use go_meshtastic_serial2tcp.Webui.Node.{NodeView, node_online_window, activity_unix, node_online}
use go_meshtastic_serial2tcp.Webui.Hub.{Hub}
use go_meshtastic_serial2tcp.Webui.Nodes.{
  node_at, notify_nodes, refresh, merge_info, with_user, with_position, with_metrics, with_info,
  update_node_from_info, set_local_node_num, touch, touch_node_activity, broadcast_node,
}
use go_meshtastic_serial2tcp.Webui.Nodes.News.{
  News, info_news, packet_news, local_news, hear_all, node_at-put_node, set_local_node_num-part,
  update_node_from_info-part,
}

abbrev activity : NodeView → ℕ
activity n = n.last_activity

abbrev pub first_seen : ℕ → ℕ → ℕ
first_seen time old = if old == 0 then time else old

-- The time of the last packet of node `k`; without any, that of the first NodeInfo of it.
abbrev pub last_active : ℕ → ℕ → List News → ℕ
last_active k old [] = old
last_active k old (info_news time info ∷ news) =
    last_active k (if info.num == k then first_seen time old else old) news
last_active k old (packet_news time num snr ∷ news) =
    last_active k (if num == k then time else old) news
last_active k old (local_news time num ∷ news) = last_active k old news

merge_info-activity :
    (q : Printer) (time local : ℕ) (info : NodeInfo) (n : NodeView)
    → activity (merge_info q time local info n) ≡ first_seen time (activity n)
unfolding merge_info
merge_info-activity q time local info n =
    metrics info.device_metrics (with_position info.position (with_user q info.user m))
    ∙ position info.position (with_user q info.user m)
    ∙ user info.user
  where
    m : NodeView
    m = with_info time local info n

    metrics : (o : Option (Option ℕ)) (n : NodeView) → activity (with_metrics o n) ≡ activity n
    metrics none n = refl
    metrics (some l) n = refl

    position : (o : Option Position) (n : NodeView) → activity (with_position o n) ≡ activity n
    position none n = refl
    position (some p) n = refl

    user : (o : Option User) → activity (with_user q o m) ≡ first_seen time (activity n)
    user none = refl
    user (some u) = refl

touch_node_activity-activity :
    (time : ℕ) (h : Hub) (num snr k : ℕ)
    → k ≢ 0
    → k ≢ broadcast_node
    → activity (node_at (touch_node_activity time h num snr time) k)
      ≡ (if num == k then time else activity (node_at h k))
unfolding touch_node_activity notify_nodes touch
touch_node_activity-activity time h num snr k nz nb =
    elim (Bool-cases (num == 0 || num == broadcast_node)) [
      | inl e ↦ rw e (ground arith)
      | inr e ↦ rw e (ap activity (node_at-put_node h num k _) ∙ (ground arith))
    ]

hear_all-activity :
    (q : Printer) (k : ℕ) (news : List News) (h : Hub)
    → k ≢ 0
    → k ≢ broadcast_node
    → activity (node_at (hear_all q h news) k) ≡ last_active k (activity (node_at h k)) news
hear_all-activity q k [] h nz nb = refl
hear_all-activity q k (info_news time info ∷ news) h nz nb =
    hear_all-activity q k news (update_node_from_info q time h (some info)) nz nb
    ∙ ap (λ o. last_active k o news)
        (update_node_from_info-part activity q time h info k (first_seen time)
          (merge_info-activity q time h.local_node_num info) nz)
hear_all-activity q k (packet_news time num snr ∷ news) h nz nb =
    hear_all-activity q k news (touch_node_activity time h num snr time) nz nb
    ∙ ap (λ o. last_active k o news) (touch_node_activity-activity time h num snr k nz nb)
hear_all-activity q k (local_news time num ∷ news) h nz nb =
    hear_all-activity q k news (set_local_node_num time h num) nz nb
    ∙ ap (λ o. last_active k o news) (set_local_node_num-part activity time h num k (λ n. refl))

node_online-activity :
    (n : NodeView) (now : ℕ)
    → 1000000000 ≤ n.last_activity
    → n.last_activity < 2 ^ 32 * 1000000000
    → node_online n now ≡ leb now (n.last_activity / 1000000000 * 1000000000 + node_online_window)
unfolding node_online activity_unix
node_online-activity n now lo hi = ground arith

-- Whatever news reach the table, in whatever order: a viewer at time `now` sees a node as online
-- exactly up to two hours after the second in which its last packet came, or, where it sent none,
-- in which it was active before, or else in which its first NodeInfo came. The time at which the radio last heard the node (last_heard)
-- has no part in it. It is about nodes other than 0 and the broadcast address, and times from the
-- first second of 1970 on that fit in a uint32 of seconds.
pub hear_all-online :
    (q : Printer) (k : ℕ) (news : List News) (h : Hub) (now local : ℕ)
    → k ≢ 0
    → k ≢ broadcast_node
    → 1000000000 ≤ last_active k (node_at h k).last_activity news
    → last_active k (node_at h k).last_activity news < 2 ^ 32 * 1000000000
    → (refresh now local (node_at (hear_all q h news) k)).online
      ≡ leb now (
          last_active k (node_at h k).last_activity news / 1000000000 * 1000000000
          + node_online_window)
unfolding refresh
hear_all-online q k news h now local nz nb lo hi =
    let e : activity (node_at (hear_all q h news) k)
        ≡ last_active k (node_at h k).last_activity news =
      hear_all-activity q k news h nz nb in
    node_online-activity (node_at (hear_all q h news) k) now (omega arith) (omega arith)
    ∙ ap (λ a. leb now (a / 1000000000 * 1000000000 + node_online_window)) e
