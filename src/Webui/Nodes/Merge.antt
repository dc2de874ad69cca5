-- ===== src/Webui/Nodes/Merge.antt =====
-- internal/webui/nodes.go: what the table keeps of the news of a node.
use go_meshtastic_serial2tcp.Prelude.{
  ℕ, ◌≡◌, ◌≢◌, refl, ap, ◌∙◌, ◌||◌, Option, none, some, List, [], ◌∷◌, if◌then◌else◌, ◌==◌,
  Bool-cases, inl, inr,
}
use go_meshtastic_serial2tcp.Prelude.Keys.{Text, nat_key}
use go_meshtastic_serial2tcp.Meshtastic.{User, Position, NodeInfo}
use go_meshtastic_serial2tcp.Meshtastic.Printer.{Printer}
use go_meshtastic_serial2tcp.Webui.Node.{NodeView}
use go_meshtastic_serial2tcp.Webui.Hub.{Hub}
use go_meshtastic_serial2tcp.Webui.Nodes.News.{
  News, info_news, packet_news, local_news, hear_all, put_node-part, set_local_node_num-part,
  update_node_from_info-part,
}
use go_meshtastic_serial2tcp.Webui.Nodes.{
  node_at, notify_nodes, set_local_node_num, merge_info, with_user, with_position, with_metrics,
  with_info, update_node_from_info, touch, touch_node_activity, broadcast_node, or_old,
}

abbrev pub Names : Type 0
Names = Text × Text × Text

abbrev pub names_of : NodeView → Names
names_of n = (n.user_id, n.long_name, n.short_name)

-- The names after a NodeInfo of the node: each new one that is not empty.
abbrev pub renamed : Option User → Names → Names
renamed none old = old
renamed (some u) old =
    (or_old u.id (old.0), or_old u.long_name (old.1), or_old u.short_name (old.2))

-- The last name of each kind that the news of node `k` have, else what was there before.
abbrev pub last_names : ℕ → Names → List News → Names
last_names k old [] = old
last_names k old (info_news time info ∷ news) =
    last_names k (if info.num == k then renamed info.user old else old) news
last_names k old (packet_news time num snr ∷ news) = last_names k old news
last_names k old (local_news time num ∷ news) = last_names k old news

merge_info-names :
    (q : Printer) (now local : ℕ) (info : NodeInfo) (n : NodeView)
    → names_of (merge_info q now local info n) ≡ renamed info.user (names_of n)
unfolding merge_info
merge_info-names q now local info n =
    metrics info.device_metrics (with_position info.position (with_user q info.user m))
    ∙ position info.position (with_user q info.user m)
    ∙ user info.user
  where
    m : NodeView
    m = with_info now local info n

    metrics : (o : Option (Option ℕ)) (n : NodeView) → names_of (with_metrics o n) ≡ names_of n
    metrics none n = refl
    metrics (some l) n = refl

    position : (o : Option Position) (n : NodeView) → names_of (with_position o n) ≡ names_of n
    position none n = refl
    position (some p) n = refl

    user : (o : Option User) → names_of (with_user q o m) ≡ renamed o (names_of n)
    user none = refl
    user (some u) = refl

touch_node_activity-names :
    (time : ℕ) (h : Hub) (num snr k : ℕ)
    → names_of (node_at (touch_node_activity time h num snr time) k) ≡ names_of (node_at h k)
unfolding touch_node_activity notify_nodes touch
touch_node_activity-names time h num snr k = elim (Bool-cases (num == 0 || num == broadcast_node)) [
  | inl e ↦ rw e refl
  | inr e ↦ rw e (put_node-part names_of h num k _ refl)
]

-- Whatever news reach the table, in whatever order: of every node other than number 0, it has for
-- the user id, the long name and the short name the last one that a NodeInfo of this node gave, or
-- what it had before if none gave any. A NodeInfo with an empty name, a packet, another node's news
-- and the radio's number take no name away.
pub hear_all-names :
    (q : Printer) (k : ℕ) (news : List News) (h : Hub)
    → k ≢ 0
    → names_of (node_at (hear_all q h news) k) ≡ last_names k (names_of (node_at h k)) news
hear_all-names q k [] h nz = refl
hear_all-names q k (info_news time info ∷ news) h nz =
    hear_all-names q k news (update_node_from_info q time h (some info)) nz
    ∙ ap (λ o. last_names k o news)
        (update_node_from_info-part names_of q time h info k (renamed info.user)
          (merge_info-names q time h.local_node_num info) nz)
hear_all-names q k (packet_news time num snr ∷ news) h nz =
    hear_all-names q k news (touch_node_activity time h num snr time) nz
    ∙ ap (λ o. last_names k o news) (touch_node_activity-names time h num snr k)
hear_all-names q k (local_news time num ∷ news) h nz =
    hear_all-names q k news (set_local_node_num time h num) nz
    ∙ ap (λ o. last_names k o news) (set_local_node_num-part names_of time h num k (λ n. refl))
