-- ===== src/Webui/Nodes/Invariant.antt =====
-- internal/webui/nodes.go: every node stands under its own number.
use go_meshtastic_serial2tcp.Prelude.{
  ℕ, ◌≡◌, ◌⊎◌, refl, ◌||◌, Option, none, some, [], ◌∷◌, ◌==◌, arith, if_cases, Option-cases, inl,
  inr, ◌∙◌,
}
use go_meshtastic_serial2tcp.Prelude.Keys.{nat_key}
use go_meshtastic_serial2tcp.Prelude.Assoc.{Assoc, get, put, IsMap, put-IsMap}
use go_meshtastic_serial2tcp.Prelude.Sorted.{at}
use go_meshtastic_serial2tcp.Prelude.Sorted.By.{IsKeyed, put-IsKeyed}
use go_meshtastic_serial2tcp.Meshtastic.{User, Position, NodeInfo}
use go_meshtastic_serial2tcp.Meshtastic.Printer.{Printer}
use go_meshtastic_serial2tcp.Webui.Node.{NodeView}
use go_meshtastic_serial2tcp.Webui.Hub.{Hub}
use go_meshtastic_serial2tcp.Webui.Nodes.{
  node_at, notify_nodes, set_local_node_num, mark_known, merge_info, with_user, with_position,
  with_metrics, with_info, update_node_from_info, touch, touch_node_activity, broadcast_node,
}

abbrev pub num_of : NodeView → ℕ
num_of n = n.num

abbrev pub IsNodes : Assoc ℕ NodeView → Type 0
IsNodes m = IsMap m × IsKeyed num_of m

get-IsKeyed :
    (m : Assoc ℕ NodeView) (k : ℕ) (v : NodeView) → IsKeyed num_of m → get m k ≡ some v → v.num ≡ k
unfolding get
get-IsKeyed [] k v h e = absurd cc
get-IsKeyed ((j, w) ∷ m) k v h e = ground (arith, get-IsKeyed m k v h.1)

put-IsNodes :
    (m : Assoc ℕ NodeView) (k : ℕ) (v : NodeView) → v.num ≡ k → IsNodes m → IsNodes (put m k v)
put-IsNodes m k v e h = (put-IsMap m k v h.0, put-IsKeyed num_of m k v e h.1)

merge_info-num :
    (q : Printer) (now local : ℕ) (info : NodeInfo) (n : NodeView)
    → (merge_info q now local info n).num ≡ info.num
unfolding merge_info
merge_info-num q now local info n =
    metrics info.device_metrics (with_position info.position (with_user q info.user m))
    ∙ position info.position (with_user q info.user m)
    ∙ user info.user m
  where
    m : NodeView
    m = with_info now local info n

    metrics : (o : Option (Option ℕ)) (n : NodeView) → (with_metrics o n).num ≡ n.num
    metrics none n = refl
    metrics (some l) n = refl

    position : (o : Option Position) (n : NodeView) → (with_position o n).num ≡ n.num
    position none n = refl
    position (some p) n = refl

    user : (o : Option User) (n : NodeView) → (with_user q o n).num ≡ n.num
    user none n = refl
    user (some u) n = refl

node_at-num :
    (h : Hub) (k : ℕ) → IsNodes h.nodes → ((node_at h k).num ≡ 0) ⊎ ((node_at h k).num ≡ k)
node_at-num h k good = elim (Option-cases (get h.nodes k)) [
  | inl e ↦ rw (e, at) (inl refl)
  | inr (v, e) ↦ rw (e, at) (inr (get-IsKeyed h.nodes k v good.1 e))
]

touch-num :
    (num snr time local : ℕ) (n : NodeView)
    → (n.num ≡ 0) ⊎ (n.num ≡ num)
    → (touch num snr time local n).num ≡ num
unfolding touch
touch-num num snr time local n h = ground arith

pub set_local_node_num-IsNodes :
    (now : ℕ) (h : Hub) (num : ℕ) → IsNodes h.nodes → IsNodes (set_local_node_num now h num).nodes
unfolding set_local_node_num notify_nodes
set_local_node_num-IsNodes now h num good =
    if_cases (λ (x : Hub). IsNodes x.nodes) (num == 0) (λ _. good) (λ _. known)
  where
    known : IsNodes (mark_known (record h { local_node_num = num }) num (get h.nodes num)).nodes
    known = elim (Option-cases (get h.nodes num)) [
      | inl e ↦ rw e good
      | inr (v, e) ↦ rw e (put-IsNodes h.nodes num _ (get-IsKeyed h.nodes num v good.1 e) good)
    ]

pub update_node_from_info-IsNodes :
    (q : Printer) (now : ℕ) (h : Hub) (o : Option NodeInfo)
    → IsNodes h.nodes
    → IsNodes (update_node_from_info q now h o).nodes
unfolding update_node_from_info notify_nodes
update_node_from_info-IsNodes q now h none good = good
update_node_from_info-IsNodes q now h (some info) good =
    if_cases (λ (x : Hub). IsNodes x.nodes) (info.num == 0) (λ _. good)
      (λ _.
        put-IsNodes h.nodes info.num _
          (merge_info-num q now h.local_node_num info (node_at h info.num)) good)

pub touch_node_activity-IsNodes :
    (now : ℕ) (h : Hub) (num snr time : ℕ)
    → IsNodes h.nodes
    → IsNodes (touch_node_activity now h num snr time).nodes
unfolding touch_node_activity notify_nodes
touch_node_activity-IsNodes now h num snr time good =
    if_cases (λ (x : Hub). IsNodes x.nodes) (num == 0 || num == broadcast_node) (λ _. good)
      (λ _.
        put-IsNodes h.nodes num _
          (touch-num num snr time h.local_node_num (node_at h num) (node_at-num h num good)) good)
