-- ===== src/Webui/Nodes/News.antt =====
-- internal/webui/nodes.go: what the news of a node do to the table.
use go_meshtastic_serial2tcp.Prelude.{
  ℕ, ◌≡◌, ◌≢◌, refl, ap, ◌∙◌, true, Option, none, some, List, [], ◌∷◌, if◌then◌else◌, ◌==◌, arith,
  Bool-cases, inl, inr,
}
use go_meshtastic_serial2tcp.Prelude.Keys.{nat_key}
use go_meshtastic_serial2tcp.Prelude.Assoc.{get, get-put}
use go_meshtastic_serial2tcp.Prelude.Sorted.{at}
use go_meshtastic_serial2tcp.Meshtastic.{NodeInfo}
use go_meshtastic_serial2tcp.Meshtastic.Printer.{Printer}
use go_meshtastic_serial2tcp.Webui.Node.{NodeView}
use go_meshtastic_serial2tcp.Webui.Hub.{Hub}
use go_meshtastic_serial2tcp.Webui.Nodes.{
  node_at, put_node, notify_nodes, set_local_node_num, mark_known, mark_local, merge_info,
  update_node_from_info, touch_node_activity,
}

-- What reaches the table: a NodeInfo, a packet of a node with its signal, or the radio's own
-- number, each at its time.
pub data News : Type 0 where
  info_news : (time : ℕ) → NodeInfo → News
  packet_news : (time num snr : ℕ) → News
  local_news : (time num : ℕ) → News

module _ (q : Printer) where
  abbrev pub hear : Hub → News → Hub
  hear h (info_news time info) = update_node_from_info q time h (some info)
  hear h (packet_news time num snr) = touch_node_activity time h num snr time
  hear h (local_news time num) = set_local_node_num time h num

  abbrev pub hear_all : Hub → List News → Hub
  hear_all h [] = h
  hear_all h (x ∷ news) = hear_all (hear h x) news

pub node_at-put_node :
    (h : Hub) (k j : ℕ) (n : NodeView)
    → node_at (put_node h k n) j ≡ (if k == j then n else node_at h j)
node_at-put_node h k j n = ground (arith, get-put h.nodes k j n)

-- A part of the nodes' views, and what happens to that of node `j`.
module _ {A : Type 0} (part : NodeView → A) where
  pub put_node-part :
      (h : Hub) (k j : ℕ) (n : NodeView)
      → part n ≡ part (node_at h k)
      → part (node_at (put_node h k n) j) ≡ part (node_at h j)
  put_node-part h k j n e = ap part (node_at-put_node h k j n) ∙ (elim (Bool-cases (k == j)) [
    | inl t ↦ rw t (e ∙ ap (λ i. part (node_at h i)) (ground arith))
    | inr t ↦ rw t refl
  ])

  pub set_local_node_num-part :
      (time : ℕ) (h : Hub) (num k : ℕ)
      → ((n : NodeView) → part (mark_local n) ≡ part n)
      → part (node_at (set_local_node_num time h num) k) ≡ part (node_at h k)
  unfolding set_local_node_num notify_nodes
  set_local_node_num-part time h num k same = elim (Bool-cases (num == 0)) [
    | inl e ↦ rw e refl
    | inr e ↦ rw e (known (get h.nodes num) refl)
  ]
    where
      known :
          (o : Option NodeView)
          → get h.nodes num ≡ o
          → part (node_at (mark_known (record h { local_node_num = num }) num o) k)
            ≡ part (node_at h k)
      known none e = refl
      known (some v) e = put_node-part h num k (mark_local v) (same v ∙ ap part (rw (e, at) refl))

  -- A NodeInfo changes the part of its own node by `change`.
  pub update_node_from_info-part :
      (q : Printer) (time : ℕ) (h : Hub) (info : NodeInfo) (k : ℕ) (change : A → A)
      → ((n : NodeView) → part (merge_info q time h.local_node_num info n) ≡ change (part n))
      → k ≢ 0
      → part (node_at (update_node_from_info q time h (some info)) k)
        ≡ (if info.num == k then change (part (node_at h k)) else part (node_at h k))
  unfolding update_node_from_info notify_nodes
  update_node_from_info-part q time h info k change changes nz = elim (Bool-cases (info.num == 0)) [
    | inl z ↦ rw z (kept z)
    | inr z ↦ rw z (ap part (node_at-put_node h info.num k n) ∙ written)
  ]
    where
      n : NodeView
      n = merge_info q time h.local_node_num info (node_at h info.num)

      kept :
          info.num == 0 ≡ true
          → part (node_at h k)
            ≡ (if info.num == k then change (part (node_at h k)) else part (node_at h k))
      kept z = ground arith

      written :
          part (if info.num == k then n else node_at h k)
          ≡ (if info.num == k then change (part (node_at h k)) else part (node_at h k))
      written = elim (Bool-cases (info.num == k)) [
        | inl e ↦
            rw e
              (changes (node_at h info.num) ∙ ap (λ j. change (part (node_at h j))) (ground arith))
        | inr e ↦ rw e refl
      ]
