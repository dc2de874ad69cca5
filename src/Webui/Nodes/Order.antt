-- ===== src/Webui/Nodes/Order.antt =====
-- internal/webui/nodes.go and the sort in server.go: what a viewer sees of the nodes does not
-- depend on the order in which `range` visits the map.
use go_meshtastic_serial2tcp.Prelude.{
  ℕ, ◌≡◌, refl, sym, ap, ap₂, ◌∙◌, List, [], ◌∷◌, map, Bool-cases, inl, inr, leb,
}
use go_meshtastic_serial2tcp.Prelude.Keys.{nat_key}
use go_meshtastic_serial2tcp.Prelude.Assoc.{values}
use go_meshtastic_serial2tcp.Prelude.Canonical.{SameMap}
use go_meshtastic_serial2tcp.Prelude.Sorted.By.{insert_by, sort_by, sort_by-SameMap}
use go_meshtastic_serial2tcp.Webui.Node.{NodeView, zero_node}
use go_meshtastic_serial2tcp.Webui.Hub.{Hub}
use go_meshtastic_serial2tcp.Webui.Nodes.{refresh, snapshot_nodes}
use go_meshtastic_serial2tcp.Webui.Nodes.Invariant.{num_of, IsNodes}

insert_by-refresh :
    (now local : ℕ) (n : NodeView) (ns : List NodeView)
    → insert_by num_of (refresh now local n) (map (refresh now local) ns)
      ≡ map (refresh now local) (insert_by num_of n ns)
unfolding insert_by refresh
insert_by-refresh now local n [] = refl
insert_by-refresh now local n (m ∷ ns) = elim (Bool-cases (leb n.num m.num)) [
  | inl e ↦ rw (e) refl
  | inr e ↦ rw (e) (ap (λ t. refresh now local m ∷ t) (insert_by-refresh now local n ns))
]

pub sort_by-refresh :
    (now local : ℕ) (ns : List NodeView)
    → sort_by num_of (map (refresh now local) ns) ≡ map (refresh now local) (sort_by num_of ns)
unfolding sort_by
sort_by-refresh now local [] = refl
sort_by-refresh now local (n ∷ ns) =
    ap (insert_by num_of (refresh now local n)) (sort_by-refresh now local ns)
    ∙ insert_by-refresh now local n (sort_by num_of ns)

pub snapshot_nodes-SameMap :
    (now : ℕ) (h g : Hub)
    → IsNodes h.nodes
    → IsNodes g.nodes
    → h.local_node_num ≡ g.local_node_num
    → SameMap h.nodes g.nodes
    → sort_by num_of (snapshot_nodes now h) ≡ sort_by num_of (snapshot_nodes now g)
unfolding snapshot_nodes
snapshot_nodes-SameMap now h g hn gn local same =
    sort_by-refresh now h.local_node_num (values h.nodes)
    ∙ ap₂ (λ l t. map (refresh now l) t) local
        (sort_by-SameMap num_of zero_node h.nodes g.nodes hn.0 gn.0 hn.1 gn.1 same)
    ∙ sym (sort_by-refresh now g.local_node_num (values g.nodes))
