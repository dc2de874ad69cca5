-- ===== src/Broker/Delivery/Requests.antt =====
-- internal/broker/broker.go: changes of the table of config requests that keep the state
-- consistent.
use go_meshtastic_serial2tcp.Prelude.{ℕ, ◌≡◌, ◌≢◌, sym, ◌∙◌, Option, List, arith}
use go_meshtastic_serial2tcp.Prelude.Keys.{nat_key}
use go_meshtastic_serial2tcp.Prelude.Assoc.{
  get, put, delete, get-put, get-delete, put-IsMap, delete-IsMap, delete_if-IsMap, get-delete_if,
}
use go_meshtastic_serial2tcp.Broker.State.{Broker}
use go_meshtastic_serial2tcp.Broker.Pending.{drop_pending_for_client}
use go_meshtastic_serial2tcp.Broker.Delivery.Invariant.{IsConsistent, Registered, kept_request}

Registered-same :
    (cs : List ℕ) (o client : Option ℕ) → o ≡ client → Registered cs client → Registered cs o
Registered-same cs o client e h = rw e h

-- A request of a registered client, or of nobody, under a new id.
pub put_request-IsConsistent :
    (b : Broker) (client : Option ℕ) (id original : ℕ)
    → id ≢ 0
    → Registered b.clients client
    → IsConsistent b
    → IsConsistent (record b {
      pending_config = put b.pending_config id (record { client = client; original_id = original });
    })
put_request-IsConsistent b client id original nonzero here h = record {
  distinct = h.distinct;
  owner = h.owner;
  is_open = h.is_open;
  pending_map = put-IsMap b.pending_config id _ h.pending_map;
  pending = λ j r e. ground (
    arith,
    get-put b.pending_config id j (record { client = client; original_id = original }),
    h.pending j r,
    Registered-same b.clients r.client client,
  );
  buffers = h.buffers;
}

pub taken-IsConsistent :
    (b : Broker) (id : ℕ)
    → IsConsistent b
    → IsConsistent (record b { pending_config = delete b.pending_config id })
taken-IsConsistent b id h = record {
  distinct = h.distinct;
  owner = h.owner;
  is_open = h.is_open;
  pending_map = delete-IsMap b.pending_config id h.pending_map;
  pending = λ j r e. ground (arith, get-delete b.pending_config id j, h.pending j r);
  buffers = h.buffers;
}

pub drop_pending_for_client-IsConsistent :
    (b : Broker) (cl : ℕ) → IsConsistent b → IsConsistent (drop_pending_for_client b cl)
unfolding drop_pending_for_client
drop_pending_for_client-IsConsistent b cl h = record {
  distinct = h.distinct;
  owner = h.owner;
  is_open = h.is_open;
  pending_map = delete_if-IsMap _ b.pending_config h.pending_map;
  pending = λ id r e.
      h.pending id r
        (kept_request cl id (get b.pending_config id) r
          (sym (get-delete_if _ b.pending_config id h.pending_map) ∙ e)).0;
  buffers = h.buffers;
}
