-- ===== src/Broker/Delivery/Status.antt =====
-- internal/broker/broker.go, removeClient and CloseAll: what the hub is told.
use go_meshtastic_serial2tcp.Prelude.{
  ℕ, ◌≡◌, refl, ap, true, false, ◌||◌, Option, none, some, List, [], ◌∷◌, ◌++◌, length,
  if◌then◌else◌, ◌==◌, arith,
}
use go_meshtastic_serial2tcp.Meshtastic.{Codec}
use go_meshtastic_serial2tcp.Broker.State.{
  Broker, Status, HubCall, set_status, publish_status, describe, node_num,
}
use go_meshtastic_serial2tcp.Broker.Cache.{ready}
use go_meshtastic_serial2tcp.Broker.Pending.{drop_pending_for_client}
use go_meshtastic_serial2tcp.Broker.Delivery.{
  contains, without, forget_client, close_client, remove_client, remove_clients, close_all,
}
use go_meshtastic_serial2tcp.Broker.Delivery.Laws.{contains-without, remove_client-clients}

-- One status more, of a broker that runs with these clients.
abbrev pub Published : List ℕ → List HubCall → Option (List HubCall) → Type 0
Published clients calls after =
    (st : Status) × (after ≡ some (calls ++ (set_status st ∷ [])))
    × (st.serial_connected ≡ true)
    × (st.client_count ≡ length clients)

without-same : (xs : List ℕ) (cl : ℕ) → contains xs cl ≡ false → without xs cl ≡ xs
without-same [] cl e = refl
without-same (x ∷ xs) cl e = ground (arith, without-same xs cl)

module _ (p : Codec) where
  -- The status that the broker publishes.
  abbrev published_status : Broker → Status
  published_status b = record {
    serial_connected = true;
    client_count = length b.clients;
    primary_addr = elim b.primary [ none ↦ [] | some cl ↦ (b.heap cl).addr ];
    cache_ready = ready b.cache;
    cache_summary = some (describe b.cache);
    local_node_num = node_num p b.cache;
  }

  publish_status-Published :
      (b : Broker) (calls : List HubCall)
      → b.observability ≡ some calls
      → Published b.clients calls (publish_status p b).observability
  unfolding publish_status
  publish_status-Published b calls e = (
    published_status b,
    ap
        (λ (o : Option (List HubCall)). elim o [
          | none ↦ none
          | some cs ↦ some (cs ++ (set_status (published_status b) ∷ []))
        ])
        e,
    refl,
    refl,
  )

  pub remove_client-Published :
      (b : Broker) (cl : ℕ) (calls : List HubCall)
      → b.observability ≡ some calls
      → contains b.clients cl ≡ true
      → Published (remove_client p b cl).clients calls (remove_client p b cl).observability
  unfolding remove_client forget_client close_client drop_pending_for_client publish_status
  remove_client-Published b cl calls e there = rw there (
      publish_status-Published (close_client (drop_pending_for_client (forget_client b cl) cl) cl)
        calls e)

  pub remove_client-quiet :
      (b : Broker) (cl : ℕ)
      → contains b.clients cl ≡ false
      → ((remove_client p b cl).observability ≡ b.observability)
        × ((remove_client p b cl).clients ≡ b.clients)
  unfolding remove_client forget_client close_client drop_pending_for_client
  remove_client-quiet b cl gone = rw gone (refl, without-same b.clients cl gone)

  remove_clients-clients :
      (cls : List ℕ) (b : Broker)
      → ((x : ℕ) → contains b.clients x ≡ true → contains cls x ≡ true)
      → (remove_clients p b cls).clients ≡ []
  unfolding remove_clients
  remove_clients-clients [] b h = nobody b.clients h
    where
      nobody : (xs : List ℕ) → ((x : ℕ) → contains xs x ≡ true → false ≡ true) → xs ≡ []
      nobody [] k = refl
      nobody (x ∷ xs) k = ground (arith, k x)
  remove_clients-clients (cl ∷ cls) b h = remove_clients-clients cls (remove_client p b cl) (λ x e.
      left x (rw (remove_client-clients p b cl, contains-without b.clients cl x) at e) (h x))
    where
      left :
          (x : ℕ)
          → (if cl == x then false else contains b.clients x) ≡ true
          → (contains b.clients x ≡ true → (cl == x || contains cls x) ≡ true)
          → contains cls x ≡ true
      left x e k = ground arith

  pub close_all-clients : (b : Broker) → (close_all p b).clients ≡ []
  unfolding close_all
  close_all-clients b = remove_clients-clients b.clients b (λ x e. e)
