-- ===== src/Broker/Delivery/Invariant.antt =====
-- internal/broker/broker.go: the state that the broker's methods keep, and that they keep it where
-- clients come, go and get payloads.
use go_meshtastic_serial2tcp.Prelude.{
  ℕ, ◌≤◌, ◌≡◌, ◌≢◌, refl, ap, Bool, true, false, Option, none, some, List, [], ◌∷◌, ◌++◌, ◌==◌,
  if◌then◌else◌, arith, length, length-append, Bool-cases, if_cases, inl, inr,
}
use go_meshtastic_serial2tcp.Prelude.Keys.{Text, nat_key}
use go_meshtastic_serial2tcp.Prelude.Assoc.{get, IsMap, delete_if-IsMap, get-delete_if, unless}
use go_meshtastic_serial2tcp.Frame.{Writer}
use go_meshtastic_serial2tcp.Meshtastic.{Codec}
use go_meshtastic_serial2tcp.Broker.Client.{
  Client, client_send_buffer, enqueue, mark_slow_warning, close, new_client,
}
use go_meshtastic_serial2tcp.Broker.Cache.{Bytes}
use go_meshtastic_serial2tcp.Broker.State.{
  Broker, ConfigRequest, publish_status, at_client, log_decoded_payload, HubCall, tell,
}
use go_meshtastic_serial2tcp.Broker.Pending.{is_client}
use go_meshtastic_serial2tcp.Broker.Delivery.{
  contains, without, first_of_clients, remove_client, add_client, disconnect_slow_client,
  send_to_client, broadcast_to, broadcast_except, after_enqueue,
}
use go_meshtastic_serial2tcp.Broker.Delivery.Laws.{
  Distinct, Distinct-without, Distinct-snoc, contains-snoc, Owns, first_of_clients-Owns,
  contains-without, remove_client-clients, remove_client-primary, remove_client-heap,
  remove_client-pending_config,
}

-- The client of a request is registered; a bootstrap request has none.
abbrev pub Registered : List ℕ → Option ℕ → Type 0
Registered cs none = Unit
Registered cs (some x) = contains cs x ≡ true

-- No client is registered twice; there is a primary, and it is registered, as soon as there is any
-- client; the registered clients are open; a config request has an id, and its client is
-- registered; and no client's buffer is overfull.
pub record IsConsistent (b : Broker) : Type 0 where
  pub distinct : Distinct b.clients
  pub owner : Owns b.primary b.clients
  pub is_open : (x : ℕ) → contains b.clients x ≡ true → (b.heap x).done ≡ false
  pub pending_map : IsMap b.pending_config
  pub pending :
      (id : ℕ) (r : ConfigRequest)
      → get b.pending_config id ≡ some r
      → (id ≢ 0) × Registered b.clients r.client
  pub buffers : (x : ℕ) → length (b.heap x).send ≤ client_send_buffer

Owns-remove :
    (pr : Option ℕ) (cs : List ℕ) (cl : ℕ)
    → Owns pr cs
    → Owns (if is_client cl pr then first_of_clients (without cs cl) else pr) (without cs cl)
Owns-remove none cs cl h = ap (λ t. without t cl) h
Owns-remove (some x) cs cl h = elim (Bool-cases (x == cl)) [
  | inl e ↦ rw e (first_of_clients-Owns (without cs cl))
  | inr e ↦ rw e (ground (arith, contains-without cs cl x))
]

Registered-without :
    (cs : List ℕ) (cl : ℕ) (r : Option ℕ)
    → is_client cl r ≡ false
    → Registered cs r
    → Registered (without cs cl) r
Registered-without cs cl none e h = tt
Registered-without cs cl (some x) e h = ground (arith, contains-without cs cl x)

pub kept_request :
    (cl : ℕ) (id : ℕ) (o : Option ConfigRequest) (r : ConfigRequest)
    → unless (λ id req. is_client cl req.client) id o ≡ some r
    → (o ≡ some r) × (is_client cl r.client ≡ false)
kept_request cl id none r h = cc
kept_request cl id (some q) r h = elim (Bool-cases (is_client cl q.client)) [
  | inl e ↦ absurd (ground arith)
  | inr e ↦ ground arith
]

-- removeClient keeps the state consistent, whether the client is registered or not.
pub remove_client-IsConsistent :
    (p : Codec) (b : Broker) (cl : ℕ) → IsConsistent b → IsConsistent (remove_client p b cl)
unfolding close
remove_client-IsConsistent p b cl h = record {
  distinct = rw (remove_client-clients p b cl) (Distinct-without b.clients cl h.distinct);
  owner =
      rw (remove_client-clients p b cl, remove_client-primary p b cl)
        (Owns-remove b.primary b.clients cl h.owner);
  is_open = λ x e. ground (
    arith,
    remove_client-clients p b cl,
    contains-without b.clients cl x,
    remove_client-heap p b cl x,
    h.is_open x,
  );
  pending_map =
      rw (remove_client-pending_config p b cl) (delete_if-IsMap _ b.pending_config h.pending_map);
  pending = λ id r e. ground (
    arith,
    kept_request cl id (get b.pending_config id) r,
    get-delete_if (λ id req. is_client cl req.client) b.pending_config id,
    remove_client-clients p b cl,
    remove_client-pending_config p b cl,
    h.pending id r,
    Registered-without b.clients cl r.client,
  );
  buffers = λ x. ground (arith, remove_client-heap p b cl x, h.buffers x, h.buffers cl);
}

-- A change of one client's object that leaves it open or closed, with no overfull buffer.
pub at_client-IsConsistent :
    (b : Broker) (cl : ℕ) (c : Client)
    → IsConsistent b
    → c.done ≡ (b.heap cl).done
    → length c.send ≤ client_send_buffer
    → IsConsistent (at_client b cl c)
at_client-IsConsistent b cl c h same fits = record {
  distinct = h.distinct;
  owner = h.owner;
  is_open = λ x e. ground (arith, h.is_open x, h.is_open cl);
  pending_map = h.pending_map;
  pending = h.pending;
  buffers = λ x. ground (arith, h.buffers x);
}

-- Only these four fields matter.
pub same-IsConsistent :
    (b b' : Broker)
    → b'.clients ≡ b.clients
    → b'.primary ≡ b.primary
    → b'.heap ≡ b.heap
    → b'.pending_config ≡ b.pending_config
    → IsConsistent b
    → IsConsistent b'
same-IsConsistent b b' ec ep eh er h = record {
  distinct = rw ec h.distinct;
  owner = rw (ec, ep) h.owner;
  is_open = λ x e. rw eh (h.is_open x (rw ec at e));
  pending_map = rw er h.pending_map;
  pending = λ id r e. rw ec (h.pending id r (rw er at e));
  buffers = λ x. rw eh (h.buffers x);
}

-- A call on the hub changes nothing else.
pub tell-IsConsistent : (b : Broker) (call : HubCall) → IsConsistent b → IsConsistent (tell b call)
tell-IsConsistent b call h = same-IsConsistent b _ refl refl refl refl h

mark_slow_warning-done : (c : Client) → (mark_slow_warning c).0.done ≡ c.done
unfolding mark_slow_warning
mark_slow_warning-done c = ground arith

mark_slow_warning-send :
    (c : Client)
    → length c.send ≤ client_send_buffer
    → length (mark_slow_warning c).0.send ≤ client_send_buffer
unfolding mark_slow_warning
mark_slow_warning-send c h = ground arith

enqueue-done : (c : Client) (x : Bytes) → (enqueue c x).0.done ≡ c.done
unfolding enqueue
enqueue-done c x = ground arith

enqueue-send :
    (c : Client) (x : Bytes)
    → length c.send ≤ client_send_buffer
    → length (enqueue c x).0.send ≤ client_send_buffer
unfolding enqueue
enqueue-send c x h = ground (arith, length-append c.send (x ∷ []))

Owns-snoc :
    (pr : Option ℕ) (cs : List ℕ) (cl : ℕ)
    → Owns pr cs
    → Owns (elim pr [ none ↦ some cl | some x ↦ some x ]) (cs ++ (cl ∷ []))
Owns-snoc none cs cl h = ground (arith, contains-snoc cs cl cl)
Owns-snoc (some x) cs cl h = ground (arith, contains-snoc cs cl x)

Registered-snoc :
    (cs : List ℕ) (cl : ℕ) (r : Option ℕ) → Registered cs r → Registered (cs ++ (cl ∷ [])) r
Registered-snoc cs cl none h = tt
Registered-snoc cs cl (some x) h = ground (arith, contains-snoc cs cl x)

module _ (p : Codec) where
  pub disconnect_slow_client-IsConsistent :
      (b : Broker) (cl : ℕ) → IsConsistent b → IsConsistent (disconnect_slow_client p b cl)
  unfolding disconnect_slow_client
  disconnect_slow_client-IsConsistent b cl h =
      if_cases IsConsistent (b.heap cl).done (λ _. h)
        λ _. remove_client-IsConsistent p _ cl (
          at_client-IsConsistent b cl _ h (mark_slow_warning-done (b.heap cl))
            (mark_slow_warning-send (b.heap cl) (h.buffers cl)))

  -- The same for what an enqueue left, if that kept the client open and its buffer in bounds.
  pub after_enqueue-IsConsistent :
      (b : Broker) (cl : ℕ) (x : Bytes) (r : Client × Bool)
      → IsConsistent b
      → r.0.done ≡ (b.heap cl).done
      → length r.0.send ≤ client_send_buffer
      → IsConsistent (after_enqueue p b cl x r).0
  unfolding log_decoded_payload
  after_enqueue-IsConsistent b cl x (c, true) h same fits =
      tell-IsConsistent _ _ (at_client-IsConsistent b cl c h same fits)
  after_enqueue-IsConsistent b cl x (c, false) h same fits =
      disconnect_slow_client-IsConsistent b cl h

  pub send_to_client-IsConsistent :
      (b : Broker) (cl : ℕ) (x : Bytes) → IsConsistent b → IsConsistent (send_to_client p b cl x)
  unfolding send_to_client
  send_to_client-IsConsistent b cl x h =
      after_enqueue-IsConsistent b cl x _ h (enqueue-done (b.heap cl) x)
        (enqueue-send (b.heap cl) x (h.buffers cl))

  broadcast_to-IsConsistent :
      (cls : List ℕ) (b : Broker) (x : Bytes) (except : Option ℕ)
      → IsConsistent b
      → IsConsistent (broadcast_to p cls b x except)
  unfolding broadcast_to
  broadcast_to-IsConsistent [] b x except h = h
  broadcast_to-IsConsistent (cl ∷ cls) b x except h = broadcast_to-IsConsistent cls _ x except (
      if_cases IsConsistent (is_client cl except) (λ _. h)
        (λ _. send_to_client-IsConsistent b cl x h))

  pub broadcast_except-IsConsistent :
      (b : Broker) (x : Bytes) (except : Option ℕ)
      → IsConsistent b
      → IsConsistent (broadcast_except p b x except)
  unfolding broadcast_except
  broadcast_except-IsConsistent b x except h = broadcast_to-IsConsistent b.clients b x except h

  -- AddClient, for a connection that is a new object, keeps the state consistent.
  pub add_client-IsConsistent :
      (b : Broker) (cl : ℕ) (conn : Writer) (addr : Text)
      → contains b.clients cl ≡ false
      → IsConsistent b
      → IsConsistent (add_client p b cl conn addr)
  unfolding add_client publish_status new_client
  add_client-IsConsistent b cl conn addr new h = tell-IsConsistent _ _ (record {
    distinct = Distinct-snoc b.clients cl new h.distinct;
    owner = Owns-snoc b.primary b.clients cl h.owner;
    is_open = λ x e. ground (arith, contains-snoc b.clients cl x, h.is_open x);
    pending_map = h.pending_map;
    pending = λ id r e.
        ((h.pending id r e).0, Registered-snoc b.clients cl r.client (h.pending id r e).1);
    buffers = λ x. ground (arith, h.buffers x);
  })
