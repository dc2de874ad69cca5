-- ===== src/Broker/Handle/ReadOnly.antt =====
-- internal/broker/broker.go: which of a client's payloads the radio never sees.
use go_meshtastic_serial2tcp.Prelude.{
  All, ℕ, suc, ◌≡◌, refl, sym, ap, ◌∙◌, subst, some_inj, Bool, true, false, none, some, List, [],
  ◌∷◌, ◌++◌, if_cases, Bool-cases, Option-cases, ◌⊎◌, inl, inr, arith,
}
use go_meshtastic_serial2tcp.Prelude.Keys.{nat_key}
use go_meshtastic_serial2tcp.Prelude.Assoc.{Assoc, values, delete_if}
use go_meshtastic_serial2tcp.Meshtastic.{Codec, ToRadio}
use go_meshtastic_serial2tcp.Broker.Client.{close}
use go_meshtastic_serial2tcp.Broker.Cache.{Bytes, snapshot, ready}
use go_meshtastic_serial2tcp.Broker.State.{Broker, ConfigRequest}
use go_meshtastic_serial2tcp.Broker.Pending.{is_client}
use go_meshtastic_serial2tcp.Broker.Delivery.{contains, write_rounds, warn_read_only_client}
use go_meshtastic_serial2tcp.Broker.Delivery.Laws.{
  remove_client-serial, remove_client-clients, remove_client-heap, remove_client-pending_config,
  contains-without,
}
use go_meshtastic_serial2tcp.Broker.Delivery.Serial.{after_enqueue-serial, write_rounds-serial}
use go_meshtastic_serial2tcp.Broker.Handle.{
  Wait, send_to_client_blocking, send_each, send_cached_config, replay_payloads, completion,
  is_primary, may_send, handle_to_radio, handle_client_payload,
}

abbrev pub is_want_config : ToRadio → Bool
is_want_config (ToRadio.want_config_id id) = true
is_want_config _ = false

module _ (p : Codec) where
  blocking-serial :
      (w : Wait) (b : Broker) (cl : ℕ) (x : Bytes)
      → (send_to_client_blocking p w b cl x).0.serial ≡ b.serial
  unfolding send_to_client_blocking
  blocking-serial w b cl x =
      after_enqueue-serial p (write_rounds p w.rounds b cl) cl x _
      ∙ write_rounds-serial p w.rounds b cl

  send_each-serial :
      (xs : List Bytes) (waits : ℕ → Wait) (b : Broker) (cl : ℕ)
      → (send_each p waits b cl xs).0.serial ≡ b.serial
  unfolding send_each
  send_each-serial [] waits b cl = refl
  send_each-serial (x ∷ xs) waits b cl =
      if_cases {A = Broker × Bool} (λ r. r.0.serial ≡ b.serial)
        (send_to_client_blocking p (waits 0) b cl x).1
        (λ _. send_each-serial xs (λ n. waits (suc n)) _ cl ∙ blocking-serial (waits 0) b cl x)
        (λ _. blocking-serial (waits 0) b cl x)

  send_cached_config-serial :
      (waits : ℕ → Wait) (b : Broker) (cl id : ℕ)
      → (send_cached_config p waits b cl id).serial ≡ b.serial
  unfolding send_cached_config
  send_cached_config-serial waits b cl id =
      send_each-serial (replay_payloads (snapshot b.cache) ++ completion p id) waits b cl

  -- The payload is a WantConfigId.
  abbrev pub wants_config : Bytes → Bool
  wants_config x = elim (p.unmarshal_to_radio x) [ none ↦ false | some t ↦ is_want_config t ]

  quiet_to_radio :
      (now : ℕ) (draws : List ℕ) (waits : ℕ → Wait) (b b' : Broker) (cl : ℕ) (t : ToRadio)
      → ready b.cache ≡ true
      → (may_send p b cl ≡ false) ⊎ (is_want_config t ≡ true)
      → handle_to_radio p now draws waits b cl t ≡ some b'
      → b'.serial ≡ b.serial
  unfolding handle_to_radio warn_read_only_client
  quiet_to_radio now draws waits b b' cl (ToRadio.want_config_id id) r q h =
      ap (λ c. c.serial) (sym (some_inj (rw r at h))) ∙ send_cached_config-serial waits b cl id
  quiet_to_radio now draws waits b b' cl (ToRadio.disconnect d) r q h =
      ap (λ c. c.serial) (sym (some_inj h)) ∙ remove_client-serial p b cl
  quiet_to_radio now draws waits b b' cl (ToRadio.packet pkt) r (inl q) h =
      ap (λ c. c.serial) (sym (some_inj (rw q at h)))
  quiet_to_radio now draws waits b b' cl (ToRadio.packet pkt) r (inr q) h = cc
  quiet_to_radio now draws waits b b' cl t r (inl q) h =
      ap (λ c. c.serial) (sym (some_inj (rw q at h)))
  quiet_to_radio now draws waits b b' cl t r (inr q) h = cc

  no_config : (x : Bytes) → p.unmarshal_to_radio x ≡ none → wants_config x ≡ true → ⊥
  no_config x e w = ground arith

  is_config :
      (x : Bytes) (t : ToRadio)
      → p.unmarshal_to_radio x ≡ some t
      → wants_config x ≡ true
      → is_want_config t ≡ true
  is_config x t e w = ground arith

  -- Once the cache is ready, no WantConfigId of any client reaches the radio, and where clients are
  -- read-only no payload whatever of a client that is not the primary does: the bytes written to
  -- the serial line stay as they were.
  pub handle_client_payload-serial :
      (now : ℕ) (draws : List ℕ) (waits : ℕ → Wait) (b b' : Broker) (cl : ℕ) (x : Bytes)
      → ready b.cache ≡ true
      → ((is_primary b cl ≡ false) × (b.read_only_clients ≡ true)) ⊎ (wants_config x ≡ true)
      → handle_client_payload p now draws waits b cl x ≡ some b'
      → b'.serial ≡ b.serial
  unfolding handle_client_payload
  handle_client_payload-serial now draws waits b b' cl x r q h =
      elim (Option-cases (p.unmarshal_to_radio x)) [
        | inl e ↦ elim q [
          | inl (np, ro) ↦
              ap (λ c. c.serial) (sym (some_inj (rw (e, handle_client_payload, np) at h)))
          | inr w ↦ absurd (no_config x e w)
        ]
        | inr (t, e) ↦
            quiet_to_radio now draws waits b b' cl t r
              (elim q [ inl (np, ro) ↦ inl (ground arith) | inr w ↦ inr (is_config x t e w) ])
              (rw (e, handle_client_payload) at h)
      ]

  requests_gone :
      (cl : ℕ) (m : Assoc ℕ ConfigRequest)
      → All
          (λ r. is_client cl r.client ≡ false)
          (values (delete_if (λ id req. is_client cl req.client) m))
  unfolding delete_if
  requests_gone cl [] = tt
  requests_gone cl ((id, r) ∷ m) = elim (Bool-cases (is_client cl r.client)) [
    | inl e ↦ rw e (requests_gone cl m)
    | inr e ↦ rw e (e, requests_gone cl m)
  ]

  -- A Disconnect is not forwarded to the radio. It unregisters the client, closes it, and drops its
  -- config requests, whichever client sends it.
  pub handle_client_payload-disconnect :
      (now : ℕ) (draws : List ℕ) (waits : ℕ → Wait) (b b' : Broker) (cl : ℕ) (x : Bytes) (d : Bool)
      → p.unmarshal_to_radio x ≡ some (ToRadio.disconnect d)
      → handle_client_payload p now draws waits b cl x ≡ some b'
      → (b'.serial ≡ b.serial)
        × (contains b'.clients cl ≡ false)
        × ((b'.heap cl).done ≡ true)
        × All (λ r. is_client cl r.client ≡ false) (values b'.pending_config)
  unfolding handle_client_payload handle_to_radio close
  handle_client_payload-disconnect now draws waits b b' cl x d e h =
      subst
        (λ c.
          (c.serial ≡ b.serial)
          × (contains c.clients cl ≡ false)
          × ((c.heap cl).done ≡ true)
          × All (λ r. is_client cl r.client ≡ false) (values c.pending_config))
        (some_inj (rw (e, handle_client_payload) at h))
        (
          remove_client-serial p b cl,
          ground (arith, remove_client-clients p b cl, contains-without b.clients cl cl),
          ground (arith, remove_client-heap p b cl cl),
          rw (remove_client-pending_config p b cl) (requests_gone cl b.pending_config),
        )
