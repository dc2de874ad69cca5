-- ===== src/Broker/Radio/Invariant.antt =====
-- internal/broker/broker.go: the handling of a payload from the radio keeps the state consistent.
use go_meshtastic_serial2tcp.Prelude.{
  ℕ, ◌≡◌, ◌≢◌, sym, ap, ◌∙◌, subst, some_inj, Option, none, some, List, [], ◌∷◌, arith, Bool-cases,
  Option-cases, inl, inr,
}
use go_meshtastic_serial2tcp.Prelude.Keys.{nat_key}
use go_meshtastic_serial2tcp.Prelude.Assoc.{Assoc, get, values, IsMap}
use go_meshtastic_serial2tcp.Meshtastic.{Codec, FromRadio, ToRadio}
use go_meshtastic_serial2tcp.Broker.Cache.{Bytes, ready}
use go_meshtastic_serial2tcp.Broker.State.{Broker, Error, ConfigRequest, fail, log_decoded_payload}
use go_meshtastic_serial2tcp.Broker.Pending.{reserve_config_request}
use go_meshtastic_serial2tcp.Broker.Delivery.{broadcast}
use go_meshtastic_serial2tcp.Broker.Delivery.Invariant.{
  IsConsistent, Registered, tell-IsConsistent, broadcast_except-IsConsistent,
}
use go_meshtastic_serial2tcp.Broker.Serial.{forward_to_serial}
use go_meshtastic_serial2tcp.Broker.Serial.Laws.{forward_to_serial-clients}
use go_meshtastic_serial2tcp.Broker.Handle.Steps.{fail-IsConsistent, forward_to_serial-IsConsistent}
use go_meshtastic_serial2tcp.Broker.Radio.Config.{reserve_config_request-IsReserved}
use go_meshtastic_serial2tcp.Broker.Radio.{
  is_stale, reissue, handle_rebooted, route_from_radio, handle_serial_payload, has_bootstrap,
  bootstrap_config, bootstrap_config_id,
}
use go_meshtastic_serial2tcp.Broker.Radio.Steps.{
  reserved-IsConsistent, cache-IsConsistent, reset-IsConsistent, deliver_packet-IsConsistent,
  complete-IsConsistent,
}

abbrev pub AllRegistered : List ℕ → List ConfigRequest → Type 0
AllRegistered cs [] = Unit
AllRegistered cs (r ∷ rs) = Registered cs r.client × AllRegistered cs rs

-- The requests of a table, read off its lookups.
all_registered :
    (cs : List ℕ) (m : Assoc ℕ ConfigRequest)
    → IsMap m
    → ((id : ℕ) (r : ConfigRequest) → get m id ≡ some r → (id ≢ 0) × Registered cs r.client)
    → AllRegistered cs (values m)
unfolding get
all_registered cs [] m h = tt
all_registered cs ((j, r) ∷ m) (fresh, d) h =
    ((h j r (ground arith)).1, all_registered cs m d λ id q e. h id q (later id q e))
  where
    later : (id : ℕ) (q : ConfigRequest) → get m id ≡ some q → get ((j, r) ∷ m) id ≡ some q
    later id q e = ground arith

module _ (p : Codec) where
  reissue-IsConsistent :
      (old : Assoc ℕ ConfigRequest) (draws : List ℕ) (b b' : Broker)
      → AllRegistered b.clients (values old)
      → IsConsistent b
      → reissue p draws b old ≡ some b'
      → IsConsistent b'
  unfolding reissue
  reissue-IsConsistent [] draws b b' a h e = subst IsConsistent (some_inj e) h
  reissue-IsConsistent ((id, req) ∷ old) draws b b' a h e = elim (Bool-cases (is_stale b req)) [
    | inl stale ↦ reissue-IsConsistent old draws b b' a.1 h (rw (stale, reissue) at e)
    | inr kept ↦ elim (Option-cases (reserve_config_request draws b req.client req.original_id)) [
      | inl q ↦ absurd (ground (arith, rw (kept, q, reissue) at e))
      | inr ((new_id, rest, rb), q) ↦
          let r =
            reserve_config_request-IsReserved draws b rb req.client req.original_id new_id rest q in
          let h' =
            forward_to_serial-IsConsistent p rb (ToRadio.want_config_id new_id)
              (reserved-IsConsistent b rb req.client req.original_id new_id r a.0 h) in
          let same =
            forward_to_serial-clients p rb (ToRadio.want_config_id new_id)
            ∙ ap (λ c. c.clients) r.result in
          elim (Option-cases (forward_to_serial p rb (ToRadio.want_config_id new_id)).1) [
            | inl s ↦
                reissue-IsConsistent old rest _ b'
                  (subst (λ cs. AllRegistered cs (values old)) (sym same) a.1) h'
                  (rw (kept, q, s, reissue) at e)
            | inr (x, s) ↦
                subst IsConsistent (some_inj (rw (kept, q, s, reissue) at e))
                  (fail-IsConsistent _ (some x) h')
          ]
    ]
  ]

  rebooted-IsConsistent :
      (draws : List ℕ) (b b' : Broker)
      → IsConsistent b
      → handle_rebooted p draws b ≡ some b'
      → IsConsistent b'
  unfolding handle_rebooted
  rebooted-IsConsistent draws b b' h e =
      reissue-IsConsistent b.pending_config draws _ b'
        (all_registered b.clients b.pending_config h.pending_map h.pending) (reset-IsConsistent b h)
        e

  broadcast-IsConsistent :
      (b b' : Broker) (x : Bytes)
      → IsConsistent b
      → some (broadcast p b x) ≡ some b'
      → IsConsistent b'
  unfolding broadcast
  broadcast-IsConsistent b b' x h e =
      subst IsConsistent (some_inj e) (broadcast_except-IsConsistent p b x none h)

  route-IsConsistent :
      (now : ℕ) (draws : List ℕ) (b b' : Broker) (f : FromRadio) (x : Bytes)
      → IsConsistent b
      → route_from_radio p now draws b f x ≡ some b'
      → IsConsistent b'
  unfolding route_from_radio
  route-IsConsistent now draws b b' (FromRadio.config_complete_id id) x h e =
      subst IsConsistent (some_inj e) (complete-IsConsistent p b id h)
  route-IsConsistent now draws b b' (FromRadio.rebooted r) x h e =
      rebooted-IsConsistent draws b b' h e
  route-IsConsistent now draws b b' (FromRadio.packet (some pkt)) x h e =
      subst IsConsistent (some_inj e) (deliver_packet-IsConsistent p now b pkt x h)
  route-IsConsistent now draws b b' f x h e = broadcast-IsConsistent b b' x h e

  -- Whatever payload the radio sends, a reboot in the middle of config requests included, handling
  -- it leaves the state consistent.
  pub handle_serial_payload-IsConsistent :
      (now : ℕ) (draws : List ℕ) (b b' : Broker) (x : Bytes)
      → IsConsistent b
      → handle_serial_payload p now draws b x ≡ some b'
      → IsConsistent b'
  unfolding handle_serial_payload log_decoded_payload
  handle_serial_payload-IsConsistent now draws b b' x h e =
      let h' = tell-IsConsistent b _ h in
      elim (Option-cases (p.unmarshal_from_radio x)) [
        | inl q ↦ subst IsConsistent (some_inj (rw (q, handle_serial_payload) at e)) h'
        | inr (f, q) ↦
            route-IsConsistent now draws _ b' f x (cache-IsConsistent _ f x h')
              (rw (q, handle_serial_payload) at e)
      ]

  bootstrap_failed :
      (r : Broker × Option Error) (b' : Broker)
      → IsConsistent r.0
      → some (elim r.1 [ none ↦ r.0 | some x ↦ fail r.0 (some x) ]) ≡ some b'
      → IsConsistent b'
  bootstrap_failed (b, none) b' h e = subst IsConsistent (some_inj e) h
  bootstrap_failed (b, some x) b' h e =
      subst IsConsistent (some_inj e) (fail-IsConsistent b (some x) h)

  pub bootstrap_config-IsConsistent :
      (draws : List ℕ) (b b' : Broker)
      → IsConsistent b
      → bootstrap_config p draws b ≡ some b'
      → IsConsistent b'
  unfolding bootstrap_config
  bootstrap_config-IsConsistent draws b b' h e = elim (Option-cases b.observability) [
    | inl o ↦ subst IsConsistent (some_inj (rw (o, bootstrap_config) at e)) h
    | inr (calls, o) ↦ elim (Bool-cases (ready b.cache)) [
      | inl r ↦ subst IsConsistent (some_inj (rw (o, r, bootstrap_config) at e)) h
      | inr r ↦ elim (Bool-cases (has_bootstrap b.pending_config)) [
        | inl s ↦ subst IsConsistent (some_inj (rw (o, r, s, bootstrap_config) at e)) h
        | inr s ↦ elim (Option-cases (reserve_config_request draws b none bootstrap_config_id)) [
          | inl q ↦ absurd (ground (arith, rw (o, r, s, q, bootstrap_config) at e))
          | inr ((id, rest, rb), q) ↦
              bootstrap_failed (forward_to_serial p rb (ToRadio.want_config_id id)) b'
                (forward_to_serial-IsConsistent p rb (ToRadio.want_config_id id) (
                  reserved-IsConsistent b rb none bootstrap_config_id id
                    (reserve_config_request-IsReserved draws b rb none bootstrap_config_id id rest
                      q)
                    tt h))
                (rw (o, r, s, q, bootstrap_config) at e)
        ]
      ]
    ]
  ]
