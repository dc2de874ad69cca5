-- ===== src/Broker/Handle/Invariant.antt =====
-- internal/broker/broker.go: the handling of a client's payload keeps the state consistent.
use go_meshtastic_serial2tcp.Prelude.{
  ℕ, ◌≡◌, true, some, List, arith, Option-cases, Bool-cases, if_cases, inl, inr, subst, some_inj,
}
use go_meshtastic_serial2tcp.Prelude.Keys.{nat_key}
use go_meshtastic_serial2tcp.Meshtastic.{Codec, ToRadio}
use go_meshtastic_serial2tcp.Broker.Cache.{Bytes, ready}
use go_meshtastic_serial2tcp.Broker.State.{Broker}
use go_meshtastic_serial2tcp.Broker.Pending.{
  fresh_id, reserve_config_request, drop_pending_for_client,
}
use go_meshtastic_serial2tcp.Broker.Pending.Laws.{fresh_id-IsFresh}
use go_meshtastic_serial2tcp.Broker.Delivery.{contains}
use go_meshtastic_serial2tcp.Broker.Delivery.Invariant.{IsConsistent, remove_client-IsConsistent}
use go_meshtastic_serial2tcp.Broker.Delivery.Requests.{
  put_request-IsConsistent, drop_pending_for_client-IsConsistent,
}
use go_meshtastic_serial2tcp.Broker.Handle.{
  Wait, request_config, may_send, is_primary, handle_to_radio, handle_client_payload,
}
use go_meshtastic_serial2tcp.Broker.Handle.Steps.{
  fail_on-IsConsistent, write_serial-IsConsistent, warn_read_only_client-IsConsistent,
  send_cached_config-IsConsistent, forward_to_serial-IsConsistent, send_packet-IsConsistent,
}

module _ (p : Codec) where
  request_config-IsConsistent :
      (draws : List ℕ) (b b' : Broker) (cl original : ℕ)
      → contains b.clients cl ≡ true
      → IsConsistent b
      → request_config p draws b cl original ≡ some b'
      → IsConsistent b'
  unfolding request_config reserve_config_request drop_pending_for_client
  request_config-IsConsistent draws b b' cl original here h e =
      let dropped = drop_pending_for_client b cl in
      let h' = drop_pending_for_client-IsConsistent b cl h in
      elim (Option-cases (fresh_id dropped.pending_config draws)) [
        | inl q ↦ absurd (ground arith)
        | inr ((id, rest), q) ↦
            let fresh = fresh_id-IsFresh dropped.pending_config draws id rest q in
            subst IsConsistent (some_inj (rw (q, request_config) at e)) (
              fail_on-IsConsistent _ (
                forward_to_serial-IsConsistent p _ (ToRadio.want_config_id id)
                  (put_request-IsConsistent dropped (some cl) id original fresh.0 here h')))
      ]

  handle_to_radio-IsConsistent :
      (now : ℕ) (draws : List ℕ) (waits : ℕ → Wait) (b b' : Broker) (cl : ℕ) (t : ToRadio)
      → contains b.clients cl ≡ true
      → IsConsistent b
      → handle_to_radio p now draws waits b cl t ≡ some b'
      → IsConsistent b'
  unfolding handle_to_radio
  handle_to_radio-IsConsistent now draws waits b b' cl (ToRadio.want_config_id original) here h e =
      elim (Bool-cases (ready b.cache)) [
        | inl r ↦
            subst IsConsistent (some_inj (rw r at e))
              (send_cached_config-IsConsistent p waits b cl original h)
        | inr r ↦ request_config-IsConsistent draws b b' cl original here h (rw r at e)
      ]
  handle_to_radio-IsConsistent now draws waits b b' cl (ToRadio.disconnect d) here h e =
      subst IsConsistent (some_inj e) (remove_client-IsConsistent p b cl h)
  handle_to_radio-IsConsistent now draws waits b b' cl (ToRadio.packet pkt) here h e =
      subst IsConsistent (some_inj e) (
        if_cases IsConsistent (may_send p b cl) (λ _. send_packet-IsConsistent p now b cl pkt h)
          (λ _. warn_read_only_client-IsConsistent b cl h))
  handle_to_radio-IsConsistent now draws waits b b' cl t here h e =
      subst IsConsistent (some_inj e) (
        if_cases IsConsistent (may_send p b cl)
          (λ _. fail_on-IsConsistent _ (forward_to_serial-IsConsistent p b t h))
          (λ _. warn_read_only_client-IsConsistent b cl h))

  -- Whatever payload a registered client sends, and however the serial line, the connections and
  -- the write loop behave meanwhile, handling it leaves the state consistent.
  pub handle_client_payload-IsConsistent :
      (now : ℕ) (draws : List ℕ) (waits : ℕ → Wait) (b b' : Broker) (cl : ℕ) (x : Bytes)
      → contains b.clients cl ≡ true
      → IsConsistent b
      → handle_client_payload p now draws waits b cl x ≡ some b'
      → IsConsistent b'
  unfolding handle_client_payload
  handle_client_payload-IsConsistent now draws waits b b' cl x here h e =
      elim (Option-cases (p.unmarshal_to_radio x)) [
        | inl q ↦ subst IsConsistent (some_inj (rw (q, handle_client_payload) at e)) (
            if_cases IsConsistent (is_primary b cl)
              (λ _. fail_on-IsConsistent _ (write_serial-IsConsistent b x h)) (λ _. h))
        | inr (t, q) ↦
            handle_to_radio-IsConsistent now draws waits b b' cl t here h
              (rw (q, handle_client_payload) at e)
      ]
