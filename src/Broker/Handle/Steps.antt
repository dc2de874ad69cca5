-- ===== src/Broker/Handle/Steps.antt =====
-- internal/broker/broker.go: the steps of handling a payload keep the state consistent.
use go_meshtastic_serial2tcp.Prelude.{
  ℕ, zero, suc, ◌≤◌, ◌≡◌, refl, Bool, Option, none, some, List, [], ◌∷◌, ◌++◌, ◌==◌, arith, length,
  length-append, Option-cases, if_cases, inl, inr,
}
use go_meshtastic_serial2tcp.Prelude.Keys.{nat_key}
use go_meshtastic_serial2tcp.Frame.{WriteError, write_frame}
use go_meshtastic_serial2tcp.Meshtastic.{Codec, ToRadio, FromRadio, MeshPacket}
use go_meshtastic_serial2tcp.Broker.Client.{
  Client, client_send_buffer, enqueue_with_timeout, mark_read_only_warning,
}
use go_meshtastic_serial2tcp.Broker.Cache.{Bytes, snapshot}
use go_meshtastic_serial2tcp.Broker.State.{Broker, Error, fail, log_decoded_payload}
use go_meshtastic_serial2tcp.Broker.Outbound.{note_outbound_packet}
use go_meshtastic_serial2tcp.Broker.Serial.{write_serial, forward_to_serial}
use go_meshtastic_serial2tcp.Broker.Delivery.{
  written, write_front, write_round, write_rounds, warn_read_only_client,
}
use go_meshtastic_serial2tcp.Broker.Delivery.Invariant.{
  IsConsistent, same-IsConsistent, at_client-IsConsistent, after_enqueue-IsConsistent,
  remove_client-IsConsistent, broadcast_except-IsConsistent,
}
use go_meshtastic_serial2tcp.Broker.Handle.{
  Wait, fail_on, send_to_client_blocking, send_each, send_cached_config, replay_payloads,
  completion, share_packet, send_packet,
}

pub fail-IsConsistent : (b : Broker) (e : Option Error) → IsConsistent b → IsConsistent (fail b e)
unfolding fail
fail-IsConsistent b e h =
    if_cases IsConsistent b.done (λ _. h) (λ _. same-IsConsistent b _ refl refl refl refl h)

pub write_serial-IsConsistent :
    (b : Broker) (x : Bytes) → IsConsistent b → IsConsistent (write_serial b x).0
unfolding write_serial log_decoded_payload
write_serial-IsConsistent b x h =
    if_cases {A = Broker × Option Error} (λ r. IsConsistent r.0) b.done (λ _. h)
      (λ _. same-IsConsistent b _ refl refl refl refl h)

pub fail_on-IsConsistent : (r : Broker × Option Error) → IsConsistent r.0 → IsConsistent (fail_on r)
fail_on-IsConsistent (b, none) h = h
fail_on-IsConsistent (b, some e) h = fail-IsConsistent b (some e) h

pub note_outbound_packet-IsConsistent :
    (now : ℕ) (b : Broker) (cl : ℕ) (pkt : Option MeshPacket)
    → IsConsistent b
    → IsConsistent (note_outbound_packet now b cl pkt)
unfolding note_outbound_packet
note_outbound_packet-IsConsistent now b cl none h = h
note_outbound_packet-IsConsistent now b cl (some pkt) h =
    if_cases IsConsistent (pkt.id == 0) (λ _. h) (λ _. same-IsConsistent b _ refl refl refl refl h)

pub warn_read_only_client-IsConsistent :
    (b : Broker) (cl : ℕ) → IsConsistent b → IsConsistent (warn_read_only_client b cl)
unfolding warn_read_only_client
warn_read_only_client-IsConsistent b cl h =
    at_client-IsConsistent b cl _ h (same_done (b.heap cl)) (same_send (b.heap cl) (h.buffers cl))
  where
    same_done : (c : Client) → (mark_read_only_warning c).0.done ≡ c.done
    same_done c = unfold mark_read_only_warning in ground arith

    same_send :
        (c : Client)
        → length c.send ≤ client_send_buffer
        → length (mark_read_only_warning c).0.send ≤ client_send_buffer
    same_send c h = unfold mark_read_only_warning in ground arith

enqueue_with_timeout-done :
    (c : Client) (x : Bytes) (d t : Bool) → (enqueue_with_timeout c x d t).0.done ≡ c.done
unfolding enqueue_with_timeout
enqueue_with_timeout-done c x d t = ground arith

enqueue_with_timeout-send :
    (c : Client) (x : Bytes) (d t : Bool)
    → length c.send ≤ client_send_buffer
    → length (enqueue_with_timeout c x d t).0.send ≤ client_send_buffer
unfolding enqueue_with_timeout
enqueue_with_timeout-send c x d t h = ground (arith, length-append c.send (x ∷ []))

module _ (p : Codec) where
  pub written-IsConsistent :
      (b : Broker) (cl : ℕ) (e : Option WriteError)
      → IsConsistent b
      → IsConsistent (written p b cl e)
  unfolding written
  written-IsConsistent b cl none h = h
  written-IsConsistent b cl (some e) h = remove_client-IsConsistent p b cl h

  pub write_front-IsConsistent :
      (b : Broker) (cl : ℕ) (q : List Bytes)
      → length q ≤ client_send_buffer
      → IsConsistent b
      → IsConsistent (write_front p b cl q)
  unfolding write_front
  write_front-IsConsistent b cl [] fits h = h
  write_front-IsConsistent b cl (x ∷ rest) fits h =
      written-IsConsistent _ cl (write_frame (b.heap cl).conn x).1
        (at_client-IsConsistent b cl _ h refl (omega arith))

  pub write_round-IsConsistent :
      (b : Broker) (cl : ℕ) → IsConsistent b → IsConsistent (write_round p b cl)
  unfolding write_round
  write_round-IsConsistent b cl h =
      if_cases IsConsistent b.done (λ _. remove_client-IsConsistent p b cl h)
        λ _.
          if_cases IsConsistent (b.heap cl).done (λ _. h)
            λ _. write_front-IsConsistent b cl (b.heap cl).send (h.buffers cl) h

  pub write_rounds-IsConsistent :
      (n : ℕ) (b : Broker) (cl : ℕ) → IsConsistent b → IsConsistent (write_rounds p n b cl)
  unfolding write_rounds
  write_rounds-IsConsistent zero b cl h = h
  write_rounds-IsConsistent (suc n) b cl h =
      write_rounds-IsConsistent n _ cl (write_round-IsConsistent b cl h)

  pub send_to_client_blocking-IsConsistent :
      (w : Wait) (b : Broker) (cl : ℕ) (x : Bytes)
      → IsConsistent b
      → IsConsistent (send_to_client_blocking p w b cl x).0
  unfolding send_to_client_blocking
  send_to_client_blocking-IsConsistent w b cl x h =
      let b' = write_rounds p w.rounds b cl in
      let h' = write_rounds-IsConsistent w.rounds b cl h in
      after_enqueue-IsConsistent p b' cl x _ h'
        (enqueue_with_timeout-done (b'.heap cl) x b'.done w.takes)
        (enqueue_with_timeout-send (b'.heap cl) x b'.done w.takes (h'.buffers cl))

  pub send_each-IsConsistent :
      (xs : List Bytes) (waits : ℕ → Wait) (b : Broker) (cl : ℕ)
      → IsConsistent b
      → IsConsistent (send_each p waits b cl xs).0
  unfolding send_each
  send_each-IsConsistent [] waits b cl h = h
  send_each-IsConsistent (x ∷ xs) waits b cl h =
      let h' = send_to_client_blocking-IsConsistent (waits 0) b cl x h in
      if_cases {A = Broker × Bool} (λ r. IsConsistent r.0)
        (send_to_client_blocking p (waits 0) b cl x).1
        (λ _. send_each-IsConsistent xs (λ n. waits (suc n)) _ cl h') (λ _. h')

  pub send_cached_config-IsConsistent :
      (waits : ℕ → Wait) (b : Broker) (cl id : ℕ)
      → IsConsistent b
      → IsConsistent (send_cached_config p waits b cl id)
  unfolding send_cached_config
  send_cached_config-IsConsistent waits b cl id h =
      send_each-IsConsistent (replay_payloads (snapshot b.cache) ++ completion p id) waits b cl h

  pub forward_to_serial-IsConsistent :
      (b : Broker) (t : ToRadio) → IsConsistent b → IsConsistent (forward_to_serial p b t).0
  unfolding forward_to_serial
  forward_to_serial-IsConsistent b t h = elim (Option-cases (p.marshal_to_radio t)) [
    | inl e ↦ rw (e, forward_to_serial) h
    | inr (x, e) ↦ rw (e, forward_to_serial) (write_serial-IsConsistent b x h)
  ]

  pub share_packet-IsConsistent :
      (now : ℕ) (b : Broker) (cl : ℕ) (pkt : Option MeshPacket)
      → IsConsistent b
      → IsConsistent (share_packet p now b cl pkt)
  unfolding share_packet
  share_packet-IsConsistent now b cl pkt h =
      let noted = note_outbound_packet-IsConsistent now b cl pkt h in
      elim (Option-cases (p.marshal_from_radio (FromRadio.packet pkt))) [
        | inl e ↦ rw (e, share_packet) noted
        | inr (x, e) ↦ rw (e, share_packet) (broadcast_except-IsConsistent p _ x (some cl) noted)
      ]

  pub send_packet-IsConsistent :
      (now : ℕ) (b : Broker) (cl : ℕ) (pkt : Option MeshPacket)
      → IsConsistent b
      → IsConsistent (send_packet p now b cl pkt)
  unfolding send_packet
  send_packet-IsConsistent now b cl pkt h =
      let h' = forward_to_serial-IsConsistent b (ToRadio.packet pkt) h in
      elim (Option-cases (forward_to_serial p b (ToRadio.packet pkt)).1) [
        | inl e ↦ rw (e, send_packet) (share_packet-IsConsistent now _ cl pkt h')
        | inr (x, e) ↦ rw (e, send_packet) (fail-IsConsistent _ (some x) h')
      ]
