-- ===== src/Broker/Radio/Steps.antt =====
-- internal/broker/broker.go: the delivery of a packet and the end of a config request keep the
-- broker consistent.
use go_meshtastic_serial2tcp.Prelude.{
  ℕ, refl, Bool, true, false, Option, none, some, [], arith, Option-cases, if_cases, inl, inr, ◌==◌,
}
use go_meshtastic_serial2tcp.Prelude.Keys.{nat_key}
use go_meshtastic_serial2tcp.Prelude.Assoc.{get}
use go_meshtastic_serial2tcp.Meshtastic.{Codec, FromRadio, MeshPacket}
use go_meshtastic_serial2tcp.Broker.Cache.{Bytes, update, reset}
use go_meshtastic_serial2tcp.Broker.State.{Broker, publish_status}
use go_meshtastic_serial2tcp.Broker.Pending.{take_config_request}
use go_meshtastic_serial2tcp.Broker.Outbound.{
  consume_outbound_origin, packet_suppresses_origin_echo,
}
use go_meshtastic_serial2tcp.Broker.Delivery.{broadcast}
use go_meshtastic_serial2tcp.Broker.Delivery.Invariant.{
  IsConsistent, Registered, same-IsConsistent, tell-IsConsistent, send_to_client-IsConsistent,
  broadcast_except-IsConsistent,
}
use go_meshtastic_serial2tcp.Broker.Delivery.Requests.{put_request-IsConsistent, taken-IsConsistent}
use go_meshtastic_serial2tcp.Broker.Canned.{
  extract_canned_from_packet, try_deliver_canned, store_canned_cache,
}
use go_meshtastic_serial2tcp.Broker.Radio.Config.{IsReserved}
use go_meshtastic_serial2tcp.Broker.Radio.{
  answer, handle_config_complete, deliver_by_origin, deliver_untaken, deliver_packet,
}

pub reserved-IsConsistent :
    (b b' : Broker) (client : Option ℕ) (original id : ℕ)
    → IsReserved b b' client original id
    → Registered b.clients client
    → IsConsistent b
    → IsConsistent b'
reserved-IsConsistent b b' client original id r here h =
    rw r.result (put_request-IsConsistent b client id original r.nonzero here h)

-- Changes of the fields that the invariant does not read.
pub cache-IsConsistent :
    (b : Broker) (f : FromRadio) (x : Bytes)
    → IsConsistent b
    → IsConsistent (record b { cache = update b.cache f x })
cache-IsConsistent b f x h = same-IsConsistent b _ refl refl refl refl h

pub reset-IsConsistent :
    (b : Broker)
    → IsConsistent b
    → IsConsistent (record b { cache = reset b.cache; pending_config = [] })
unfolding get
reset-IsConsistent b h = record {
  distinct = h.distinct;
  owner = h.owner;
  is_open = h.is_open;
  pending_map = tt;
  pending = λ j r e. absurd (ground arith);
  buffers = h.buffers;
}

consume-IsConsistent :
    (now : ℕ) (b : Broker) (pkt : MeshPacket)
    → IsConsistent b
    → IsConsistent (consume_outbound_origin now b pkt).0
unfolding consume_outbound_origin
consume-IsConsistent now b pkt h =
    if_cases {A = Broker × Option ℕ} (λ r. IsConsistent r.0) (pkt.id == 0) (λ _. h)
      λ _. elim (Option-cases (get b.outbound_by_packet pkt.id)) [
        | inl e ↦ rw (e, consume_outbound_origin) h
        | inr (o, e) ↦ rw (e, consume_outbound_origin) (same-IsConsistent b _ refl refl refl refl h)
      ]

module _ (p : Codec) where
  tried-IsConsistent :
      (now : ℕ) (b : Broker) (pkt : MeshPacket)
      → IsConsistent b
      → IsConsistent (try_deliver_canned p now b pkt).0
  unfolding try_deliver_canned store_canned_cache
  tried-IsConsistent now b pkt h = elim (Option-cases (extract_canned_from_packet p pkt)) [
    | inl e ↦ rw (e, try_deliver_canned) h
    | inr (raw, e) ↦ elim (Option-cases (get b.canned_waiters pkt.id)) [
      | inl q ↦ rw (e, q, try_deliver_canned) h
      | inr (ch, q) ↦ rw (e, q, try_deliver_canned) (same-IsConsistent b _ refl refl refl refl h)
    ]
  ]

  by_origin-IsConsistent :
      (pkt : MeshPacket) (x : Bytes) (r : Broker × Option ℕ)
      → IsConsistent r.0
      → IsConsistent (deliver_by_origin p pkt x r)
  unfolding deliver_by_origin broadcast
  by_origin-IsConsistent pkt x (b, none) h = broadcast_except-IsConsistent p b x none h
  by_origin-IsConsistent pkt x (b, some cl) h =
      if_cases IsConsistent (packet_suppresses_origin_echo pkt) (λ _. h)
        (λ _. send_to_client-IsConsistent p b cl x h)

  untaken-IsConsistent :
      (now : ℕ) (pkt : MeshPacket) (x : Bytes) (r : Broker × Bool)
      → IsConsistent r.0
      → IsConsistent (deliver_untaken p now pkt x r)
  unfolding deliver_untaken
  untaken-IsConsistent now pkt x (b, true) h = h
  untaken-IsConsistent now pkt x (b, false) h =
      by_origin-IsConsistent pkt x _ (consume-IsConsistent now b pkt h)

  pub deliver_packet-IsConsistent :
      (now : ℕ) (b : Broker) (pkt : MeshPacket) (x : Bytes)
      → IsConsistent b
      → IsConsistent (deliver_packet p now b pkt x)
  unfolding deliver_packet
  deliver_packet-IsConsistent now b pkt x h =
      untaken-IsConsistent now pkt x _ (tried-IsConsistent now b pkt h)

  answer-IsConsistent :
      (b : Broker) (client : Option ℕ) (original : ℕ)
      → IsConsistent b
      → IsConsistent (answer p b (record { client = client; original_id = original }))
  unfolding answer publish_status
  answer-IsConsistent b none original h = tell-IsConsistent b _ h
  answer-IsConsistent b (some cl) original h =
      elim (Option-cases (p.marshal_from_radio (FromRadio.config_complete_id original))) [
        | inl e ↦ rw (e, answer) h
        | inr (x, e) ↦ rw (e, answer) (send_to_client-IsConsistent p b cl x h)
      ]

  pub complete-IsConsistent :
      (b : Broker) (id : ℕ) → IsConsistent b → IsConsistent (handle_config_complete p b id)
  unfolding handle_config_complete take_config_request
  complete-IsConsistent b id h = elim (Option-cases (get b.pending_config id)) [
    | inl e ↦ rw (e, handle_config_complete, take_config_request) h
    | inr (r, e) ↦
        rw (e, handle_config_complete, take_config_request)
          (answer-IsConsistent _ r.client r.original_id (taken-IsConsistent b id h))
  ]
