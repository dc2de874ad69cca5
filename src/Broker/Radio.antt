-- ===== src/Broker/Radio.antt =====
-- internal/broker/broker.go: what a frame from the radio makes the broker do.
pub mod Config
pub mod Reboot
pub mod Echo
pub mod Steps
pub mod Invariant
use go_meshtastic_serial2tcp.Prelude.{
  ℕ, Bool, true, false, Option, none, some, List, [], ◌∷◌, if◌then◌else◌,
}
use go_meshtastic_serial2tcp.Prelude.Assoc.{Assoc}
use go_meshtastic_serial2tcp.Frame.{ReadResult, payload, invalid, read_error}
use go_meshtastic_serial2tcp.Meshtastic.{Codec, FromRadio, ToRadio, MeshPacket}
use go_meshtastic_serial2tcp.Broker.Cache.{Bytes, update, reset, ready}
use go_meshtastic_serial2tcp.Broker.State.{
  Broker, ConfigRequest, serial_closed, fail, log_decoded_payload, serial_to_broker, publish_status,
}
use go_meshtastic_serial2tcp.Broker.Pending.{reserve_config_request, take_config_request}
use go_meshtastic_serial2tcp.Broker.Outbound.{
  consume_outbound_origin, packet_suppresses_origin_echo,
}
use go_meshtastic_serial2tcp.Broker.Delivery.{send_to_client, broadcast}
use go_meshtastic_serial2tcp.Broker.Serial.{forward_to_serial}
use go_meshtastic_serial2tcp.Broker.Canned.{try_deliver_canned}

-- The request of a client that has gone.
abbrev pub is_stale : Broker → ConfigRequest → Bool
is_stale b req = elim req.client [ none ↦ false | some cl ↦ (b.heap cl).done ]

-- brokerBootstrapConfigID
abbrev pub bootstrap_config_id : ℕ
bootstrap_config_id = 1

abbrev pub has_bootstrap : Assoc ℕ ConfigRequest → Bool
has_bootstrap [] = false
has_bootstrap ((id, req) ∷ m) = elim req.client [ none ↦ true | some cl ↦ has_bootstrap m ]

module _ (p : Codec) where
  -- The loop of handleRebooted over the requests that were pending; it ends at an error of the
  -- serial line.
  pub reissue : List ℕ → Broker → Assoc ℕ ConfigRequest → Option Broker
  reissue draws b [] = some b
  reissue draws b ((id, req) ∷ old) = elim (is_stale b req) [
    | true ↦ reissue draws b old
    | false ↦ elim (reserve_config_request draws b req.client req.original_id) [
      | none ↦ none
      | some (new_id, rest, reserved) ↦
          let (b', e) = forward_to_serial p reserved (ToRadio.want_config_id new_id) in
          elim e [ none ↦ reissue rest b' old | some x ↦ some (fail b' (some x)) ]
    ]
  ]

  unfoldable pub handle_rebooted : List ℕ → Broker → Option Broker
  unfolding reissue
  handle_rebooted draws b =
      reissue draws (record b { cache = reset b.cache; pending_config = [] }) b.pending_config

  -- The answer to the client of a request, under the id that it asked with.
  pub answer : Broker → ConfigRequest → Broker
  answer b req = elim req.client [
    | none ↦ publish_status p b
    | some cl ↦ elim (p.marshal_from_radio (FromRadio.config_complete_id req.original_id)) [
      | none ↦ b
      | some response ↦ send_to_client p b cl response
    ]
  ]

  -- A ConfigCompleteId that no request waits for is dropped.
  abbrev pub answer_taken : Broker × Option ConfigRequest → Broker
  answer_taken (b, none) = b
  answer_taken (b, some req) = answer b req

  pub handle_config_complete : Broker → ℕ → Broker
  unfolding answer
  handle_config_complete b id = answer_taken (take_config_request b id)

  -- The echo of a client's packet goes back to that client, or to nobody; any other packet to all.
  pub deliver_by_origin : MeshPacket → Bytes → Broker × Option ℕ → Broker
  deliver_by_origin pkt x (b, none) = broadcast p b x
  deliver_by_origin pkt x (b, some cl) =
      if packet_suppresses_origin_echo pkt then b else send_to_client p b cl x

  -- A packet that answers a fetch of the canned messages goes no further.
  pub deliver_untaken : ℕ → MeshPacket → Bytes → Broker × Bool → Broker
  unfolding deliver_by_origin
  deliver_untaken now pkt x (b, true) = b
  deliver_untaken now pkt x (b, false) = deliver_by_origin pkt x (consume_outbound_origin now b pkt)

  pub deliver_packet : ℕ → Broker → MeshPacket → Bytes → Broker
  unfolding deliver_untaken
  deliver_packet now b pkt x = deliver_untaken now pkt x (try_deliver_canned p now b pkt)

  -- routeFromRadio, and what follows where it returns false
  pub route_from_radio : ℕ → List ℕ → Broker → FromRadio → Bytes → Option Broker
  unfolding handle_config_complete deliver_packet
  route_from_radio now draws b (FromRadio.config_complete_id id) x =
      some (handle_config_complete b id)
  route_from_radio now draws b (FromRadio.rebooted r) x = handle_rebooted draws b
  route_from_radio now draws b (FromRadio.packet (some pkt)) x = some (deliver_packet now b pkt x)
  route_from_radio now draws b frame x = some (broadcast p b x)

  -- One payload that readSerial read. What does not unmarshal is dropped.
  unfoldable pub handle_serial_payload : ℕ → List ℕ → Broker → Bytes → Option Broker
  unfolding route_from_radio
  handle_serial_payload now draws b x =
      let seen = log_decoded_payload b serial_to_broker [] x true in
      elim (p.unmarshal_from_radio x) [
        | none ↦ some seen
        | some frame ↦
            route_from_radio now draws (record seen { cache = update seen.cache frame x }) frame x
      ]

  -- One round of readSerial: a frame that is not valid is skipped; any other error ends the loop,
  -- and Run, which waits for it, fails.
  unfoldable pub serial_round : ℕ → List ℕ → Broker → ReadResult → Option Broker
  unfolding handle_serial_payload
  serial_round now draws b (payload x rest) =
      let handled = handle_serial_payload now draws b x in if b.done then some b else handled
  serial_round now draws b (invalid rest) = some b
  serial_round now draws b read_error = some (if b.done then b else fail b (some serial_closed))

  pub bootstrap_config : List ℕ → Broker → Option Broker
  bootstrap_config draws b = elim b.observability [
    | none ↦ some b
    | some calls ↦ elim (ready b.cache) [
      | true ↦ some b
      | false ↦ elim (has_bootstrap b.pending_config) [
        | true ↦ some b
        | false ↦ elim (reserve_config_request draws b none bootstrap_config_id) [
          | none ↦ none
          | some (id, rest, reserved) ↦
              let (b', e) = forward_to_serial p reserved (ToRadio.want_config_id id) in
              some (elim e [ none ↦ b' | some x ↦ fail b' (some x) ])
        ]
      ]
    ]
  ]
