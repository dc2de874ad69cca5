-- ===== src/Broker/Handle.antt =====
-- internal/broker/broker.go: what a client's payload makes the broker do.
pub mod Steps
pub mod Invariant
pub mod ReadOnly
pub mod Replay
use go_meshtastic_serial2tcp.Prelude.{
  ℕ, suc, Bool, true, false, ◌||◌, not, Option, none, some, List, [], ◌∷◌, ◌++◌, if◌then◌else◌,
}
use go_meshtastic_serial2tcp.Frame.{ReadResult, payload, invalid, read_error}
use go_meshtastic_serial2tcp.Meshtastic.{Codec, FromRadio, ToRadio, MeshPacket}
use go_meshtastic_serial2tcp.Broker.Cache.{Bytes, CacheSnapshot, snapshot, ready}
use go_meshtastic_serial2tcp.Broker.Client.{enqueue_with_timeout}
use go_meshtastic_serial2tcp.Broker.State.{
  Broker, Error, fail, log_decoded_payload, client_to_broker,
}
use go_meshtastic_serial2tcp.Broker.Pending.{
  is_client, reserve_config_request, drop_pending_for_client,
}
use go_meshtastic_serial2tcp.Broker.Outbound.{note_outbound_packet}
use go_meshtastic_serial2tcp.Broker.Delivery.{
  write_rounds, after_enqueue, remove_client, broadcast_except, warn_read_only_client,
}
use go_meshtastic_serial2tcp.Broker.Serial.{write_serial, forward_to_serial}

-- While a blocking send waits: the rounds that the client's write loop makes, and the choice of the
-- select where the send and a closed channel are both ready.
pub record Wait : Type 0 where
  pub rounds : ℕ
  pub takes : Bool

-- A slice that is sent only if it is not empty.
abbrev pub if_present : Bytes → List Bytes
if_present [] = []
if_present (x ∷ xs) = (x ∷ xs) ∷ []

-- The payloads of sendCachedConfig before the final ConfigCompleteId, in their order.
pub replay_payloads : CacheSnapshot → List Bytes
replay_payloads s =
    if_present s.my_info
    ++ (s.configs
        ++ (s.module_config
            ++ (s.channels ++ (s.node_info ++ (if_present s.metadata ++ if_present s.device_ui)))))

-- fail, where there is an error
abbrev pub fail_on : Broker × Option Error → Broker
fail_on (b, none) = b
fail_on (b, some e) = fail b (some e)

abbrev pub is_primary : Broker → ℕ → Bool
is_primary b cl = is_client cl b.primary

module _ (p : Codec) where
  unfoldable pub send_to_client_blocking : Wait → Broker → ℕ → Bytes → Broker × Bool
  send_to_client_blocking w b cl x =
      let b' = write_rounds p w.rounds b cl in
      after_enqueue p b' cl x (enqueue_with_timeout (b'.heap cl) x b'.done w.takes)

  -- One blocking send after another, until one fails; `waits` says what happens during each.
  pub send_each : (ℕ → Wait) → Broker → ℕ → List Bytes → Broker × Bool
  send_each waits b cl [] = (b, true)
  send_each waits b cl (x ∷ xs) =
      let (b', sent) = send_to_client_blocking (waits 0) b cl x in
      let rest = send_each (λ n. waits (suc n)) b' cl xs in if sent then rest else (b', false)

  -- The final ConfigCompleteId, which is not sent if it does not marshal.
  abbrev pub completion : ℕ → List Bytes
  completion id = elim (p.marshal_from_radio (FromRadio.config_complete_id id)) [
    | none ↦ []
    | some bytes ↦ bytes ∷ []
  ]

  unfoldable pub send_cached_config : (ℕ → Wait) → Broker → ℕ → ℕ → Broker
  unfolding send_each replay_payloads
  send_cached_config waits b cl id =
      (send_each waits b cl (replay_payloads (snapshot b.cache) ++ completion id)).0

  -- WantConfigId before the cache is ready: the request goes to the radio under a fresh id.
  pub request_config : List ℕ → Broker → ℕ → ℕ → Option Broker
  request_config draws b cl original =
      elim (reserve_config_request draws (drop_pending_for_client b cl) (some cl) original) [
        | none ↦ none
        | some (id, rest, b') ↦ some (fail_on (forward_to_serial p b' (ToRadio.want_config_id id)))
      ]

  -- What a forwarded packet is followed by: the note of its origin, and a copy to the others.
  pub share_packet : ℕ → Broker → ℕ → Option MeshPacket → Broker
  share_packet now b cl pkt =
      let noted = note_outbound_packet now b cl pkt in
      elim (p.marshal_from_radio (FromRadio.packet pkt)) [
        | none ↦ noted
        | some bytes ↦ broadcast_except p noted bytes (some cl)
      ]

  pub send_packet : ℕ → Broker → ℕ → Option MeshPacket → Broker
  unfolding share_packet
  send_packet now b cl pkt =
      let (b', e) = forward_to_serial p b (ToRadio.packet pkt) in
      elim e [ none ↦ share_packet now b' cl pkt | some x ↦ fail b' (some x) ]

  -- The primary may always send; another client unless clients are read-only.
  abbrev pub may_send : Broker → ℕ → Bool
  may_send b cl = is_primary b cl || not b.read_only_clients

  pub handle_to_radio : ℕ → List ℕ → (ℕ → Wait) → Broker → ℕ → ToRadio → Option Broker
  unfolding request_config send_packet send_cached_config
  handle_to_radio now draws waits b cl (ToRadio.want_config_id original) =
      if ready b.cache
      then some (send_cached_config waits b cl original)
      else request_config draws b cl original
  handle_to_radio now draws waits b cl (ToRadio.disconnect d) = some (remove_client p b cl)
  handle_to_radio now draws waits b cl (ToRadio.packet pkt) =
      some (if may_send b cl then send_packet now b cl pkt else warn_read_only_client b cl)
  handle_to_radio now draws waits b cl t =
      some (if may_send b cl then fail_on (forward_to_serial p b t) else warn_read_only_client b cl)

  -- A payload that does not unmarshal goes to the radio as it is, if the primary sent it.
  unfoldable pub handle_client_payload :
      ℕ → List ℕ → (ℕ → Wait) → Broker → ℕ → Bytes → Option Broker
  unfolding handle_to_radio
  handle_client_payload now draws waits b cl x = elim (p.unmarshal_to_radio x) [
    | none ↦ some (if is_primary b cl then fail_on (write_serial b x) else b)
    | some t ↦ handle_to_radio now draws waits b cl t
  ]

  -- One round of readLoop: any error of ReadFrame, ErrInvalidFrame included, ends the client.
  unfoldable pub read_round : ℕ → List ℕ → (ℕ → Wait) → Broker → ℕ → ReadResult → Option Broker
  read_round now draws waits b cl (payload x rest) =
      handle_client_payload now draws waits
        (log_decoded_payload b client_to_broker (b.heap cl).addr x false) cl x
  read_round now draws waits b cl (invalid rest) = some (remove_client p b cl)
  read_round now draws waits b cl read_error = some (remove_client p b cl)
