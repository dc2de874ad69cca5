-- ===== src/Broker/Canned/Fetch.antt =====
-- internal/broker/canned.go, FetchCannedMessages: up to the select that it ends with, and from the
-- choice of that select on.
pub mod Laws
use go_meshtastic_serial2tcp.Prelude.{
  ℕ, true, false, Option, none, some, List, [], ◌∷◌, if◌then◌else◌,
}
use go_meshtastic_serial2tcp.Prelude.Keys.{Text, nat_key}
use go_meshtastic_serial2tcp.Prelude.Assoc.{get}
use go_meshtastic_serial2tcp.Meshtastic.{
  Codec, MeshPacket, PacketPayload, get_canned_messages_request, ToRadio,
}
use go_meshtastic_serial2tcp.Meshtastic.PortNum
use go_meshtastic_serial2tcp.Broker.Cache.{Bytes, local_node_num}
use go_meshtastic_serial2tcp.Broker.State.{
  Broker, Error, serial_not_ready, node_id_unknown, canned_unavailable, canceled, marshal_failed,
}
use go_meshtastic_serial2tcp.Broker.Serial.{forward_to_serial}
use go_meshtastic_serial2tcp.Broker.Chat.{next_packet_id}
use go_meshtastic_serial2tcp.Broker.Canned.{
  register_canned_wait, unregister_canned_wait, cached_canned,
}

-- How far a fetch has come. A fetch that waits has its packet's id.
pub data Fetch : Type 0 where
  answered : List Text → Fetch
  failed : Error → Fetch
  waiting : ℕ → Fetch

abbrev pub canned_request : ℕ → ℕ → Bytes → MeshPacket
canned_request from id payload = record {
  from = from;
  to = 0;
  channel = 0;
  id = id;
  rx_snr = 0;
  hop_limit = 0;
  want_ack = false;
  payload_variant =
      PacketPayload.decoded
        (some (record { portnum = PortNum.admin_app; payload = payload; want_response = true }));
  other_fields = [];
}

-- A fetch that returns takes its waiter with it.
pub requested : ℕ → Broker × Option Error → Broker × Fetch
requested id (b, none) = (b, waiting id)
requested id (b, some e) = (unregister_canned_wait b id, failed e)

module _ (p : Codec) where
  pub request_canned : Broker → ℕ → ℕ → Broker × Fetch
  unfolding requested
  request_canned b from id =
      let w = register_canned_wait b id in
      elim (p.marshal_admin (get_canned_messages_request true)) [
        | none ↦ (unregister_canned_wait w id, failed marshal_failed)
        | some payload ↦
            requested id
              (forward_to_serial p w (ToRadio.packet (some (canned_request from id payload))))
      ]

  pub fetch_from_radio : Broker → Option ℕ → Broker × Fetch
  unfolding request_canned
  fetch_from_radio b draw =
      if b.done then (b, failed serial_not_ready) else elim (local_node_num p b.cache) [
        | none ↦ (b, failed node_id_unknown)
        | some from ↦ request_canned b from (next_packet_id draw)
      ]

  pub fetch_cached : Option ℕ → Broker × List Text → Broker × Fetch
  unfolding fetch_from_radio
  fetch_cached draw (b, []) = fetch_from_radio b draw
  fetch_cached draw (b, m ∷ ms) = (b, answered (m ∷ ms))

  unfoldable pub begin_fetch : ℕ → Broker → Option ℕ → Broker × Fetch
  unfolding fetch_cached
  begin_fetch now b draw = fetch_cached draw (cached_canned now b)

-- The cases of the select.
pub data Wakes : Type 0 where
  context_done broker_done timed_out delivered : Wakes

abbrev pub received : List Text → Fetch
received [] = failed canned_unavailable
received (m ∷ ms) = answered (m ∷ ms)

-- The waiter's channel can be received from once a message is on it. The waiter is found by its id,
-- as if no other fetch drew the same one meanwhile.
pub take_delivered : Broker → ℕ → Option (Option (List Text)) → Broker × Fetch
take_delivered b id (some (some msgs)) = (unregister_canned_wait b id, received msgs)
take_delivered b id _ = (b, waiting id)

pub finish_fetch : Broker → ℕ → Wakes → Broker × Fetch
unfolding take_delivered
finish_fetch b id context_done = (unregister_canned_wait b id, failed canceled)
finish_fetch b id broker_done = (unregister_canned_wait b id, failed serial_not_ready)
finish_fetch b id timed_out = (unregister_canned_wait b id, failed canned_unavailable)
finish_fetch b id delivered = take_delivered b id (get b.canned_waiters id)
