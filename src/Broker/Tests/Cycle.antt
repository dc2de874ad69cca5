-- ===== src/Broker/Tests/Cycle.antt =====
-- internal/broker/broker.go: two clients connect, one asks for the config, the radio completes it.
use go_meshtastic_serial2tcp.Prelude.{◌≡◌, refl, [], ◌∷◌}
use go_meshtastic_serial2tcp.Prelude.Assoc.{get, put, delete_if}
use go_meshtastic_serial2tcp.Frame.{write_frame, write_all, payload}
use go_meshtastic_serial2tcp.Meshtastic.Toy.{toy}
use go_meshtastic_serial2tcp.Broker.Cache.{new_config_cache, ready}
use go_meshtastic_serial2tcp.Broker.Client.{new_client, enqueue}
use go_meshtastic_serial2tcp.Broker.State.{Broker, new, log_decoded_payload, publish_status}
use go_meshtastic_serial2tcp.Broker.Pending.{
  reserve_config_request, drop_pending_for_client, take_config_request,
}
use go_meshtastic_serial2tcp.Broker.Delivery.{add_client, send_to_client}
use go_meshtastic_serial2tcp.Broker.Serial.{write_serial, forward_to_serial}
use go_meshtastic_serial2tcp.Broker.Handle.{handle_client_payload, read_round}
use go_meshtastic_serial2tcp.Broker.Radio.{serial_round, handle_serial_payload}
use go_meshtastic_serial2tcp.Broker.Tests.{no_wait, two, or_same}

-- The same, read off the connection.
abbrev asked_round : Broker
asked_round = or_same two (read_round toy 0 (7 ∷ []) no_wait two 2 (payload (3 ∷ 42 ∷ []) []))

-- The radio completes the request 7.
abbrev completed : Broker
completed = or_same asked_round (serial_round toy 0 [] asked_round (payload (8 ∷ 7 ∷ []) []))

completed_send : (completed.heap 2).send ≡ (8 ∷ 42 ∷ []) ∷ []
unfolding handle_serial_payload read_round handle_client_payload add_client new toy
    forward_to_serial write_serial write_frame write_all ready publish_status new_config_cache
    reserve_config_request get drop_pending_for_client delete_if take_config_request
    log_decoded_payload put send_to_client enqueue new_client serial_round
completed_send = refl
