-- ===== src/Broker/Tests/Requests.antt =====
-- internal/broker/broker.go: runs of config requests, replays and reboots.
use go_meshtastic_serial2tcp.Prelude.{ℕ, ◌≡◌, refl, true, false, none, some, [], ◌∷◌, arith}
use go_meshtastic_serial2tcp.Prelude.Sorted.{in_key_order, sort}
use go_meshtastic_serial2tcp.Prelude.Keys.{nat_key}
use go_meshtastic_serial2tcp.Prelude.Assoc.{get, put}
use go_meshtastic_serial2tcp.Frame.{write_frame, write_all}
use go_meshtastic_serial2tcp.Meshtastic.Toy.{toy}
use go_meshtastic_serial2tcp.Broker.Cache.{new_config_cache, ready, update, reset, snapshot}
use go_meshtastic_serial2tcp.Broker.Client.{new_client}
use go_meshtastic_serial2tcp.Broker.State.{Broker, new, log_decoded_payload, publish_status}
use go_meshtastic_serial2tcp.Broker.Pending.{reserve_config_request}
use go_meshtastic_serial2tcp.Broker.Delivery.{add_client, write_round, send_to_client}
use go_meshtastic_serial2tcp.Broker.Serial.{write_serial, forward_to_serial}
use go_meshtastic_serial2tcp.Broker.Handle.{Wait}
use go_meshtastic_serial2tcp.Broker.Radio.{handle_config_complete}
use go_meshtastic_serial2tcp.Prelude.Assoc.{values}
use go_meshtastic_serial2tcp.Prelude.{◌++◌, ◌≢◌}
use go_meshtastic_serial2tcp.Meshtastic.{FromRadio}
use go_meshtastic_serial2tcp.Broker.Client.{enqueue_with_timeout}
use go_meshtastic_serial2tcp.Broker.Delivery.{write_rounds}
use go_meshtastic_serial2tcp.Broker.Delivery.Stream.{stream, encode_all}
use go_meshtastic_serial2tcp.Broker.Handle.{
  send_to_client_blocking, send_cached_config, replay_payloads, completion,
}
use go_meshtastic_serial2tcp.Broker.Handle.Replay.{send_cached_config-stream}
use go_meshtastic_serial2tcp.Broker.Pending.Laws.{reserve_config_request_ends}
use go_meshtastic_serial2tcp.Broker.Radio.{handle_rebooted}
use go_meshtastic_serial2tcp.Broker.Radio.Config.{handle_config_complete-reserve}
use go_meshtastic_serial2tcp.Broker.Radio.Reboot.{live, handle_rebooted-pending_config}
use go_meshtastic_serial2tcp.Broker.Tests.{informed, two, or_same}

-- The write loop makes a round during each blocking send.
abbrev one_round : ℕ → Wait
one_round n = record { rounds = 1; takes = true }

abbrev replayed : Broker
replayed = send_cached_config toy one_round informed 2 42

replayed_open : (replayed.heap 2).done ≡ false
unfolding send_cached_config snapshot update send_to_client_blocking enqueue_with_timeout
    write_rounds write_round add_client publish_status new new_client in_key_order sort
    new_config_cache toy log_decoded_payload write_frame write_all
replayed_open = refl

send_cached_config-stream_example :
    ((informed.heap 2).done ≡ false)
    × (stream (replayed.heap 2)
        ≡ stream (informed.heap 2)
          ++ encode_all (replay_payloads (snapshot informed.cache) ++ completion toy 42))
send_cached_config-stream_example =
    send_cached_config-stream toy one_round informed 2 42 replayed_open

-- What the broker stores for the request 42 of client 2 under the id 7.
abbrev reserved : Broker
reserved = record two {
  pending_config = put two.pending_config 7 (record { client = some 2; original_id = 42 });
}

reserved_eq : reserve_config_request (7 ∷ []) two (some 2) 42 ≡ some (7, [], reserved)
unfolding reserve_config_request get add_client publish_status new
reserved_eq = refl

completion_eq : toy.marshal_from_radio (FromRadio.config_complete_id 42) ≡ some (8 ∷ 42 ∷ [])
unfolding toy
completion_eq = refl

handle_config_complete-reserve_example :
    (get two.pending_config 7 ≡ none)
    × (handle_config_complete toy reserved 7 ≡ send_to_client toy two 2 (8 ∷ 42 ∷ []))
handle_config_complete-reserve_example =
    handle_config_complete-reserve toy (7 ∷ []) two reserved 2 42 7 [] (8 ∷ 42 ∷ []) reserved_eq
      completion_eq

reserve_config_request_ends_example :
    reserve_config_request (0 ∷ 7 ∷ 8 ∷ []) reserved (some 1) 42 ≢ none
unfolding put add_client new publish_status
reserve_config_request_ends_example =
    reserve_config_request_ends (0 ∷ 7 ∷ 8 ∷ []) reserved (some 1) 42 (refl, (refl, (refl, tt)))
      (omega arith)

abbrev rebooted : Broker
rebooted = or_same reserved (handle_rebooted toy (8 ∷ []) reserved)

rebooted_eq : handle_rebooted toy (8 ∷ []) reserved ≡ some rebooted
unfolding handle_rebooted put add_client publish_status new new_client reserve_config_request get
    forward_to_serial toy write_serial write_frame write_all log_decoded_payload
rebooted_eq = refl

rebooted_open : rebooted.done ≡ false
unfolding handle_rebooted put add_client publish_status new new_client reserve_config_request get
    forward_to_serial toy write_serial write_frame write_all log_decoded_payload
rebooted_open = refl

handle_rebooted-pending_config_example :
    (values rebooted.pending_config ≡ live reserved.heap (values reserved.pending_config))
    × (rebooted.cache ≡ reset reserved.cache)
    × (ready rebooted.cache ≡ false)
handle_rebooted-pending_config_example =
    handle_rebooted-pending_config toy (8 ∷ []) reserved rebooted rebooted_eq rebooted_open
