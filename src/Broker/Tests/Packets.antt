-- ===== src/Broker/Tests/Packets.antt =====
-- internal/broker/broker.go: runs of packets, from clients and from the radio.
use go_meshtastic_serial2tcp.Prelude.{◌≡◌, refl, true, false, none, some, [], ◌∷◌, arith}
use go_meshtastic_serial2tcp.Prelude.Keys.{nat_key}
use go_meshtastic_serial2tcp.Meshtastic.Toy.{toy, packet_on}
use go_meshtastic_serial2tcp.Broker.Cache.{ready, update}
use go_meshtastic_serial2tcp.Broker.State.{Broker, new, publish_status}
use go_meshtastic_serial2tcp.Broker.Delivery.{contains, add_client, send_to_client}
use go_meshtastic_serial2tcp.Broker.Handle.{handle_client_payload}
use go_meshtastic_serial2tcp.Prelude.{All, ◌||◌, ◌+◌, if◌then◌else◌, ltb, inl}
use go_meshtastic_serial2tcp.Prelude.Assoc.{values}
use go_meshtastic_serial2tcp.Meshtastic.PortNum
use go_meshtastic_serial2tcp.Meshtastic.{ToRadio}
use go_meshtastic_serial2tcp.Broker.Outbound.{
  outbound_echo_suppress, note_outbound_packet, packet_suppresses_origin_echo,
}
use go_meshtastic_serial2tcp.Broker.Canned.{extract_canned_from_packet}
use go_meshtastic_serial2tcp.Broker.Delivery.{broadcast}
use go_meshtastic_serial2tcp.Broker.Pending.{is_client}
use go_meshtastic_serial2tcp.Broker.Radio.{deliver_packet}
use go_meshtastic_serial2tcp.Broker.Radio.Echo.{forget, deliver_packet-note}
use go_meshtastic_serial2tcp.Broker.Handle.ReadOnly.{
  handle_client_payload-serial, handle_client_payload-disconnect,
}
use go_meshtastic_serial2tcp.Broker.Tests.{informed, no_wait, two, or_same}

not_canned : extract_canned_from_packet toy (packet_on 9 PortNum.text_message_app) ≡ none
unfolding extract_canned_from_packet toy
not_canned = refl

abbrev noted : Broker
noted = note_outbound_packet 0 two 1 (some (packet_on 9 PortNum.text_message_app))

deliver_packet-note_example :
    deliver_packet toy 5 noted (packet_on 9 PortNum.text_message_app) (2 ∷ 9 ∷ 1 ∷ []) ≡ (
      if ltb (0 + outbound_echo_suppress) 5 || (two.heap 1).done
      then broadcast toy (forget noted 9) (2 ∷ 9 ∷ 1 ∷ [])
      else if packet_suppresses_origin_echo (packet_on 9 PortNum.text_message_app)
      then forget noted 9
      else send_to_client toy (forget noted 9) 1 (2 ∷ 9 ∷ 1 ∷ []))
deliver_packet-note_example =
    deliver_packet-note toy 0 5 two 1 (packet_on 9 PortNum.text_message_app)
      (packet_on 9 PortNum.text_message_app) (2 ∷ 9 ∷ 1 ∷ []) (omega arith) refl not_canned

-- Client 2 is not the primary, and clients are read-only: its packet stays here.
abbrev unsent : Broker
unsent = or_same informed (handle_client_payload toy 5 [] no_wait informed 2 (1 ∷ 9 ∷ 1 ∷ []))

unsent_eq : handle_client_payload toy 5 [] no_wait informed 2 (1 ∷ 9 ∷ 1 ∷ []) ≡ some unsent
unfolding handle_client_payload toy
unsent_eq = refl

informed_ready : ready informed.cache ≡ true
unfolding ready update
informed_ready = refl

second : is_client 2 informed.primary ≡ false
unfolding add_client new publish_status
second = refl

read_only : informed.read_only_clients ≡ true
unfolding add_client new publish_status
read_only = refl

handle_client_payload-serial_example : unsent.serial ≡ informed.serial
handle_client_payload-serial_example =
    handle_client_payload-serial toy 5 [] no_wait informed unsent 2 (1 ∷ 9 ∷ 1 ∷ []) informed_ready
      (inl (second, read_only)) unsent_eq

abbrev left : Broker
left = or_same two (handle_client_payload toy 5 [] no_wait two 1 (4 ∷ []))

left_eq : handle_client_payload toy 5 [] no_wait two 1 (4 ∷ []) ≡ some left
unfolding handle_client_payload toy
left_eq = refl

disconnect_eq : toy.unmarshal_to_radio (4 ∷ []) ≡ some (ToRadio.disconnect true)
unfolding toy
disconnect_eq = refl

handle_client_payload-disconnect_example :
    (left.serial ≡ two.serial)
    × (contains left.clients 1 ≡ false)
    × ((left.heap 1).done ≡ true)
    × All (λ r. is_client 1 r.client ≡ false) (values left.pending_config)
handle_client_payload-disconnect_example =
    handle_client_payload-disconnect toy 5 [] no_wait two left 1 (4 ∷ []) true disconnect_eq left_eq
