-- ===== src/Broker/Tests.antt =====
-- A broker of internal/broker/broker.go with two clients, for runs on concrete data.
mod Cycle
mod Requests
mod Packets
mod Texts
mod Fetches
use go_meshtastic_serial2tcp.Prelude.{
  ℕ, ◌≡◌, ◌≤◌, refl, true, false, Option, none, some, [], ◌∷◌, length, arith,
}
use go_meshtastic_serial2tcp.Prelude.Assoc.{get, delete_if}
use go_meshtastic_serial2tcp.Frame.{Writer, write_frame, write_all}
use go_meshtastic_serial2tcp.Meshtastic.{FromRadio}
use go_meshtastic_serial2tcp.Meshtastic.Toy.{toy}
use go_meshtastic_serial2tcp.Broker.Cache.{new_config_cache, ready, update}
use go_meshtastic_serial2tcp.Broker.Client.{Client, client_send_buffer}
use go_meshtastic_serial2tcp.Broker.State.{Broker, new, publish_status}
use go_meshtastic_serial2tcp.Broker.Pending.{reserve_config_request, drop_pending_for_client}
use go_meshtastic_serial2tcp.Broker.Delivery.{add_client}
use go_meshtastic_serial2tcp.Broker.Serial.{write_serial, forward_to_serial}
use go_meshtastic_serial2tcp.Broker.Handle.{Wait, handle_client_payload}
use go_meshtastic_serial2tcp.Broker.Run.{done}

abbrev pub quiet : Writer
quiet = record { sent = []; script = [] }

abbrev pub unused : ℕ → Client
unused x = record {
  conn = quiet;
  send = [];
  done = false;
  addr = [];
  warned_read_only = false;
  warned_slow = false;
}

pub unused_fits : (x : ℕ) → length (unused x).send ≤ client_send_buffer
unused_fits x = omega arith

abbrev pub no_wait : ℕ → Wait
no_wait n = record { rounds = 0; takes = true }

abbrev pub fresh : Broker
fresh = new quiet unused true true

-- Clients 1, the primary, and 2.
abbrev pub one : Broker
one = add_client toy fresh 1 quiet (49 ∷ [])

abbrev pub two : Broker
two = add_client toy one 2 quiet (50 ∷ [])

abbrev pub or_same : Broker → Option Broker → Broker
or_same b none = b
or_same b (some b') = b'

-- Client 2 asks for the config with the id 42, and the broker asks the radio with the id 7.
abbrev pub asked : Broker
asked = or_same two (handle_client_payload toy 0 (7 ∷ []) no_wait two 2 (3 ∷ 42 ∷ []))

pub asked_eq : handle_client_payload toy 0 (7 ∷ []) no_wait two 2 (3 ∷ 42 ∷ []) ≡ some asked
unfolding handle_client_payload add_client new toy forward_to_serial write_serial write_frame
    write_all ready publish_status new_config_cache reserve_config_request get
    drop_pending_for_client delete_if
asked_eq = refl

-- The broker once the radio has sent MyInfo.
abbrev pub informed : Broker
informed = record two { cache = update two.cache (FromRadio.my_info (some 5)) (3 ∷ 5 ∷ []) }
