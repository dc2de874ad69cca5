-- ===== src/Server/Accept/Tests.antt =====
-- internal/server/server.go: two connections, and one after Accept has failed.
use go_meshtastic_serial2tcp.Prelude.{true, false, some, List, [], ◌∷◌}
use go_meshtastic_serial2tcp.Frame.{Writer}
use go_meshtastic_serial2tcp.Meshtastic.Toy.{toy}
use go_meshtastic_serial2tcp.Broker.Client.{new_client}
use go_meshtastic_serial2tcp.Broker.State.{Broker, new}
use go_meshtastic_serial2tcp.Server.Accept.{
  Conn, Arrival, connected, timed_out, broken, arrivals, Serves, accept_loop, accept_loop-Serves,
}

abbrev line : Writer
line = record { sent = []; script = [] }

abbrev session : Broker
session = new line (λ i. new_client line []) true false

abbrev from_host : Conn
from_host = record { client = 1; writer = line; addr = 97 ∷ [] }

abbrev attempts : List Arrival
attempts =
    timed_out false
    ∷ connected from_host
    ∷ connected (record from_host { client = 2 })
    ∷ broken
    ∷ connected (record from_host { client = 3 })
    ∷ []

accept_loop-Serves_example :
    Serves
      (some session)
      (9 ∷ [])
      (arrivals attempts)
      (accept_loop toy (some session) (9 ∷ []) attempts)
accept_loop-Serves_example = accept_loop-Serves toy (some session) (9 ∷ []) attempts
