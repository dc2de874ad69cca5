-- ===== src/Broker/Tests/Fetches.antt =====
-- internal/broker/canned.go: a fetch on the broker with two clients.
use go_meshtastic_serial2tcp.Prelude.{◌≡◌, refl, some, List, [], ◌∷◌, false, All, arith}
use go_meshtastic_serial2tcp.Prelude.Keys.{Text, nat_key}
use go_meshtastic_serial2tcp.Prelude.Text.{trim_space, split}
use go_meshtastic_serial2tcp.Meshtastic.{MeshPacket, PacketPayload}
use go_meshtastic_serial2tcp.Meshtastic.PortNum
use go_meshtastic_serial2tcp.Meshtastic.Toy.{toy, packet_on}
use go_meshtastic_serial2tcp.Broker.State.{Broker}
use go_meshtastic_serial2tcp.Broker.Canned.{parse_canned_messages}
use go_meshtastic_serial2tcp.Broker.Canned.Laws.{IsMessage, join, parse_canned_messages-join}
use go_meshtastic_serial2tcp.Broker.Canned.Fetch.{Fetch, begin_fetch}
use go_meshtastic_serial2tcp.Broker.Tests.{informed}

-- The messages "a" and "b".
abbrev raw : Text
raw = 97 ∷ 124 ∷ 98 ∷ []

parsed : parse_canned_messages raw ≡ (97 ∷ []) ∷ (98 ∷ []) ∷ []
unfolding parse_canned_messages trim_space split
parsed = refl

abbrev response : MeshPacket
response = record (packet_on 9 PortNum.admin_app) {
  payload_variant =
      PacketPayload.decoded
        (some (record { portnum = PortNum.admin_app; payload = 2 ∷ raw; want_response = false }));
}

abbrev fetching : Broker
fetching = (begin_fetch toy 0 informed (some 9)).0

-- Yes|No
abbrev answers : List Text
answers = (89 ∷ 101 ∷ 115 ∷ []) ∷ (78 ∷ 111 ∷ []) ∷ []

answers-IsMessage : All IsMessage answers
answers-IsMessage = ground arith

parse_canned_messages-join_example : parse_canned_messages (join answers) ≡ answers
parse_canned_messages-join_example = parse_canned_messages-join answers answers-IsMessage
