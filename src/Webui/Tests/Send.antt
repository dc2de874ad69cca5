-- ===== src/Webui/Tests/Send.antt =====
-- internal/webui/chat.go, SendChat: a message on a session with one client.
use go_meshtastic_serial2tcp.Prelude.{true, some, [], ◌∷◌}
use go_meshtastic_serial2tcp.Prelude.Keys.{pos}
use go_meshtastic_serial2tcp.Frame.{Writer}
use go_meshtastic_serial2tcp.Meshtastic.{FromRadio}
use go_meshtastic_serial2tcp.Broker.Client.{new_client}
use go_meshtastic_serial2tcp.Broker.Cache.{update}
use go_meshtastic_serial2tcp.Broker.State.{Broker, new}
use go_meshtastic_serial2tcp.Broker.Delivery.{add_client}
use go_meshtastic_serial2tcp.Meshtastic.Toy.{toy}
use go_meshtastic_serial2tcp.Webui.Hub.{Hub, new_hub}
use go_meshtastic_serial2tcp.Webui.Radio.{active, broker_radio}
use go_meshtastic_serial2tcp.Webui.Send.{ChatSent, send_chat}
use go_meshtastic_serial2tcp.Webui.Tests.Data.{plain}

abbrev line : Writer
line = record { sent = []; script = [] }

-- A client is there, and the radio has sent MyInfo.
abbrev session : Broker
session =
    let joined = add_client toy (new line (λ i. new_client line []) true true) 1 line (49 ∷ []) in
    record joined { cache = update joined.cache (FromRadio.my_info (some 5)) (3 ∷ 5 ∷ []) }

abbrev result : Hub × Broker × ChatSent
result =
    send_chat plain (active (broker_radio toy 5 (some 9) (some 11))) 5 new_hub session (pos 1) 6
      (32 ∷ 104 ∷ 105 ∷ [])
