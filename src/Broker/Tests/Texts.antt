-- ===== src/Broker/Tests/Texts.antt =====
-- internal/broker/chat.go: text messages on the broker with two clients.
use go_meshtastic_serial2tcp.Prelude.{◌≡◌, refl, some, [], ◌∷◌}
use go_meshtastic_serial2tcp.Prelude.Keys.{pos, nat_key}
use go_meshtastic_serial2tcp.Prelude.Text.{trim_space}
use go_meshtastic_serial2tcp.Meshtastic.Toy.{toy}
use go_meshtastic_serial2tcp.Frame.{write_frame, write_all}
use go_meshtastic_serial2tcp.Broker.Cache.{update, local_node_num}
use go_meshtastic_serial2tcp.Broker.State.{Broker, new, publish_status, log_decoded_payload}
use go_meshtastic_serial2tcp.Broker.Serial.{forward_to_serial, write_serial}
use go_meshtastic_serial2tcp.Broker.Delivery.{add_client}
use go_meshtastic_serial2tcp.Broker.Chat.{Sent, sent, send_text_message, next_packet_id}
use go_meshtastic_serial2tcp.Broker.Chat.Laws.{IsTextSent, send_text_message-IsTextSent}
use go_meshtastic_serial2tcp.Broker.Tests.{informed}

abbrev told : Broker
told = (send_text_message toy informed (pos 1) 6 (32 ∷ 104 ∷ 105 ∷ []) (some 9)).0

told_eq :
    ◌≡◌ {A = Broker × Sent}
      (send_text_message toy informed (pos 1) 6 (32 ∷ 104 ∷ 105 ∷ []) (some 9))
      (told, sent 9)
unfolding send_text_message add_client publish_status new trim_space local_node_num update toy
    forward_to_serial write_serial write_frame write_all log_decoded_payload next_packet_id
told_eq = refl

told_text : trim_space (32 ∷ 104 ∷ 105 ∷ []) ≡ 104 ∷ 105 ∷ []
unfolding trim_space
told_text = refl

send_text_message-IsTextSent_example :
    IsTextSent toy informed told (pos 1) 6 (trim_space (32 ∷ 104 ∷ 105 ∷ [])) 9
send_text_message-IsTextSent_example =
    send_text_message-IsTextSent toy informed told (pos 1) 6 9 (32 ∷ 104 ∷ 105 ∷ []) (some 9)
      told_eq
