-- ===== src/Webui/Send/Laws.antt =====
-- internal/webui/chat.go, SendChat, on a session of the broker: what the viewer is told is what has
-- been sent.
use go_meshtastic_serial2tcp.Prelude.{ℕ, ◌≡◌, Option}
use go_meshtastic_serial2tcp.Prelude.Keys.{ℤ, Text}
use go_meshtastic_serial2tcp.Prelude.Text.{trim_space}
use go_meshtastic_serial2tcp.Meshtastic.{Codec}
use go_meshtastic_serial2tcp.Meshtastic.Printer.{Printer}
use go_meshtastic_serial2tcp.Broker.State.{Broker, node_num}
use go_meshtastic_serial2tcp.Broker.Chat.Laws.{IsTextSent, SameClients}
use go_meshtastic_serial2tcp.Webui.Hub.{Hub}
use go_meshtastic_serial2tcp.Webui.Chat.{record_chat}
use go_meshtastic_serial2tcp.Webui.Send.{ChatSent, chat_sent, chat_refused, not_connected, panicked}

module _ (q : Printer) (p : Codec) (now : ℕ) (draw fetch_draw : Option ℕ) where
  -- What each result of SendChat says of the broker before and after, and of the hub.
  abbrev pub Tells : Hub → Broker → ℤ → ℕ → Text → Hub → Broker → ChatSent → Type 0
  Tells h b channel to text g b' (chat_sent msg) =
      IsTextSent p b b' channel to msg.text msg.packet_id
      × (msg.text ≡ trim_space text)
      × (msg.from ≡ node_num p b'.cache)
      × (g ≡ record_chat now h msg)
  Tells h b channel to text g b' (chat_refused e) = SameClients b b' × (g ≡ h)
  Tells h b channel to text g b' not_connected = ⊥
  Tells h b channel to text g b' panicked = ⊥
