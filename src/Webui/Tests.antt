-- ===== src/Webui/Tests.antt =====
-- internal/webui: a message that comes twice.
mod Data
mod Nodes
mod Observer
mod Stream
mod Send
mod Http
mod Replay
use go_meshtastic_serial2tcp.Prelude.{◌≡◌, refl, false, [], ◌∷◌, arith}
use go_meshtastic_serial2tcp.Prelude.Keys.{pos, nat_key}
use go_meshtastic_serial2tcp.Webui.Hub.{ChatMessage, new_hub}
use go_meshtastic_serial2tcp.Webui.Chat.{record_chat, chat_window}
use go_meshtastic_serial2tcp.Webui.Chat.Laws.{ids, is_new}
use go_meshtastic_serial2tcp.Webui.Chat.Repeat.{record_chat-again}

abbrev hello : ChatMessage
hello = record {
  time = 5;
  text = 104 ∷ [];
  from = 3;
  to = 4;
  channel = pos 1;
  channel_name = [];
  outgoing = false;
  packet_id = 9;
  proto_json = [];
}

record_chat-again_example :
    (is_new chat_window 9 (ids (record_chat 5 new_hub hello).chats) ≡ false)
    × (ids (record_chat 6 (record_chat 5 new_hub hello) (record hello { text = [] })).chats
        ≡ ids (record_chat 5 new_hub hello).chats)
record_chat-again_example =
    record_chat-again 5 6 new_hub hello (record hello { text = [] }) refl (omega arith) refl
