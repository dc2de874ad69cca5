-- ===== src/Webui/Chat.antt =====
-- internal/webui/chat.go, RecordChat: the chat, without repetitions of its latest messages. One
-- call runs after the other here; the source looks for repetitions and appends under separate
-- locks.
pub mod Laws
pub mod Repeat
use go_meshtastic_serial2tcp.Prelude.{
  ℕ, zero, suc, ◌+◌, ◌*◌, Bool, false, ◌&&◌, ◌||◌, not, Option, none, some, List, [], ◌∷◌, take,
  if◌then◌else◌, ltb, ◌==◌, is_nil,
}
use go_meshtastic_serial2tcp.Prelude.Keys.{Text, int_eq, text_key, nat_key}
use go_meshtastic_serial2tcp.Prelude.Assoc.{Assoc}
use go_meshtastic_serial2tcp.Prelude.Sorted.{at}
use go_meshtastic_serial2tcp.Webui.Hub.{Hub, ChatMessage, max_chat, name_of, offer_all}

-- How many of the latest messages are compared with a new one.
abbrev pub chat_window : ℕ
chat_window = 8

abbrev pub same_packet : ChatMessage → ChatMessage → Bool
same_packet msg prev = not (msg.packet_id == 0) && prev.packet_id == msg.packet_id

-- The same text on the same channel, sent within two seconds.
abbrev pub sent_twice : ChatMessage → ChatMessage → Bool
sent_twice msg prev =
    prev.outgoing
    && (msg.outgoing
        && (text_key.beq prev.text msg.text
            && (int_eq prev.channel msg.channel && ltb msg.time (prev.time + 2 * 1000000000))))

abbrev pub is_repeat : ChatMessage → ChatMessage → Bool
is_repeat msg prev = same_packet msg prev || sent_twice msg prev

abbrev pub set_proto : ChatMessage → Text → ChatMessage
set_proto prev s = record prev { proto_json = s }

-- The JSON that a repetition, or the packet's entry of the cache, adds to the message that is
-- there.
unfoldable pub merged_proto : Assoc ℕ Text → ChatMessage → ChatMessage → Option Text
merged_proto protos msg prev =
    if is_nil prev.proto_json
    then (if not (is_nil msg.proto_json)
        then some msg.proto_json
        else if not (msg.packet_id == 0) && not (is_nil (at [] protos msg.packet_id))
        then some (at [] protos msg.packet_id)
        else none)
    else none

abbrev pub put_back :
    ChatMessage → Option (List ChatMessage × ChatMessage) → Option (List ChatMessage × ChatMessage)
put_back prev none = none
put_back prev (some (cs, updated)) = some (prev ∷ cs, updated)

abbrev pub replace_first :
    ChatMessage → List ChatMessage → Option Text → Option (List ChatMessage × ChatMessage)
replace_first prev cs none = none
replace_first prev cs (some s) = some (set_proto prev s ∷ cs, set_proto prev s)

-- mergeDuplicateChat, over the latest `n` messages: the chat and the message that was updated.
unfoldable pub merge_duplicate_chat :
    ℕ → Assoc ℕ Text → ChatMessage → List ChatMessage → Option (List ChatMessage × ChatMessage)
merge_duplicate_chat zero protos msg cs = none
merge_duplicate_chat (suc n) protos msg [] = none
merge_duplicate_chat (suc n) protos msg (prev ∷ cs) =
    let later = merge_duplicate_chat n protos msg cs in
    if is_repeat msg prev
    then replace_first prev cs (merged_proto protos msg prev)
    else put_back prev later

unfoldable pub is_duplicate_chat : ℕ → ChatMessage → List ChatMessage → Bool
is_duplicate_chat zero msg cs = false
is_duplicate_chat (suc n) msg [] = false
is_duplicate_chat (suc n) msg (prev ∷ cs) = is_repeat msg prev || is_duplicate_chat n msg cs

abbrev pub notify_chat : Hub → ChatMessage → Hub
notify_chat h msg = record h { chat_subs = offer_all msg h.chat_subs }

-- The time and the name that RecordChat fills in.
unfoldable pub complete_chat : ℕ → Hub → ChatMessage → ChatMessage
complete_chat now h msg = record msg {
  time = if msg.time == 0 then now else msg.time;
  channel_name =
      if is_nil msg.channel_name then name_of h msg.channel msg.channel_name else msg.channel_name;
}

abbrev pub store_chat : Hub → ChatMessage → Hub
store_chat h msg = notify_chat (record h { chats = take max_chat (msg ∷ h.chats) }) msg

abbrev pub unless_merged : Hub → ChatMessage → Option (List ChatMessage × ChatMessage) → Hub
unless_merged h msg (some (cs, updated)) = notify_chat (record h { chats = cs }) updated
unless_merged h msg none = if is_duplicate_chat chat_window msg h.chats then h else store_chat h msg

abbrev pub record_complete : Hub → ChatMessage → Hub
record_complete h msg =
    unless_merged h msg (merge_duplicate_chat chat_window h.packet_protos msg h.chats)

unfoldable pub record_chat : ℕ → Hub → ChatMessage → Hub
record_chat now h msg = record_complete h (complete_chat now h msg)
