-- ===== src/Webui/Tests/Observer.antt =====
-- internal/webui/observer.go: a text message on its way.
use go_meshtastic_serial2tcp.Prelude.{
  ◌≡◌, refl, false, true, Option, none, some, List, [], ◌∷◌, arith, is_nil,
}
use go_meshtastic_serial2tcp.Prelude.Keys.{nat_key}
use go_meshtastic_serial2tcp.Prelude.Text.{bytes}
use go_meshtastic_serial2tcp.Meshtastic.{FromRadio}
use go_meshtastic_serial2tcp.Webui.Hub.{Hub, new_hub, record_event}
use go_meshtastic_serial2tcp.Webui.Protos.{cache_packet_proto, proto_json_for_packet, packet_json}
use go_meshtastic_serial2tcp.Webui.Protos.Laws.{
  keys-IsRange, proto_json_for_packet-cache_packet_proto,
}
use go_meshtastic_serial2tcp.Webui.Labels.{marshal_proto_json_full}
use go_meshtastic_serial2tcp.Webui.Chat.{chat_window}
use go_meshtastic_serial2tcp.Webui.Chat.Laws.{ids, is_new}
use go_meshtastic_serial2tcp.Webui.Packets.{chat_text}
use go_meshtastic_serial2tcp.Webui.Observer
use go_meshtastic_serial2tcp.Webui.Observer.{
  packet_summary, observe_from_radio, observe_to_radio, try_record_chat_packet,
}
use go_meshtastic_serial2tcp.Webui.Observer.Events.{
  IsRecorded, category_of, observe_payload-IsRecorded,
}
use go_meshtastic_serial2tcp.Webui.Observer.Once.{
  Sighting, observe, observe_all, observe-observe_all,
}
use go_meshtastic_serial2tcp.Webui.Run.{Run, done, after, observes, records, Run-IsHub}
use go_meshtastic_serial2tcp.Webui.Observer.Keeps.{IsHub}
use go_meshtastic_serial2tcp.Webui.Tests.Data.{plain, texts, calm, text_message, note}

-- What a call leaves, or the new hub.
abbrev or_new : Option Hub → Hub
or_new none = new_hub
or_new (some h) = h

abbrev first : Sighting
first = record {
  ambient = calm;
  direction = bytes "serial -> broker";
  addr = [];
  payload = 5 ∷ [];
  from_radio = true;
}

-- The same message on its way to two clients.
abbrev echoes : List Sighting
echoes =
    record first { direction = bytes "broker -> client"; addr = 97 ∷ [] }
    ∷ record first { direction = bytes "broker -> client"; addr = 98 ∷ [] }
    ∷ []

abbrev seen : Hub
seen = or_new (observe plain texts new_hub first)

abbrev seen_thrice : Hub
seen_thrice = or_new (observe_all plain texts seen echoes)

first_eq : observe plain texts new_hub first ≡ some seen
unfolding Observer.observe_payload observe_from_radio
first_eq = refl

echoes_eq : observe_all plain texts seen echoes ≡ some seen_thrice
unfolding Observer.observe_payload observe_from_radio
echoes_eq = refl

has_text : is_nil (chat_text (text_message 5)) ≡ false
unfolding chat_text
has_text = refl

observe-observe_all_example :
    (is_new chat_window 5 (ids seen.chats) ≡ false) × (ids seen_thrice.chats ≡ ids seen.chats)
observe-observe_all_example =
    observe-observe_all plain texts first echoes (text_message 5) 0 new_hub seen seen_thrice refl
      has_text (omega arith) refl (omega arith)
      ((text_message 5, refl, refl), ((text_message 5, refl, refl), tt)) first_eq echoes_eq

observe_payload-IsRecorded_example :
    IsRecorded 5000000000 new_hub seen
      (bytes "serial -> broker")
      []
      (category_of (FromRadio.packet (some (text_message 5))))
observe_payload-IsRecorded_example =
    observe_payload-IsRecorded plain calm texts new_hub seen (bytes "serial -> broker") [] 5 []
      (FromRadio.packet (some (text_message 5))) refl first_eq

has_json : is_nil (packet_json plain (text_message 5)) ≡ false
unfolding marshal_proto_json_full
has_json = refl

proto_json_for_packet-cache_packet_proto_example :
    proto_json_for_packet plain
      (cache_packet_proto plain calm.range seen (some (text_message 5)))
      (some (text_message 5))
    ≡ packet_json plain (text_message 5)
proto_json_for_packet-cache_packet_proto_example =
    proto_json_for_packet-cache_packet_proto plain calm.range seen (text_message 5) has_json

two_calls : Run plain texts new_hub (record_event 6 seen note)
two_calls =
    after new_hub seen (record_event 6 seen note)
      (observes calm (bytes "serial -> broker") [] (5 ∷ []) true seen keys-IsRange first_eq)
      (after seen (record_event 6 seen note) (record_event 6 seen note) (records 6 note)
        (done (record_event 6 seen note)))

Run-IsHub_example : IsHub (record_event 6 seen note)
Run-IsHub_example = Run-IsHub plain texts two_calls
