-- ===== src/Webui/Observer/Invariant.antt =====
-- internal/webui: what stays true of the hub, whatever it observes.
use go_meshtastic_serial2tcp.Prelude.{
  ℕ, Bool, true, false, Option, none, some, [], ◌∷◌, Option-cases, inl, inr, if_cases, is_nil,
}
use go_meshtastic_serial2tcp.Prelude.Keys.{Text, nat_key, int_key}
use go_meshtastic_serial2tcp.Meshtastic.{Codec, MeshPacket, FromRadio, ToRadio}
use go_meshtastic_serial2tcp.Meshtastic.Printer.{Printer}
use go_meshtastic_serial2tcp.Webui.Hub.{Hub, Event}
use go_meshtastic_serial2tcp.Webui.Protos.Laws.{IsRange}
use go_meshtastic_serial2tcp.Webui.Packets.{
  try_record_chat_from_packet, chat_text, received_message,
}
use go_meshtastic_serial2tcp.Webui.Observer.{
  Ambient, radio_event, request_event, touch_sender, try_record_chat_packet, then_record,
  observe_packet, observe_variant, observe_request, observe_from_radio, observe_to_radio,
  observe_payload,
}
use go_meshtastic_serial2tcp.Webui.Observer.Keeps.{
  IsHub, cache_packet_proto-IsHub, record_chat-IsHub, record_event-IsHub, set_local_node_num-IsHub,
  touch_node_activity-IsHub, update_channel-IsHub, update_node_from_info-IsHub,
}

-- A call that ends well keeps `P`.
abbrev pub Holds : (Hub → Type 0) → Option Hub → Type 0
Holds P none = Unit
Holds P (some h) = P h

try_record-IsHub :
    (q : Printer) (now : ℕ) (h : Hub) (pkt : MeshPacket) (local : ℕ)
    → IsHub h
    → IsHub (try_record_chat_from_packet q now h (some pkt) local)
unfolding try_record_chat_from_packet
try_record-IsHub q now h pkt local good =
    if_cases IsHub (is_nil (chat_text pkt)) (λ _. good)
      (λ _. record_chat-IsHub now h (received_message q now h pkt local) good)

try_record_chat_packet-IsHub :
    (q : Printer) (a : Ambient) (h : Hub) (o : Option MeshPacket)
    → IsHub h
    → Holds IsHub (try_record_chat_packet q a h o)
unfolding try_record_chat_packet
try_record_chat_packet-IsHub q a h none good = good
try_record_chat_packet-IsHub q a h (some pkt) good = elim (Option-cases a.local) [
  | inl e ↦ rw (e, try_record_chat_packet) tt
  | inr (local, e) ↦ rw (e, try_record_chat_packet) (try_record-IsHub q a.now h pkt local good)
]

then_record-IsHub :
    (q : Printer) (a : Ambient) (ev : Event) (o : Option Hub)
    → Holds IsHub o
    → Holds IsHub (then_record q a ev o)
then_record-IsHub q a ev none good = tt
then_record-IsHub q a ev (some h) good = record_event-IsHub a.now h ev good

touch_sender-IsHub :
    (q : Printer) (now : ℕ) (h : Hub) (o : Option MeshPacket)
    → IsHub h
    → IsHub (touch_sender q now h o)
touch_sender-IsHub q now h none good = good
touch_sender-IsHub q now h (some pkt) good =
    touch_node_activity-IsHub now h pkt.from pkt.rx_snr now good

module _ (q : Printer) (a : Ambient) (visits : IsRange a.range) where
  observe_packet-IsHub :
      (h : Hub) (ev : Event) (o : Option MeshPacket)
      → IsHub h
      → Holds IsHub (observe_packet q a h ev o)
  unfolding observe_packet
  observe_packet-IsHub h ev o good = then_record-IsHub q a _ _ (
      try_record_chat_packet-IsHub q a _ o
        (cache_packet_proto-IsHub q a.range _ o visits (touch_sender-IsHub q a.now h o good)))

  observe_variant-IsHub :
      (h : Hub) (ev : Event) (frame : FromRadio)
      → IsHub h
      → Holds IsHub (observe_variant q a h ev frame)
  unfolding observe_variant
  observe_variant-IsHub h ev (FromRadio.channel (some ch)) good =
      record_event-IsHub a.now _ _ (update_channel-IsHub a.now h ch.index _ _ good)
  observe_variant-IsHub h ev (FromRadio.packet pkt) good = observe_packet-IsHub h ev pkt good
  observe_variant-IsHub h ev (FromRadio.node_info (some info)) good =
      record_event-IsHub a.now _ _ (update_node_from_info-IsHub q a.now h info good)
  observe_variant-IsHub h ev (FromRadio.my_info (some num)) good =
      record_event-IsHub a.now _ _ (set_local_node_num-IsHub a.now h num good)
  observe_variant-IsHub h ev (FromRadio.channel none) good = record_event-IsHub a.now h _ good
  observe_variant-IsHub h ev (FromRadio.node_info none) good = record_event-IsHub a.now h _ good
  observe_variant-IsHub h ev (FromRadio.my_info none) good = record_event-IsHub a.now h _ good
  observe_variant-IsHub h ev _ good = record_event-IsHub a.now h _ good

  observe_request-IsHub :
      (h : Hub) (ev : Event) (frame : ToRadio)
      → IsHub h
      → Holds IsHub (observe_request q a h ev frame)
  unfolding observe_request
  observe_request-IsHub h ev (ToRadio.packet pkt) good = observe_packet-IsHub h ev pkt good
  observe_request-IsHub h ev _ good = record_event-IsHub a.now h _ good

  observe_from_radio-IsHub :
      (h : Hub) (dir addr : Text) (frame : FromRadio)
      → IsHub h
      → Holds IsHub (observe_from_radio q a h dir addr frame)
  unfolding observe_from_radio
  observe_from_radio-IsHub h dir addr frame good =
      observe_variant-IsHub h (radio_event q dir addr frame) frame good

  observe_to_radio-IsHub :
      (h : Hub) (dir addr : Text) (frame : ToRadio)
      → IsHub h
      → Holds IsHub (observe_to_radio q a h dir addr frame)
  unfolding observe_to_radio
  observe_to_radio-IsHub h dir addr frame good =
      observe_request-IsHub h (request_event q dir addr frame) frame good

  pub observe_payload-IsHub :
      (p : Codec) (h : Hub) (dir addr payload : Text) (from_radio : Bool)
      → IsHub h
      → Holds IsHub (observe_payload q p a h dir addr payload from_radio)
  unfolding observe_payload
  observe_payload-IsHub p h dir addr [] from_radio good = good
  observe_payload-IsHub p h dir addr (c ∷ payload) true good =
      elim (Option-cases (p.unmarshal_from_radio (c ∷ payload))) [
        | inl e ↦ rw (e, observe_payload) good
        | inr (frame, e) ↦ rw (e, observe_payload) (observe_from_radio-IsHub h dir addr frame good)
      ]
  observe_payload-IsHub p h dir addr (c ∷ payload) false good =
      elim (Option-cases (p.unmarshal_to_radio (c ∷ payload))) [
        | inl e ↦ rw (e, observe_payload) good
        | inr (frame, e) ↦ rw (e, observe_payload) (observe_to_radio-IsHub h dir addr frame good)
      ]
