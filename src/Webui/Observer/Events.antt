-- ===== src/Webui/Observer/Events.antt =====
-- internal/webui/observer.go: every payload that is a message is one event.
use go_meshtastic_serial2tcp.Prelude.{
  ℕ, ◌≡◌, refl, sym, ap, ◌∙◌, subst, true, Option, none, some, [], ◌∷◌, take, Option-cases, inl,
  inr, some_inj, if_cases, is_nil, arith,
}
use go_meshtastic_serial2tcp.Prelude.Keys.{ℤ, Text}
use go_meshtastic_serial2tcp.Prelude.Text.{bytes}
use go_meshtastic_serial2tcp.Meshtastic.{Codec, MeshPacket, FromRadio}
use go_meshtastic_serial2tcp.Meshtastic.Printer.{Printer}
use go_meshtastic_serial2tcp.Webui.Hub.{
  Hub, Event, max_events, record_event, complete_event, update_channel,
}
use go_meshtastic_serial2tcp.Webui.Protos.{cache_packet_proto}
use go_meshtastic_serial2tcp.Webui.Packets.{
  chat_text, received_message, try_record_chat_from_packet,
}
use go_meshtastic_serial2tcp.Webui.Observer.{
  Ambient, radio_event, packet_event, in_category, touch_sender, try_record_chat_packet,
  then_record, observe_packet, observe_variant, observe_from_radio, observe_payload,
}
use go_meshtastic_serial2tcp.Webui.Observer.Keeps.{
  cache_packet_proto-same, touch_node_activity-events, set_local_node_num-events,
  update_node_from_info-events, record_chat-events,
}

-- The category under which the web UI files a message of the radio; a channel, node or MyInfo
-- without content has none.
abbrev pub category_of : FromRadio → Text
category_of (FromRadio.packet p) = bytes "packet"
category_of (FromRadio.channel (some ch)) = bytes "channel"
category_of (FromRadio.channel none) = []
category_of (FromRadio.node_info (some n)) = bytes "config"
category_of (FromRadio.node_info none) = []
category_of (FromRadio.my_info (some n)) = bytes "config"
category_of (FromRadio.my_info none) = []
category_of (FromRadio.config c) = bytes "config"
category_of (FromRadio.module_config c) = bytes "config"
category_of (FromRadio.config_complete_id id) = bytes "config"
category_of FromRadio.metadata = bytes "config"
category_of FromRadio.deviceui_config = bytes "config"
category_of _ = bytes "debug"

-- One event more, the newest, and where it comes from.
abbrev pub IsRecorded : ℕ → Hub → Hub → Text → Text → Text → Type 0
IsRecorded now h g dir addr category =
    (ev : Event) × (g.events ≡ take max_events (ev ∷ h.events))
    × (ev.direction ≡ dir)
    × (ev.addr ≡ addr)
    × (ev.category ≡ category)
    × (ev.time ≡ now)

record_event-IsRecorded :
    (now : ℕ) (h h' : Hub) (ev : Event)
    → h'.events ≡ h.events
    → ev.time ≡ 0
    → IsRecorded now h (record_event now h' ev) ev.direction ev.addr ev.category
unfolding record_event
record_event-IsRecorded now h h' ev same zero_time = (
  complete_event now h' ev,
  ap (λ es. take max_events (complete_event now h' ev ∷ es)) same,
  refl,
  refl,
  refl,
  ground arith,
)

update_channel-events :
    (now : ℕ) (h : Hub) (i : ℤ) (name role : Text)
    → (update_channel now h i name role).events ≡ h.events
unfolding update_channel
update_channel-events now h i name role = refl

touch_sender-events :
    (q : Printer) (now : ℕ) (h : Hub) (o : Option MeshPacket)
    → (touch_sender q now h o).events ≡ h.events
touch_sender-events q now h none = refl
touch_sender-events q now h (some pkt) = touch_node_activity-events now h pkt.from pkt.rx_snr now

cache_packet_proto-events :
    (q : Printer) (a : Ambient) (h : Hub) (o : Option MeshPacket)
    → (cache_packet_proto q a.range h o).events ≡ h.events
cache_packet_proto-events q a h none = unfold cache_packet_proto in refl
cache_packet_proto-events q a h (some pkt) = (cache_packet_proto-same q a.range h pkt).0

try_record-events :
    (q : Printer) (now : ℕ) (h : Hub) (pkt : MeshPacket) (local : ℕ)
    → (try_record_chat_from_packet q now h (some pkt) local).events ≡ h.events
unfolding try_record_chat_from_packet
try_record-events q now h pkt local =
    if_cases (λ (x : Hub). x.events ≡ h.events) (is_nil (chat_text pkt)) (λ _. refl)
      (λ _. record_chat-events now h (received_message q now h pkt local))

module _ (q : Printer) (a : Ambient) where
  try_packet-events :
      (h g : Hub) (o : Option MeshPacket)
      → try_record_chat_packet q a h o ≡ some g
      → g.events ≡ h.events
  unfolding try_record_chat_packet
  try_packet-events h g none e = ap (λ (x : Hub). x.events) (sym (some_inj e))
  try_packet-events h g (some pkt) e = elim (Option-cases a.local) [
    | inl n ↦ absurd (never (rw (n, try_record_chat_packet) at e))
    | inr (local, l) ↦
        ap (λ (x : Hub). x.events) (sym (some_inj (rw (l, try_record_chat_packet) at e)))
        ∙ try_record-events q a.now h pkt local
  ]
    where
      never : ◌≡◌ {A = Option Hub} none (some g) → ⊥
      never k = cc

  then_record-IsRecorded :
      (h g : Hub) (ev : Event) (o : Option Hub)
      → ((x : Hub) → o ≡ some x → x.events ≡ h.events)
      → ev.time ≡ 0
      → then_record q a ev o ≡ some g
      → IsRecorded a.now h g ev.direction ev.addr ev.category
  then_record-IsRecorded h g ev none same z e = absurd cc
  then_record-IsRecorded h g ev (some x) same z e =
      subst (λ r. IsRecorded a.now h r ev.direction ev.addr ev.category) (some_inj e)
        (record_event-IsRecorded a.now h x ev (same x refl) z)

  packet_event-same :
      (h : Hub) (ev : Event) (o : Option MeshPacket)
      → ((packet_event q h ev o).time ≡ ev.time)
        × ((packet_event q h ev o).direction ≡ ev.direction)
        × ((packet_event q h ev o).addr ≡ ev.addr)
        × ((packet_event q h ev o).category ≡ ev.category)
  packet_event-same h ev none = (refl, refl, refl, refl)
  packet_event-same h ev (some pkt) = (refl, refl, refl, refl)

  observe_packet-IsRecorded :
      (h g : Hub) (ev : Event) (o : Option MeshPacket)
      → ev.time ≡ 0
      → observe_packet q a h ev o ≡ some g
      → IsRecorded a.now h g ev.direction ev.addr (bytes "packet")
  unfolding observe_packet
  observe_packet-IsRecorded h g ev o z e =
      let pe = packet_event q h (in_category (bytes "packet") ev) o in
      let (time, dir, addr, category) = packet_event-same h (in_category (bytes "packet") ev) o in
      let (x, events, d, ad, c, t) =
        then_record-IsRecorded h g pe _
          (λ x k.
            try_packet-events _ x o k
            ∙ cache_packet_proto-events q a (touch_sender q a.now h o) o
            ∙ touch_sender-events q a.now h o)
          (time ∙ z) e in
      (x, events, d ∙ dir, ad ∙ addr, c ∙ category, t)

  filed :
      (h g h' : Hub) (ev : Event)
      → h'.events ≡ h.events
      → ev.time ≡ 0
      → some (record_event a.now h' ev) ≡ some g
      → IsRecorded a.now h g ev.direction ev.addr ev.category
  filed h g h' ev same z e =
      subst (λ r. IsRecorded a.now h r ev.direction ev.addr ev.category) (some_inj e)
        (record_event-IsRecorded a.now h h' ev same z)

  observe_variant-IsRecorded :
      (h g : Hub) (ev : Event) (frame : FromRadio)
      → ev.time ≡ 0
      → observe_variant q a h ev frame ≡ some g
      → IsRecorded a.now h g ev.direction ev.addr (category_of frame)
  unfolding observe_variant
  observe_variant-IsRecorded h g ev (FromRadio.packet pkt) z e =
      observe_packet-IsRecorded h g ev pkt z e
  observe_variant-IsRecorded h g ev (FromRadio.channel (some ch)) z e =
      filed h g _ _ (update_channel-events a.now h ch.index _ _) z e
  observe_variant-IsRecorded h g ev (FromRadio.node_info (some info)) z e =
      filed h g _ _ (update_node_from_info-events q a.now h info) z e
  observe_variant-IsRecorded h g ev (FromRadio.my_info (some num)) z e =
      filed h g _ _ (set_local_node_num-events a.now h num) z e
  observe_variant-IsRecorded h g ev (FromRadio.channel none) z e = filed h g _ _ refl z e
  observe_variant-IsRecorded h g ev (FromRadio.node_info none) z e = filed h g _ _ refl z e
  observe_variant-IsRecorded h g ev (FromRadio.my_info none) z e = filed h g _ _ refl z e
  observe_variant-IsRecorded h g ev _ z e = filed h g _ _ refl z e

  -- A payload of the radio that is a message is observed, and the call does not panic: the hub has
  -- one event more than before, its newest, less the oldest if there were 1000. It has the
  -- direction and the address that the broker gave, the time of the call, and the category of the
  -- message: packet, channel, config, debug, or none for a message without its content.
  pub observe_payload-IsRecorded :
      (p : Codec) (h g : Hub) (dir addr : Text) (c : ℕ) (payload : Text) (frame : FromRadio)
      → p.unmarshal_from_radio (c ∷ payload) ≡ some frame
      → observe_payload q p a h dir addr (c ∷ payload) true ≡ some g
      → IsRecorded a.now h g dir addr (category_of frame)
  unfolding observe_payload observe_from_radio
  observe_payload-IsRecorded p h g dir addr c payload frame k e =
      observe_variant-IsRecorded h g (radio_event q dir addr frame) frame refl
        (rw (k, observe_payload) at e)
