-- ===== src/Webui/Observer/Once.antt =====
-- internal/webui: a text message that passes the bridge several times is one message of the chat.
use go_meshtastic_serial2tcp.Prelude.{
  ℕ, ◌≡◌, ◌≢◌, refl, sym, ap, ◌∙◌, subst, Bool, true, false, Option, none, some, List, [], ◌∷◌,
  arith, Option-cases, inl, inr, if_cases, is_nil, some_inj,
}
use go_meshtastic_serial2tcp.Prelude.Keys.{Text}
use go_meshtastic_serial2tcp.Meshtastic.{Codec, MeshPacket, FromRadio, ToRadio}
use go_meshtastic_serial2tcp.Meshtastic.Printer.{Printer}
use go_meshtastic_serial2tcp.Webui.Hub.{Hub, Event, record_event}
use go_meshtastic_serial2tcp.Webui.Nodes.{touch_node_activity}
use go_meshtastic_serial2tcp.Webui.Protos.{cache_packet_proto}
use go_meshtastic_serial2tcp.Webui.Chat.{chat_window}
use go_meshtastic_serial2tcp.Webui.Chat.Laws.{ids, is_new}
use go_meshtastic_serial2tcp.Webui.Chat.Repeat.{IsRecent, record_chat-IsRecent, record_chat-ids}
use go_meshtastic_serial2tcp.Webui.Packets.{
  chat_text, received_message, try_record_chat_from_packet,
}
use go_meshtastic_serial2tcp.Webui.Observer.{
  Ambient, radio_event, request_event, try_record_chat_packet, observe_packet, observe_variant,
  observe_request, observe_from_radio, observe_to_radio, observe_payload,
}
use go_meshtastic_serial2tcp.Webui.Observer.Keeps.{
  cache_packet_proto-same, touch_node_activity-chats,
}

-- One call of ObservePayload, with what it finds.
pub record Sighting : Type 0 where
  pub ambient : Ambient
  pub direction : Text
  pub addr : Text
  pub payload : Text
  pub from_radio : Bool

-- The payload is a packet, and which.
abbrev pub Carries : Codec → Text → Bool → MeshPacket → Type 0
Carries p [] from_radio pkt = ⊥
Carries p (c ∷ s) true pkt = p.unmarshal_from_radio (c ∷ s) ≡ some (FromRadio.packet (some pkt))
Carries p (c ∷ s) false pkt = p.unmarshal_to_radio (c ∷ s) ≡ some (ToRadio.packet (some pkt))

record_event-chats : (now : ℕ) (h : Hub) (ev : Event) → (record_event now h ev).chats ≡ h.chats
unfolding record_event
record_event-chats now h ev = refl

module _ (q : Printer) where
  -- The hub of which tryRecordChatPacket sees the chat.
  abbrev before_chat : Ambient → Hub → MeshPacket → Hub
  before_chat a h pkt =
      cache_packet_proto q a.range (touch_node_activity a.now h pkt.from pkt.rx_snr a.now)
        (some pkt)

  before_chat-chats :
      (a : Ambient) (h : Hub) (pkt : MeshPacket) → (before_chat a h pkt).chats ≡ h.chats
  before_chat-chats a h pkt =
      (cache_packet_proto-same q a.range (touch_node_activity a.now h pkt.from pkt.rx_snr a.now)
        pkt).1
      ∙ touch_node_activity-chats a.now h pkt.from pkt.rx_snr a.now

  -- A call that ends well has found the number of the radio's node, or no radio.
  abbrev Chatted : Ambient → Hub → MeshPacket → Hub → Type 0
  Chatted a h pkt g =
      (local : ℕ) × (a.local ≡ some local)
      × (g.chats
          ≡ (try_record_chat_from_packet q a.now (before_chat a h pkt) (some pkt) local).chats)

  observe_packet-Chatted :
      (a : Ambient) (h g : Hub) (ev : Event) (pkt : MeshPacket)
      → observe_packet q a h ev (some pkt) ≡ some g
      → Chatted a h pkt g
  unfolding observe_packet try_record_chat_packet
  observe_packet-Chatted a h g ev pkt e = elim (Option-cases a.local) [
    | inl n ↦ absurd (impossible (rw (n, try_record_chat_packet) at e))
    | inr (local, l) ↦ (
      local,
      l,
      ap (λ (x : Hub). x.chats) (sym (some_inj (rw (l, try_record_chat_packet) at e)))
          ∙ record_event-chats a.now _ _,
    )
  ]
    where
      impossible : ◌≡◌ {A = Option Hub} none (some g) → ⊥
      impossible k = cc

  module _ (p : Codec) where
    abbrev pub observe : Hub → Sighting → Option Hub
    observe h s = observe_payload q p s.ambient h s.direction s.addr s.payload s.from_radio

    -- ObservePayload, once for each, until one panics.
    abbrev pub observe_all : Hub → List Sighting → Option Hub
    observe_all h [] = some h
    observe_all h (s ∷ ss) = elim (observe h s) [ none ↦ none | some g ↦ observe_all g ss ]

    observe_payload-Chatted :
        (a : Ambient) (h g : Hub) (dir addr payload : Text) (from_radio : Bool) (pkt : MeshPacket)
        → Carries p payload from_radio pkt
        → observe_payload q p a h dir addr payload from_radio ≡ some g
        → Chatted a h pkt g
    unfolding observe_payload observe_from_radio observe_to_radio observe_variant observe_request
    observe_payload-Chatted a h g dir addr [] from_radio pkt c e = absurd c
    observe_payload-Chatted a h g dir addr (x ∷ s) true pkt c e =
        observe_packet-Chatted a h g (radio_event q dir addr (FromRadio.packet (some pkt))) pkt
          (rw (c, observe_payload) at e)
    observe_payload-Chatted a h g dir addr (x ∷ s) false pkt c e =
        observe_packet-Chatted a h g (request_event q dir addr (ToRadio.packet (some pkt))) pkt
          (rw (c, observe_payload) at e)

  try_record-recent :
      (now : ℕ) (h : Hub) (pkt : MeshPacket) (local : ℕ)
      → IsRecent pkt.id h.chats
      → ids (try_record_chat_from_packet q now h (some pkt) local).chats ≡ ids h.chats
  unfolding try_record_chat_from_packet
  try_record-recent now h pkt local recent =
      if_cases (λ (x : Hub). ids x.chats ≡ ids h.chats) (is_nil (chat_text pkt)) (λ _. refl)
        (λ _. record_chat-ids now h (received_message q now h pkt local) recent)

  try_record-IsRecent :
      (now : ℕ) (h : Hub) (pkt : MeshPacket) (local : ℕ)
      → is_nil (chat_text pkt) ≡ false
      → pkt.id ≢ 0
      → pkt.from ≢ local
      → IsRecent pkt.id (try_record_chat_from_packet q now h (some pkt) local).chats
  unfolding try_record_chat_from_packet
  try_record-IsRecent now h pkt local text nz other =
      rw text (record_chat-IsRecent now h (received_message q now h pkt local) (ground arith) nz)

  module _ (p : Codec) where
    -- Each of the packets has this id.
    abbrev pub AllSame : ℕ → List Sighting → Type 0
    AllSame id [] = Unit
    AllSame id (s ∷ ss) =
        ((pkt : MeshPacket) × Carries p s.payload s.from_radio pkt × (pkt.id ≡ id)) × AllSame id ss

    seen_again :
        (id : ℕ) (ss : List Sighting) (h g : Hub)
        → AllSame id ss
        → IsRecent id h.chats
        → observe_all p h ss ≡ some g
        → ids g.chats ≡ ids h.chats
    seen_again id [] h g same recent e = ap (λ (x : Hub). ids x.chats) (sym (some_inj e))
    seen_again id (s ∷ ss) h g same recent e = elim (Option-cases (observe p h s)) [
      | inl n ↦ absurd (impossible (rw (n, observe_all) at e))
      | inr (x, o) ↦
          let ids_eq : ids x.chats ≡ ids h.chats = once x o in
          seen_again id ss x g same.1
            (subst (λ js. is_new chat_window id js ≡ false) (sym ids_eq) recent)
            (rw (o, observe_all) at e)
          ∙ ids_eq
    ]
      where
        impossible : ◌≡◌ {A = Option Hub} none (some g) → ⊥
        impossible k = cc

        once : (x : Hub) → observe p h s ≡ some x → ids x.chats ≡ ids h.chats
        once x o =
            let (pkt, carried, id_eq) = same.0 in
            let (local, l, chats) =
              observe_payload-Chatted p s.ambient h x s.direction s.addr s.payload s.from_radio pkt
                carried o in
            let b = before_chat-chats s.ambient h pkt in
            ap ids chats
            ∙ try_record-recent s.ambient.now (before_chat s.ambient h pkt) pkt local (
                subst (λ i. is_new chat_window i (ids (before_chat s.ambient h pkt).chats) ≡ false)
                  (sym id_eq) (subst (λ cs. is_new chat_window id (ids cs) ≡ false) (sym b) recent))
            ∙ ap ids b

    -- A packet with a text, with an id that is not 0 and not sent by the radio's own node, is
    -- observed on its way, in either direction. Then packets with the same id are observed, as
    -- often as you like, in whatever directions, from and to whichever clients, with whatever
    -- content. If no call panics, the packet is in the chat, among the latest eight messages, after
    -- the first call, and the later calls add no message to the chat and remove none.
    pub observe-observe_all :
        (s : Sighting) (ss : List Sighting) (pkt : MeshPacket) (local : ℕ) (h g k : Hub)
        → Carries p s.payload s.from_radio pkt
        → is_nil (chat_text pkt) ≡ false
        → pkt.id ≢ 0
        → s.ambient.local ≡ some local
        → pkt.from ≢ local
        → AllSame pkt.id ss
        → observe p h s ≡ some g
        → observe_all p g ss ≡ some k
        → (is_new chat_window pkt.id (ids g.chats) ≡ false) × (ids k.chats ≡ ids g.chats)
    observe-observe_all s ss pkt local h g k carried text nz l other same first later =
        let (local', l', chats) =
          observe_payload-Chatted p s.ambient h g s.direction s.addr s.payload s.from_radio pkt
            carried first in
        let same_local : local ≡ local' = some_inj (sym l ∙ l') in
        let recent : IsRecent pkt.id g.chats =
          subst (λ cs. IsRecent pkt.id cs) (sym chats)
            (try_record-IsRecent s.ambient.now (before_chat s.ambient h pkt) pkt local' text nz
              (subst (λ i. pkt.from ≢ i) same_local other)) in
        (recent, seen_again pkt.id ss g k same recent later)
