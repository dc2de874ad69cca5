-- ===== src/Webui/Observer/Keeps.antt =====
-- internal/webui: what is promised of the hub, and that its own operations keep it.
use go_meshtastic_serial2tcp.Prelude.{
  ℕ, ◌≤◌, ◌≡◌, refl, sym, ap, subst, ◌||◌, Option, none, some, List, ◌∷◌, length, length-take, take,
  ◌==◌, arith, if_cases, is_nil,
}
use go_meshtastic_serial2tcp.Prelude.Keys.{ℤ, Text, nat_key, int_key}
use go_meshtastic_serial2tcp.Prelude.Assoc.{Assoc, get, IsMap, put-IsMap}
use go_meshtastic_serial2tcp.Prelude.Sorted.By.{IsKeyed, put-IsKeyed}
use go_meshtastic_serial2tcp.Meshtastic.{MeshPacket, NodeInfo}
use go_meshtastic_serial2tcp.Meshtastic.Printer.{Printer}
use go_meshtastic_serial2tcp.Webui.Node.{NodeView}
use go_meshtastic_serial2tcp.Webui.Hub.{
  Hub, Event, ChatMessage, ChannelInfo, max_events, record_event, complete_event, update_channel,
}
use go_meshtastic_serial2tcp.Webui.Nodes.{
  notify_nodes, mark_known, set_local_node_num, update_node_from_info, touch_node_activity,
  broadcast_node,
}
use go_meshtastic_serial2tcp.Webui.Nodes.Invariant.{
  IsNodes, set_local_node_num-IsNodes, update_node_from_info-IsNodes, touch_node_activity-IsNodes,
}
use go_meshtastic_serial2tcp.Webui.Protos.{Range, cache_packet_proto, packet_json}
use go_meshtastic_serial2tcp.Webui.Protos.Laws.{IsRange, IsBounded, cache_packet_proto-IsBounded}
use go_meshtastic_serial2tcp.Webui.Chat.{record_chat, unless_merged, is_duplicate_chat, chat_window}
use go_meshtastic_serial2tcp.Webui.Chat.Laws.{IsChat, record_chat-IsChat}

abbrev pub index_of : ChannelInfo → ℤ
index_of ch = ch.index

abbrev pub IsChannels : Assoc ℤ ChannelInfo → Type 0
IsChannels m = IsMap m × IsKeyed index_of m

-- What is promised of the hub.
pub record IsHub (h : Hub) : Type 0 where
  pub few_events : length h.events ≤ max_events
  pub chat : IsChat h
  pub protos : IsBounded h.packet_protos
  pub nodes : IsNodes h.nodes
  pub channels : IsChannels h.channels

-- All but the table of nodes.
abbrev Rest : Type 0
Rest = List Event × List ChatMessage × Assoc ℕ Text × Assoc ℤ ChannelInfo

abbrev rest : Hub → Rest
rest h = (h.events, h.chats, h.packet_protos, h.channels)

nodes_changed : (h g : Hub) → IsHub h → IsNodes g.nodes → rest g ≡ rest h → IsHub g
nodes_changed h g good nodes same = record {
  few_events = subst (λ (r : Rest). length r.0 ≤ max_events) (sym same) good.few_events;
  chat = subst (λ (r : Rest). IsChat (record h { chats = r.1 })) (sym same) good.chat;
  protos = subst (λ (r : Rest). IsBounded r.2) (sym same) good.protos;
  nodes = nodes;
  channels = subst (λ (r : Rest). IsChannels r.3) (sym same) good.channels;
}

mark_known-rest : (h : Hub) (num : ℕ) (o : Option NodeView) → rest (mark_known h num o) ≡ rest h
mark_known-rest h num none = refl
mark_known-rest h num (some n) = refl

set_local_node_num-rest :
    (now : ℕ) (h : Hub) (num : ℕ) → rest (set_local_node_num now h num) ≡ rest h
unfolding set_local_node_num notify_nodes
set_local_node_num-rest now h num =
    if_cases (λ x. rest x ≡ rest h) (num == 0) (λ _. refl)
      (λ _. mark_known-rest (record h { local_node_num = num }) num (get h.nodes num))

pub set_local_node_num-events :
    (now : ℕ) (h : Hub) (num : ℕ) → (set_local_node_num now h num).events ≡ h.events
set_local_node_num-events now h num = ap (λ (r : Rest). r.0) (set_local_node_num-rest now h num)

update_node_from_info-rest :
    (q : Printer) (now : ℕ) (h : Hub) (info : NodeInfo)
    → rest (update_node_from_info q now h (some info)) ≡ rest h
unfolding update_node_from_info notify_nodes
update_node_from_info-rest q now h info =
    if_cases (λ x. rest x ≡ rest h) (info.num == 0) (λ _. refl) (λ _. refl)

pub update_node_from_info-events :
    (q : Printer) (now : ℕ) (h : Hub) (info : NodeInfo)
    → (update_node_from_info q now h (some info)).events ≡ h.events
update_node_from_info-events q now h info =
    ap (λ (r : Rest). r.0) (update_node_from_info-rest q now h info)

pub set_local_node_num-IsHub :
    (now : ℕ) (h : Hub) (num : ℕ) → IsHub h → IsHub (set_local_node_num now h num)
set_local_node_num-IsHub now h num good =
    nodes_changed h (set_local_node_num now h num) good
      (set_local_node_num-IsNodes now h num good.nodes) (set_local_node_num-rest now h num)

pub update_node_from_info-IsHub :
    (q : Printer) (now : ℕ) (h : Hub) (info : NodeInfo)
    → IsHub h
    → IsHub (update_node_from_info q now h (some info))
update_node_from_info-IsHub q now h info good =
    nodes_changed h (update_node_from_info q now h (some info)) good
      (update_node_from_info-IsNodes q now h (some info) good.nodes)
      (update_node_from_info-rest q now h info)

touch_node_activity-rest :
    (now : ℕ) (h : Hub) (num snr time : ℕ) → rest (touch_node_activity now h num snr time) ≡ rest h
unfolding touch_node_activity notify_nodes
touch_node_activity-rest now h num snr time =
    if_cases (λ x. rest x ≡ rest h) (num == 0 || num == broadcast_node) (λ _. refl) (λ _. refl)

pub touch_node_activity-IsHub :
    (now : ℕ) (h : Hub) (num snr time : ℕ)
    → IsHub h
    → IsHub (touch_node_activity now h num snr time)
touch_node_activity-IsHub now h num snr time good =
    nodes_changed h (touch_node_activity now h num snr time) good
      (touch_node_activity-IsNodes now h num snr time good.nodes)
      (touch_node_activity-rest now h num snr time)

pub touch_node_activity-events :
    (now : ℕ) (h : Hub) (num snr time : ℕ)
    → (touch_node_activity now h num snr time).events ≡ h.events
touch_node_activity-events now h num snr time =
    ap (λ (r : Rest). r.0) (touch_node_activity-rest now h num snr time)

pub touch_node_activity-chats :
    (now : ℕ) (h : Hub) (num snr time : ℕ)
    → (touch_node_activity now h num snr time).chats ≡ h.chats
touch_node_activity-chats now h num snr time =
    ap (λ (r : Rest). r.1) (touch_node_activity-rest now h num snr time)

length-take-le : {A : Type 0} (n : ℕ) (xs : List A) → length (take n xs) ≤ n
length-take-le n xs = omega (arith, length-take n xs)

pub record_event-IsHub : (now : ℕ) (h : Hub) (ev : Event) → IsHub h → IsHub (record_event now h ev)
unfolding record_event
record_event-IsHub now h ev good = record {
  few_events = length-take-le max_events (complete_event now h ev ∷ h.events);
  chat = good.chat;
  protos = good.protos;
  nodes = good.nodes;
  channels = good.channels;
}

pub update_channel-IsHub :
    (now : ℕ) (h : Hub) (i : ℤ) (name role : Text)
    → IsHub h
    → IsHub (update_channel now h i name role)
unfolding update_channel
update_channel-IsHub now h i name role good = record {
  few_events = good.few_events;
  chat = good.chat;
  protos = good.protos;
  nodes = good.nodes;
  channels = (
    put-IsMap h.channels i _ good.channels.0,
    put-IsKeyed index_of h.channels i _ refl good.channels.1,
  );
}

pub cache_packet_proto-same :
    (q : Printer) (range : Range) (h : Hub) (pkt : MeshPacket)
    → ((cache_packet_proto q range h (some pkt)).events ≡ h.events)
      × ((cache_packet_proto q range h (some pkt)).chats ≡ h.chats)
      × ((cache_packet_proto q range h (some pkt)).nodes ≡ h.nodes)
      × ((cache_packet_proto q range h (some pkt)).channels ≡ h.channels)
unfolding cache_packet_proto
cache_packet_proto-same q range h pkt =
    let P : Hub → Type 0 = λ x.
      (x.events ≡ h.events)
      × (x.chats ≡ h.chats)
      × (x.nodes ≡ h.nodes)
      × (x.channels ≡ h.channels) in
    if_cases P (pkt.id == 0) (λ _. (refl, refl, refl, refl))
      (λ _.
        if_cases P (is_nil (packet_json q pkt)) (λ _. (refl, refl, refl, refl))
          (λ _. (refl, refl, refl, refl)))

pub cache_packet_proto-IsHub :
    (q : Printer) (range : Range) (h : Hub) (o : Option MeshPacket)
    → IsRange range
    → IsHub h
    → IsHub (cache_packet_proto q range h o)
cache_packet_proto-IsHub q range h none visits good = unfold cache_packet_proto in good
cache_packet_proto-IsHub q range h (some pkt) visits good =
    let (events, chats, nodes, channels) = cache_packet_proto-same q range h pkt in
    record {
      few_events = subst (λ (x : List Event). length x ≤ max_events) (sym events) good.few_events;
      chat =
          subst (λ (x : List ChatMessage). IsChat (record h { chats = x })) (sym chats) good.chat;
      protos = cache_packet_proto-IsBounded q range h pkt visits good.protos;
      nodes = subst IsNodes (sym nodes) good.nodes;
      channels = subst IsChannels (sym channels) good.channels;
    }

-- All but the chat.
abbrev Others : Type 0
Others = List Event × Assoc ℕ NodeView × Assoc ℕ Text × Assoc ℤ ChannelInfo

abbrev others : Hub → Others
others h = (h.events, h.nodes, h.packet_protos, h.channels)

unless_merged-others :
    (h : Hub) (msg : ChatMessage) (o : Option (List ChatMessage × ChatMessage))
    → others (unless_merged h msg o) ≡ others h
unless_merged-others h msg (some (cs, u)) = refl
unless_merged-others h msg none =
    if_cases (λ x. others x ≡ others h) (is_duplicate_chat chat_window msg h.chats) (λ _. refl)
      (λ _. refl)

record_chat-others :
    (now : ℕ) (h : Hub) (msg : ChatMessage) → others (record_chat now h msg) ≡ others h
unfolding record_chat
record_chat-others now h msg = unless_merged-others h _ _

pub record_chat-events :
    (now : ℕ) (h : Hub) (msg : ChatMessage) → (record_chat now h msg).events ≡ h.events
record_chat-events now h msg = ap (λ (r : Others). r.0) (record_chat-others now h msg)

pub record_chat-IsHub :
    (now : ℕ) (h : Hub) (msg : ChatMessage) → IsHub h → IsHub (record_chat now h msg)
record_chat-IsHub now h msg good =
    let same = sym (record_chat-others now h msg) in
    record {
      few_events = subst (λ (r : Others). length r.0 ≤ max_events) same good.few_events;
      chat = record_chat-IsChat now h msg good.chat;
      protos = subst (λ (r : Others). IsBounded r.2) same good.protos;
      nodes = subst (λ (r : Others). IsNodes r.1) same good.nodes;
      channels = subst (λ (r : Others). IsChannels r.3) same good.channels;
    }
