-- ===== src/Webui/Hub.antt =====
-- internal/webui/hub.go, Hub: events, channels, the status and the subscribers. The radio provider
-- is an argument of the functions that call it.
pub mod Laws
use go_meshtastic_serial2tcp.Prelude.{
  ℕ, Bool, false, Option, none, some, List, [], ◌∷◌, ◌++◌, length, take, if◌then◌else◌, ltb, ◌==◌,
  is_nil,
}
use go_meshtastic_serial2tcp.Prelude.Keys.{ℤ, Text, int_key, nat_key}
use go_meshtastic_serial2tcp.Prelude.Assoc.{Assoc, get, put, delete}
use go_meshtastic_serial2tcp.Broker.State.{Status}
use go_meshtastic_serial2tcp.Webui.Node.{NodeView}

abbrev pub max_events : ℕ
max_events = 1000

abbrev pub max_chat : ℕ
max_chat = 500

-- A time is a number of nanoseconds, 0 for the zero time.
pub record Event : Type 0 where
  pub time : ℕ
  pub direction : Text
  pub addr : Text
  pub variant : Text
  pub category : Text
  pub channel_index : Option ℤ
  pub channel_name : Text
  pub summary : Text
  pub json : Text

pub record ChannelInfo : Type 0 where
  pub index : ℤ
  pub name : Text
  pub role : Text
  pub updated : ℕ

pub record ChatMessage : Type 0 where
  pub time : ℕ
  pub text : Text
  pub from : ℕ
  pub to : ℕ
  pub channel : ℤ
  pub channel_name : Text
  pub outgoing : Bool
  pub packet_id : ℕ
  pub proto_json : Text

-- A channel with a buffer, oldest item first.
pub record Chan (A : Type 0) : Type 0 where
  pub capacity : ℕ
  pub buffer : List A

-- `events` and `chats` stand newest first here; the slices have the newest item last.
pub record Hub : Type 0 where
  pub events : List Event
  pub chats : List ChatMessage
  pub packet_protos : Assoc ℕ Text
  pub channels : Assoc ℤ ChannelInfo
  pub subscribers : Assoc ℕ (Chan Event)
  pub nodes : Assoc ℕ NodeView
  pub local_node_num : ℕ
  pub status : Status
  pub chat_subs : Assoc ℕ (Chan ChatMessage)
  pub node_subs : Assoc ℕ (Chan (List NodeView))

-- Status{}
abbrev pub zero_status : Status
zero_status = record {
  serial_connected = false;
  client_count = 0;
  primary_addr = [];
  cache_ready = false;
  cache_summary = none;
  local_node_num = 0;
}

abbrev pub new_hub : Hub
new_hub = record {
  events = [];
  chats = [];
  packet_protos = [];
  channels = [];
  subscribers = [];
  nodes = [];
  local_node_num = 0;
  status = zero_status;
  chat_subs = [];
  node_subs = [];
}

-- select { case ch <- x: default: }
abbrev pub offer_to : {A : Type 0} → A → Chan A → Chan A
offer_to x c =
    if ltb (length c.buffer) c.capacity then record c { buffer = c.buffer ++ (x ∷ []) } else c

abbrev pub offer_all : {A : Type 0} → A → Assoc ℕ (Chan A) → Assoc ℕ (Chan A)
offer_all x [] = []
offer_all x ((id, c) ∷ subs) = (id, offer_to x c) ∷ offer_all x subs

-- The name of a channel that the hub knows, else what is there.
abbrev pub name_of : Hub → ℤ → Text → Text
name_of h index old = elim (get h.channels index) [ none ↦ old | some ch ↦ ch.name ]

abbrev pub event_name : Hub → Option ℤ → Text → Text
event_name h none name = name
event_name h (some index) name = if is_nil name then name_of h index name else name

-- The time and the name that Record fills in.
unfoldable pub complete_event : ℕ → Hub → Event → Event
complete_event now h ev = record ev {
  time = if ev.time == 0 then now else ev.time;
  channel_name = event_name h ev.channel_index ev.channel_name;
}

-- Record
unfoldable pub record_event : ℕ → Hub → Event → Hub
unfolding complete_event
record_event now h ev = record h {
  events = take max_events (complete_event now h ev ∷ h.events);
  subscribers = offer_all (complete_event now h ev) h.subscribers;
}

unfoldable pub update_channel : ℕ → Hub → ℤ → Text → Text → Hub
update_channel now h index name role = record h {
  channels =
      put h.channels index (record { index = index; name = name; role = role; updated = now });
}

-- Subscribe; `id` is the new channel.
unfoldable pub subscribe : Hub → ℕ → ℕ → Hub
subscribe h id buffer = record h {
  subscribers =
      put h.subscribers id (record { capacity = if buffer == 0 then 64 else buffer; buffer = [] });
}

unfoldable pub unsubscribe : Hub → ℕ → Hub
unsubscribe h id = record h { subscribers = delete h.subscribers id }

unfoldable pub subscribe_chat : Hub → ℕ → ℕ → Hub
subscribe_chat h id buffer = record h {
  chat_subs =
      put h.chat_subs id (record { capacity = if buffer == 0 then 64 else buffer; buffer = [] });
}

unfoldable pub unsubscribe_chat : Hub → ℕ → Hub
unsubscribe_chat h id = record h { chat_subs = delete h.chat_subs id }
