-- ===== src/Webui/Http/Stream.antt =====
-- internal/webui/server.go, handleEvents: the stream of a connected viewer.
pub mod Complete
pub mod Laws
use go_meshtastic_serial2tcp.Prelude.{
  ℕ, ◌+◌, Bool, Option, none, some, List, [], ◌∷◌, ◌++◌, if◌then◌else◌,
}
use go_meshtastic_serial2tcp.Prelude.Keys.{Text, text_eq, nat_key}
use go_meshtastic_serial2tcp.Prelude.Assoc.{Assoc, get, put}
use go_meshtastic_serial2tcp.Prelude.Sorted.By.{sort_by}
use go_meshtastic_serial2tcp.Webui.Node.{NodeView}
use go_meshtastic_serial2tcp.Webui.Hub.{
  Hub, Event, ChatMessage, Chan, subscribe, unsubscribe, subscribe_chat, unsubscribe_chat,
}
use go_meshtastic_serial2tcp.Webui.Nodes.{subscribe_nodes, unsubscribe_nodes}
use go_meshtastic_serial2tcp.Webui.Http.{View, view, num_of, get_method}

-- One server-sent event.
pub data Sse : Type 0 where
  snapshot_sse : View → Sse
  message_sse : Event → Sse
  chat_sse : ChatMessage → Sse
  nodes_sse : List NodeView → Sse

-- A viewer: its three channels, and what it has been sent.
pub record Viewer : Type 0 where
  pub events : ℕ
  pub chats : ℕ
  pub nodes : ℕ
  pub sent : List Sse

-- The oldest item of a channel, if there is one, and the channels without it.
abbrev pub receive_from :
    {A : Type 0} → Assoc ℕ (Chan A) → ℕ → Option (Chan A) → Option (A × Assoc ℕ (Chan A))
receive_from subs id none = none
receive_from subs id (some c) = elim c.buffer [
  | [] ↦ none
  | x ∷ later ↦ some (x, put subs id (record c { buffer = later }))
]

-- What the select of the loop takes.
pub data Choice : Type 0 where
  context_done event_ready chat_ready nodes_ready : Choice

pub data Served : Type 0 where
  goes_on : Hub → Viewer → Served
  ended : Hub → Served

-- What encodes as JSON: `encodes` says whether json.Marshal gives no error.
module _ (encodes : Sse → Bool) where
  unfoldable pub send_sse : Sse → List Sse → List Sse
  send_sse x sent = if encodes x then sent ++ (x ∷ []) else sent

  -- The part before the loop: the snapshot is of the hub `h`, and the viewer subscribes to the hub
  -- `g`, which is `h` after whatever happened in between.
  unfoldable pub open_stream : ℕ → Hub → Hub → ℕ → ℕ → ℕ → Hub × Viewer
  unfolding send_sse
  open_stream now h g ev chat nodes = (
    subscribe_nodes (subscribe_chat (subscribe g ev 128) chat 64) nodes 16,
    record {
      events = ev;
      chats = chat;
      nodes = nodes;
      sent = send_sse (snapshot_sse (view now h)) [];
    },
  )

  abbrev pub show : Viewer → Sse → Viewer
  show v x = record v { sent = send_sse x v.sent }

  abbrev pub show_event : Hub → Viewer → Option (Event × Assoc ℕ (Chan Event)) → Served
  show_event h v none = goes_on h v
  show_event h v (some (ev, subs)) =
      goes_on (record h { subscribers = subs }) (show v (message_sse ev))

  abbrev pub show_chat : Hub → Viewer → Option (ChatMessage × Assoc ℕ (Chan ChatMessage)) → Served
  show_chat h v none = goes_on h v
  show_chat h v (some (msg, subs)) = goes_on (record h { chat_subs = subs }) (show v (chat_sse msg))

  abbrev pub show_nodes :
      Hub → Viewer → Option (List NodeView × Assoc ℕ (Chan (List NodeView))) → Served
  show_nodes h v none = goes_on h v
  show_nodes h v (some (ns, subs)) =
      goes_on (record h { node_subs = subs }) (show v (nodes_sse (sort_by num_of ns)))

  -- One round of the loop. A case whose channel is empty is not ready: nothing happens.
  unfoldable pub serve_round : Hub → Viewer → Choice → Served
  unfolding send_sse
  serve_round h v context_done =
      ended (unsubscribe (unsubscribe_chat (unsubscribe_nodes h v.nodes) v.chats) v.events)
  serve_round h v event_ready =
      show_event h v (receive_from h.subscribers v.events (get h.subscribers v.events))
  serve_round h v chat_ready =
      show_chat h v (receive_from h.chat_subs v.chats (get h.chat_subs v.chats))
  serve_round h v nodes_ready =
      show_nodes h v (receive_from h.node_subs v.nodes (get h.node_subs v.nodes))

-- handleEvents, up to the loop; `flushes` says that the writer is a Flusher.
pub data Opened : Type 0 where
  opened : Hub → Viewer → Opened
  not_allowed unsupported : Opened

unfoldable pub handle_events : (Sse → Bool) → Text → Bool → ℕ → Hub → Hub → ℕ → ℕ → ℕ → Opened
unfolding open_stream
handle_events encodes method flushes now h g ev chat nodes =
    if text_eq method get_method
    then (if flushes
        then opened (open_stream encodes now h g ev chat nodes).0
            (open_stream encodes now h g ev chat nodes).1
        else unsupported)
    else not_allowed
