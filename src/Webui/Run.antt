-- ===== src/Webui/Run.antt =====
-- internal/webui: the hub under any sequence of calls, of the broker, the server and the viewers.
use go_meshtastic_serial2tcp.Prelude.{
  ℕ, ◌≡◌, subst, Bool, Option, none, some, List, ◌==◌, if_cases, arith,
}
use go_meshtastic_serial2tcp.Prelude.Keys.{ℤ, Text}
use go_meshtastic_serial2tcp.Meshtastic.{Codec}
use go_meshtastic_serial2tcp.Meshtastic.Printer.{Printer}
use go_meshtastic_serial2tcp.Broker.State.{Status}
use go_meshtastic_serial2tcp.Broker.Chat.{Sent, sent, refused}
use go_meshtastic_serial2tcp.Webui.Hub.{
  Hub, Event, ChatMessage, Chan, new_hub, record_event, update_channel, subscribe, unsubscribe,
  subscribe_chat, unsubscribe_chat,
}
use go_meshtastic_serial2tcp.Prelude.Assoc.{Assoc}
use go_meshtastic_serial2tcp.Webui.Node.{NodeView}
use go_meshtastic_serial2tcp.Webui.Nodes.{subscribe_nodes, unsubscribe_nodes, notify_nodes}
use go_meshtastic_serial2tcp.Webui.Protos.Laws.{IsRange}
use go_meshtastic_serial2tcp.Webui.Status.{set_status}
use go_meshtastic_serial2tcp.Webui.Observer.{Ambient, observe_payload}
use go_meshtastic_serial2tcp.Webui.Observer.Keeps.{IsHub, record_event-IsHub, record_chat-IsHub}
use go_meshtastic_serial2tcp.Webui.Observer.Invariant.{Holds, observe_payload-IsHub}
use go_meshtastic_serial2tcp.Webui.Radio.{Provided, no_radio, nil_broker, active}
use go_meshtastic_serial2tcp.Webui.Send.{after_send, send_chat, sent_message}
use go_meshtastic_serial2tcp.Webui.Http.Stream.{
  Sse, Viewer, Choice, context_done, event_ready, chat_ready, nodes_ready, Served, goes_on, ended,
  show_event, show_chat, show_nodes, serve_round,
}

-- The status and the channels of the subscribers are no part of the invariant.
aside :
    (h : Hub) (st : Status) (local : ℕ) (subs : Assoc ℕ (Chan Event))
    (chat_subs : Assoc ℕ (Chan ChatMessage)) (node_subs : Assoc ℕ (Chan (List NodeView)))
    → IsHub h
    → IsHub (record h {
      status = st;
      local_node_num = local;
      subscribers = subs;
      chat_subs = chat_subs;
      node_subs = node_subs;
    })
aside h st local subs chat_subs node_subs good = record {
  few_events = good.few_events;
  chat = good.chat;
  protos = good.protos;
  nodes = good.nodes;
  channels = good.channels;
}

module _ (q : Printer) (p : Codec) where
  -- One call. `range` visits every key of a map, which Go promises.
  pub data Step (h : Hub) : Hub → Type 1 where
    observes :
        (a : Ambient) (dir addr payload : Text) (from_radio : Bool) (g : Hub)
        → IsRange a.range
        → observe_payload q p a h dir addr payload from_radio ≡ some g
        → Step h g
    records : (now : ℕ) (ev : Event) → Step h (record_event now h ev)
    hears_status : (now : ℕ) (st : Status) → Step h (set_status now h st)
    sends :
        {S : Type 0} (r : Provided S) (now : ℕ) (s : S) (channel : ℤ) (to : ℕ) (text : Text)
        → Step h (send_chat q r now h s channel to text).0
    subscribes : (id buffer : ℕ) → Step h (subscribe h id buffer)
    subscribes_chat : (id buffer : ℕ) → Step h (subscribe_chat h id buffer)
    subscribes_nodes : (id buffer : ℕ) → Step h (subscribe_nodes h id buffer)
    serves :
        (encodes : Sse → Bool) (v : Viewer) (choice : Choice) (g : Hub) (w : Viewer)
        → serve_round encodes h v choice ≡ goes_on g w
        → Step h g
    leaves :
        (encodes : Sse → Bool) (v : Viewer) (choice : Choice) (g : Hub)
        → serve_round encodes h v choice ≡ ended g
        → Step h g

  pub data Run : Hub → Hub → Type 1 where
    done : (h : Hub) → Run h h
    after : (h g k : Hub) → Step h g → Run g k → Run h k

  set_status-IsHub : (now : ℕ) (h : Hub) (st : Status) → IsHub h → IsHub (set_status now h st)
  unfolding set_status notify_nodes
  set_status-IsHub now h st good =
      if_cases IsHub (st.local_node_num == 0) (λ _. aside h st _ _ _ _ good)
        (λ _. aside h st _ _ _ _ good)

  send_chat-IsHub :
      {S : Type 0} (r : Provided S) (now : ℕ) (h : Hub) (s : S) (channel : ℤ) (to : ℕ) (text : Text)
      → IsHub h
      → IsHub (send_chat q r now h s channel to text).0
  unfolding send_chat
  send_chat-IsHub no_radio now h s channel to text good = good
  send_chat-IsHub nil_broker now h s channel to text good = good
  send_chat-IsHub {S} (active r) now h s channel to text good = answered _ _
    where
      answered : (t : Text) (x : S × Sent) → IsHub (after_send q r now h channel to t x).0
      answered t (s', refused e) = good
      answered t (s', sent id) =
          record_chat-IsHub now h (sent_message q now h (r.local_node_num s') to channel id t) good

  AfterRound : Served → Type 0
  AfterRound (goes_on g w) = IsHub g
  AfterRound (ended g) = IsHub g

  show_event-IsHub :
      (encodes : Sse → Bool) (h : Hub) (v : Viewer) (o : Option (Event × Assoc ℕ (Chan Event)))
      → IsHub h
      → AfterRound (show_event encodes h v o)
  unfolding AfterRound
  show_event-IsHub encodes h v none good = good
  show_event-IsHub encodes h v (some (ev, subs)) good = aside h _ _ _ _ _ good

  show_chat-IsHub :
      (encodes : Sse → Bool) (h : Hub) (v : Viewer)
      (o : Option (ChatMessage × Assoc ℕ (Chan ChatMessage)))
      → IsHub h
      → AfterRound (show_chat encodes h v o)
  unfolding AfterRound
  show_chat-IsHub encodes h v none good = good
  show_chat-IsHub encodes h v (some (msg, subs)) good = aside h _ _ _ _ _ good

  show_nodes-IsHub :
      (encodes : Sse → Bool) (h : Hub) (v : Viewer)
      (o : Option (List NodeView × Assoc ℕ (Chan (List NodeView))))
      → IsHub h
      → AfterRound (show_nodes encodes h v o)
  unfolding AfterRound
  show_nodes-IsHub encodes h v none good = good
  show_nodes-IsHub encodes h v (some (ns, subs)) good = aside h _ _ _ _ _ good

  serve_round-IsHub :
      (encodes : Sse → Bool) (h : Hub) (v : Viewer) (choice : Choice)
      → IsHub h
      → AfterRound (serve_round encodes h v choice)
  unfolding serve_round unsubscribe unsubscribe_chat unsubscribe_nodes AfterRound
  serve_round-IsHub encodes h v context_done good = aside h _ _ _ _ _ good
  serve_round-IsHub encodes h v event_ready good = show_event-IsHub encodes h v _ good
  serve_round-IsHub encodes h v chat_ready good = show_chat-IsHub encodes h v _ good
  serve_round-IsHub encodes h v nodes_ready good = show_nodes-IsHub encodes h v _ good

  Step-IsHub : {h g : Hub} → Step h g → IsHub h → IsHub g
  unfolding subscribe subscribe_chat subscribe_nodes update_channel AfterRound
  Step-IsHub {h} (observes a dir addr payload from_radio g visits e) good =
      subst (Holds IsHub) e (observe_payload-IsHub q a visits p h dir addr payload from_radio good)
  Step-IsHub {h} (records now ev) good = record_event-IsHub now h ev good
  Step-IsHub {h} (hears_status now st) good = set_status-IsHub now h st good
  Step-IsHub {h} (sends r now s channel to text) good =
      send_chat-IsHub r now h s channel to text good
  Step-IsHub {h} (subscribes id buffer) good = aside h _ _ _ _ _ good
  Step-IsHub {h} (subscribes_chat id buffer) good = aside h _ _ _ _ _ good
  Step-IsHub {h} (subscribes_nodes id buffer) good = aside h _ _ _ _ _ good
  Step-IsHub {h} (serves encodes v choice g w e) good =
      subst AfterRound e (serve_round-IsHub encodes h v choice good)
  Step-IsHub {h} (leaves encodes v choice g e) good =
      subst AfterRound e (serve_round-IsHub encodes h v choice good)

  Run-keeps-IsHub : {h g : Hub} → Run h g → IsHub h → IsHub g
  Run-keeps-IsHub (done h) good = good
  Run-keeps-IsHub (after h g k s r) good = Run-keeps-IsHub r (Step-IsHub s good)

  -- A new hub, and then any sequence of calls: payloads observed in either direction, whatever they
  -- are, events and states recorded, messages sent by viewers, viewers that come, are served and
  -- go. As long as no call panics: the hub has at most 1000 events and at most 500 messages, no
  -- packet stands twice among nine messages in a row, the cache of packets has at most 2048 entries
  -- and each id once, and every node and every channel stands once, under its own number.
  pub Run-IsHub : {h : Hub} → Run new_hub h → IsHub h
  Run-IsHub r = Run-keeps-IsHub r (record {
    few_events = omega arith;
    chat = (tt, omega arith);
    protos = (tt, omega arith);
    nodes = (tt, tt);
    channels = (tt, tt);
  })
