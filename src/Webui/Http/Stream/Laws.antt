-- ===== src/Webui/Http/Stream/Laws.antt =====
-- internal/webui/server.go, handleEvents: a viewer that keeps up misses no event.
use go_meshtastic_serial2tcp.Prelude.{
  ℕ, ◌≡◌, refl, sym, ap, ◌∙◌, Bool, Option, none, some, List, [], ◌∷◌, ◌++◌, append-nil, length,
  subst,
}
use go_meshtastic_serial2tcp.Prelude.Keys.{nat_key}
use go_meshtastic_serial2tcp.Prelude.Assoc.{get, put, get-put_self}
use go_meshtastic_serial2tcp.Webui.Hub.{Hub, Event, Chan, subscribe, subscribe_chat}
use go_meshtastic_serial2tcp.Webui.Nodes.{subscribe_nodes}
use go_meshtastic_serial2tcp.Webui.Http.{view}
use go_meshtastic_serial2tcp.Webui.Http.Stream.{
  Sse, snapshot_sse, message_sse, Viewer, send_sse, open_stream, receive_from, event_ready, goes_on,
  show_event, serve_round,
}
use go_meshtastic_serial2tcp.Webui.Http.Stream.Complete.{
  kept, event_rounds, messages, waiting, Streams, IsComplete, received, Streams-IsComplete,
  other-sent,
}

module _ (encodes : Sse → Bool) (h : Hub) (v : Viewer) where
  event_round :
      (g : Hub) (w : Viewer) (c : Chan Event) (x : Event) (later : List Event)
      → get g.subscribers w.events ≡ some c
      → c.buffer ≡ x ∷ later
      → serve_round encodes g w event_ready
        ≡ goes_on
            (record g { subscribers = put g.subscribers w.events (record c { buffer = later }) })
            (record w { sent = send_sse encodes (message_sse x) w.sent })
  unfolding serve_round
  event_round g w c x later open_eq e =
      ap (λ o. show_event encodes g w (receive_from g.subscribers w.events o)) open_eq
      ∙ ap
          (λ (b : List Event). show_event encodes g w (elim b [
            | [] ↦ none
            | y ∷ more ↦ some (y, put g.subscribers w.events (record c { buffer = more }))
          ]))
          e

  -- With as many such rounds as events wait, the viewer has been sent everything.
  IsComplete-drains :
      (evs : List Event) (buffer : List Event) (g : Hub) (w : Viewer)
      (good : IsComplete encodes h v evs g w)
      → good.chan.buffer ≡ buffer
      → (g' : Hub) × (w' : Viewer) × (event_rounds encodes (length buffer) (goes_on g w)
          ≡ goes_on g' w')
        × (messages w'.sent ≡ kept encodes evs)
  unfolding received
  IsComplete-drains evs [] g w good e = (
    g,
    w,
    refl,
    sym (append-nil _) ∙ ap (λ b. messages w.sent ++ kept encodes b) (sym e) ∙ good.whole,
  )
  IsComplete-drains evs (x ∷ later) g w good e =
      let (g', w', run, all) =
        IsComplete-drains evs later
          (record g {
            subscribers = put g.subscribers w.events (record good.chan { buffer = later });
          })
          (record w { sent = send_sse encodes (message_sse x) w.sent })
          (received encodes h v evs g w good x later e) refl in
      (
        g',
        w',
        ap (event_rounds encodes (length later)) (event_round g w good.chan x later good.open_eq e)
            ∙ run,
        all,
      )

abbrev pub opened_hub : (Sse → Bool) → ℕ → Hub → Hub → ℕ → ℕ → ℕ → Hub
opened_hub encodes now h h' ev chat nodes = (open_stream encodes now h h' ev chat nodes).0

abbrev pub opened_viewer : (Sse → Bool) → ℕ → Hub → Hub → ℕ → ℕ → ℕ → Viewer
opened_viewer encodes now h h' ev chat nodes = (open_stream encodes now h h' ev chat nodes).1

open_stream-IsComplete :
    (encodes : Sse → Bool) (now : ℕ) (h h' : Hub) (ev chat nodes : ℕ)
    → let g = opened_hub encodes now h h' ev chat nodes in
      let w = opened_viewer encodes now h h' ev chat nodes in IsComplete encodes g w [] g w
unfolding open_stream send_sse subscribe subscribe_chat subscribe_nodes
open_stream-IsComplete encodes now h h' ev chat nodes = record {
  chan = record { capacity = 128; buffer = [] };
  open_eq = get-put_self h'.subscribers ev (record { capacity = 128; buffer = [] });
  capacity_eq = refl;
  whole =
      append-nil _
      ∙ other-sent encodes h' (record { events = ev; chats = chat; nodes = nodes; sent = [] })
          (snapshot_sse (view now h)) [] refl;
}

-- A viewer connects: it is sent a snapshot, and then it subscribes. From then on events are
-- recorded, each while fewer than 128 wait for this viewer, the loop of its handler makes rounds,
-- in whatever order its select chooses, and the hub changes otherwise in any way that leaves the
-- viewer's channel of events alone. Then the events that the viewer has been sent and those that
-- still wait are together exactly the events recorded, each once and in the order of their
-- recording, less those that do not encode as JSON.
pub Streams-events :
    (encodes : Sse → Bool) (now : ℕ) (h h' : Hub) (ev chat nodes : ℕ) (evs : List Event) (g : Hub)
    (w : Viewer)
    → Streams encodes
        (opened_hub encodes now h h' ev chat nodes)
        (opened_viewer encodes now h h' ev chat nodes)
        evs
        g
        w
    → messages w.sent ++ kept encodes (waiting g w.events) ≡ kept encodes evs
Streams-events encodes now h h' ev chat nodes evs g w s =
    let good =
      Streams-IsComplete encodes (opened_hub encodes now h h' ev chat nodes)
        (opened_viewer encodes now h h' ev chat nodes)
        (open_stream-IsComplete encodes now h h' ev chat nodes) s in
    ap (λ o. messages w.sent ++ kept encodes (elim o [ none ↦ [] | some c ↦ c.buffer ]))
      good.open_eq
    ∙ good.whole

-- The same viewer, at any such moment: with as many rounds in which the select takes an event as
-- events wait, the loop does not end, and the viewer has then been sent exactly the events recorded
-- since it subscribed, each once and in order, less those that do not encode as JSON.
pub Streams-drains :
    (encodes : Sse → Bool) (now : ℕ) (h h' : Hub) (ev chat nodes : ℕ) (evs : List Event) (g : Hub)
    (w : Viewer)
    → Streams encodes
        (opened_hub encodes now h h' ev chat nodes)
        (opened_viewer encodes now h h' ev chat nodes)
        evs
        g
        w
    → (g' : Hub) × (w' : Viewer) × (event_rounds encodes (length (waiting g w.events)) (goes_on g w)
        ≡ goes_on g' w')
      × (messages w'.sent ≡ kept encodes evs)
Streams-drains encodes now h h' ev chat nodes evs g w s =
    let good =
      Streams-IsComplete encodes (opened_hub encodes now h h' ev chat nodes)
        (opened_viewer encodes now h h' ev chat nodes)
        (open_stream-IsComplete encodes now h h' ev chat nodes) s in
    subst
      (λ (o : Option (Chan Event)).
        (g' : Hub) × (w' : Viewer) × (event_rounds encodes
            (length (elim o [ none ↦ [] | some c ↦ c.buffer ])) (goes_on g w)
          ≡ goes_on g' w')
        × (messages w'.sent ≡ kept encodes evs))
      (sym good.open_eq)
      (IsComplete-drains encodes (opened_hub encodes now h h' ev chat nodes)
        (opened_viewer encodes now h h' ev chat nodes) evs good.chan.buffer g w good refl)
