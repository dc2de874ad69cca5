-- ===== src/Webui/Http/Stream/Complete.antt =====
-- internal/webui/server.go, handleEvents: what has been sent and what still waits.
use go_meshtastic_serial2tcp.Prelude.{
  ℕ, zero, suc, ◌≡◌, ◌<◌, refl, sym, ap, ◌∙◌, Bool, Option, none, some, List, [], ◌∷◌, ◌++◌,
  append_assoc, append-nil, length, if◌then◌else◌, arith, Bool-cases, inl, inr, subst,
}
use go_meshtastic_serial2tcp.Prelude.Keys.{nat_key}
use go_meshtastic_serial2tcp.Prelude.Assoc.{Assoc, get, put, get-put_self}
use go_meshtastic_serial2tcp.Webui.Hub.{
  Hub, Event, Chan, record_event, complete_event, ChatMessage, offer_to,
}
use go_meshtastic_serial2tcp.Webui.Hub.Laws.{get-offer_all}
use go_meshtastic_serial2tcp.Webui.Node.{NodeView}
use go_meshtastic_serial2tcp.Prelude.Sorted.By.{sort_by}
use go_meshtastic_serial2tcp.Webui.Http.{num_of}
use go_meshtastic_serial2tcp.Webui.Http.Stream.{
  Sse, snapshot_sse, message_sse, chat_sse, nodes_sse, Viewer, send_sse, receive_from, Choice,
  event_ready, chat_ready, nodes_ready, context_done, Served, goes_on, ended, show_event, show_chat,
  show_nodes, serve_round,
}

module _ (encodes : Sse → Bool) where
  -- The events that encode as JSON.
  abbrev pub kept : List Event → List Event
  kept [] = []
  kept (ev ∷ evs) = if encodes (message_sse ev) then ev ∷ kept evs else kept evs

  -- Rounds in which the select takes an event.
  abbrev pub event_rounds : ℕ → Served → Served
  event_rounds zero s = s
  event_rounds (suc n) (ended g) = ended g
  event_rounds (suc n) (goes_on g w) = event_rounds n (serve_round encodes g w event_ready)

-- The events that a viewer has been sent.
abbrev pub messages : List Sse → List Event
messages [] = []
messages (snapshot_sse x ∷ xs) = messages xs
messages (message_sse ev ∷ xs) = ev ∷ messages xs
messages (chat_sse x ∷ xs) = messages xs
messages (nodes_sse x ∷ xs) = messages xs

-- The events that wait in a channel.
abbrev pub waiting : Hub → ℕ → List Event
waiting h id = elim (get h.subscribers id) [ none ↦ [] | some c ↦ c.buffer ]

module _ (encodes : Sse → Bool) (h : Hub) (v : Viewer) where
  -- From `h` and `v` on: events are recorded, which the list names as they are stored, while fewer
  -- than 128 wait for the viewer; the viewer's loop makes rounds; and whatever else changes the hub
  -- leaves the viewer's channel of events alone.
  pub data Streams : List Event → Hub → Viewer → Type 0 where
    starts : Streams [] h v
    records :
        {evs : List Event} {g : Hub} {w : Viewer}
        → Streams evs g w
        → (now : ℕ) (ev : Event) → length (waiting g w.events) < 128
        → (more : List Event) → more ≡ evs ++ (complete_event now g ev ∷ [])
        → Streams more (record_event now g ev) w
    serves :
        {evs : List Event} {g : Hub} {w : Viewer}
        → Streams evs g w
        → (choice : Choice) (g' : Hub) (w' : Viewer)
        → serve_round encodes g w choice ≡ goes_on g' w'
        → Streams evs g' w'
    changes :
        {evs : List Event} {g : Hub} {w : Viewer}
        → Streams evs g w
        → (g' : Hub) → get g'.subscribers w.events ≡ get g.subscribers w.events
        → Streams evs g' w

  kept-append : (xs ys : List Event) → kept encodes (xs ++ ys) ≡ kept encodes xs ++ kept encodes ys
  kept-append [] ys = refl
  kept-append (x ∷ xs) ys = elim (Bool-cases (encodes (message_sse x))) [
    | inl e ↦ rw e (ap (λ t. x ∷ t) (kept-append xs ys))
    | inr e ↦ rw e (kept-append xs ys)
  ]

  messages-append : (xs ys : List Sse) → messages (xs ++ ys) ≡ messages xs ++ messages ys
  messages-append [] ys = refl
  messages-append (snapshot_sse x ∷ xs) ys = messages-append xs ys
  messages-append (message_sse x ∷ xs) ys = ap (λ t. x ∷ t) (messages-append xs ys)
  messages-append (chat_sse x ∷ xs) ys = messages-append xs ys
  messages-append (nodes_sse x ∷ xs) ys = messages-append xs ys

  -- What is sent and what waits are all the events.
  pub record IsComplete (evs : List Event) (g : Hub) (w : Viewer) : Type 0 where
    pub chan : Chan Event
    pub open_eq : get g.subscribers w.events ≡ some chan
    pub capacity_eq : chan.capacity ≡ 128
    pub whole : messages w.sent ++ kept encodes chan.buffer ≡ kept encodes evs

  pub other-sent :
      (x : Sse) (sent : List Sse)
      → messages (x ∷ []) ≡ []
      → messages (send_sse encodes x sent) ≡ messages sent
  unfolding send_sse
  other-sent x sent e = elim (Bool-cases (encodes x)) [
    | inl t ↦ rw t (messages-append sent (x ∷ []) ∙ ap (λ r. messages sent ++ r) e ∙ append-nil _)
    | inr t ↦ rw t refl
  ]

  pub event-sent :
      (ev : Event) (sent : List Sse) (later : List Event)
      → messages (send_sse encodes (message_sse ev) sent) ++ kept encodes later
        ≡ messages sent ++ kept encodes (ev ∷ later)
  unfolding send_sse
  event-sent ev sent later = elim (Bool-cases (encodes (message_sse ev))) [
    | inl t ↦ rw t (
        ap (λ r. r ++ kept encodes later) (messages-append sent (message_sse ev ∷ []))
        ∙ append_assoc (messages sent) (ev ∷ []) (kept encodes later))
    | inr t ↦ rw t refl
  ]

  recorded-IsComplete :
      (evs : List Event) (g : Hub) (w : Viewer) (now : ℕ) (ev : Event)
      → length (waiting g w.events) < 128
      → IsComplete evs g w
      → IsComplete (evs ++ (complete_event now g ev ∷ [])) (record_event now g ev) w
  unfolding record_event
  recorded-IsComplete evs g w now ev room good =
      let x = complete_event now g ev in
      let c = good.chan in
      let free : length c.buffer < 128 =
        subst (λ o. length (elim o [ none ↦ [] | some d ↦ d.buffer ]) < 128) good.open_eq room in
      record {
        chan = record c { buffer = c.buffer ++ (x ∷ []) };
        open_eq =
            get-offer_all x g.subscribers w.events c good.open_eq
            ∙ ap some (offered x c (subst (λ n. length c.buffer < n) (sym good.capacity_eq) free));
        capacity_eq = good.capacity_eq;
        whole =
            ap (λ t. messages w.sent ++ t) (kept-append c.buffer (x ∷ []))
            ∙ sym (append_assoc (messages w.sent) (kept encodes c.buffer) (kept encodes (x ∷ [])))
            ∙ ap (λ t. t ++ kept encodes (x ∷ [])) good.whole
            ∙ sym (kept-append evs (x ∷ []));
      }
    where
      offered :
          (x : Event) (c : Chan Event)
          → length c.buffer < c.capacity
          → offer_to x c ≡ record c { buffer = c.buffer ++ (x ∷ []) }
      offered x c k = ground arith

  abbrev AfterRound : List Event → Served → Type 0
  AfterRound evs (goes_on g w) = IsComplete evs g w
  AfterRound evs (ended g) = Unit

  -- What is sent besides the events changes nothing of it.
  with_other :
      (evs : List Event) (g g' : Hub) (w : Viewer) (x : Sse)
      → messages (x ∷ []) ≡ []
      → g'.subscribers ≡ g.subscribers
      → IsComplete evs g w
      → IsComplete evs g' (record w { sent = send_sse encodes x w.sent })
  with_other evs g g' w x silent same good = record {
    chan = good.chan;
    open_eq = ap (λ m. get m w.events) same ∙ good.open_eq;
    capacity_eq = good.capacity_eq;
    whole = ap (λ t. t ++ kept encodes good.chan.buffer) (other-sent x w.sent silent) ∙ good.whole;
  }

  show_chat-IsComplete :
      (evs : List Event) (g : Hub) (w : Viewer)
      (o : Option (ChatMessage × Assoc ℕ (Chan ChatMessage)))
      → IsComplete evs g w
      → AfterRound evs (show_chat encodes g w o)
  show_chat-IsComplete evs g w none good = good
  show_chat-IsComplete evs g w (some (msg, subs)) good =
      with_other evs g (record g { chat_subs = subs }) w (chat_sse msg) refl refl good

  show_nodes-IsComplete :
      (evs : List Event) (g : Hub) (w : Viewer)
      (o : Option (List NodeView × Assoc ℕ (Chan (List NodeView))))
      → IsComplete evs g w
      → AfterRound evs (show_nodes encodes g w o)
  show_nodes-IsComplete evs g w none good = good
  show_nodes-IsComplete evs g w (some (ns, subs)) good =
      with_other evs g (record g { node_subs = subs }) w (nodes_sse (sort_by num_of ns)) refl refl
        good

  unfoldable pub received :
      (evs : List Event) (g : Hub) (w : Viewer) (good : IsComplete evs g w) (x : Event)
      (later : List Event)
      → good.chan.buffer ≡ x ∷ later
      → IsComplete evs
          (record g {
            subscribers = put g.subscribers w.events (record good.chan { buffer = later });
          })
          (record w { sent = send_sse encodes (message_sse x) w.sent })
  received evs g w good x later e = record {
    chan = record good.chan { buffer = later };
    open_eq = get-put_self g.subscribers w.events (record good.chan { buffer = later });
    capacity_eq = good.capacity_eq;
    whole =
        event-sent x w.sent later
        ∙ ap (λ t. messages w.sent ++ kept encodes t) (sym e)
        ∙ good.whole;
  }

  show_event-IsComplete :
      (evs : List Event) (g : Hub) (w : Viewer) (good : IsComplete evs g w) (buffer : List Event)
      → good.chan.buffer ≡ buffer
      → AfterRound evs (
          show_event encodes g w
            (receive_from g.subscribers w.events (some (record good.chan { buffer = buffer }))))
  show_event-IsComplete evs g w good [] e = good
  show_event-IsComplete evs g w good (x ∷ later) e = received evs g w good x later e

  serve_round-IsComplete :
      (evs : List Event) (g : Hub) (w : Viewer) (choice : Choice)
      → IsComplete evs g w
      → AfterRound evs (serve_round encodes g w choice)
  unfolding serve_round
  serve_round-IsComplete evs g w context_done good = tt
  serve_round-IsComplete evs g w event_ready good =
      subst (λ o. AfterRound evs (show_event encodes g w (receive_from g.subscribers w.events o)))
        (sym good.open_eq) (show_event-IsComplete evs g w good good.chan.buffer refl)
  serve_round-IsComplete evs g w chat_ready good = show_chat-IsComplete evs g w _ good
  serve_round-IsComplete evs g w nodes_ready good = show_nodes-IsComplete evs g w _ good

  pub Streams-IsComplete :
      {evs : List Event} {g : Hub} {w : Viewer}
      → IsComplete [] h v
      → Streams evs g w
      → IsComplete evs g w
  Streams-IsComplete start starts = start
  Streams-IsComplete start (records {evs} {g} {w} s now ev room more e) =
      subst (λ l. IsComplete l (record_event now g ev) w) (sym e)
        (recorded-IsComplete evs g w now ev room (Streams-IsComplete start s))
  Streams-IsComplete start (serves {evs} {g} {w} s choice g' w' e) =
      subst (AfterRound evs) e (serve_round-IsComplete evs g w choice (Streams-IsComplete start s))
  Streams-IsComplete start (changes {evs} {g} {w} s g' same) =
      let good = Streams-IsComplete start s in
      record {
        chan = good.chan;
        open_eq = same ∙ good.open_eq;
        capacity_eq = good.capacity_eq;
        whole = good.whole;
      }
