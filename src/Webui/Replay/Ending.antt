-- ===== src/Webui/Replay/Ending.antt =====
-- internal/server/server.go, Run: the end of a session, as the web UI sees it.
use go_meshtastic_serial2tcp.Prelude.{
  ℕ, ◌≡◌, refl, sym, ap, ◌∙◌, subst, true, not, Option, none, some, List, [], ◌∷◌, length, is_nil,
  arith, Bool-cases, inl, inr,
}
use go_meshtastic_serial2tcp.Meshtastic.{Codec}
use go_meshtastic_serial2tcp.Meshtastic.Printer.{Printer}
use go_meshtastic_serial2tcp.Broker.State.{Broker, Status, HubCall}
use go_meshtastic_serial2tcp.Broker.Delivery.{contains, remove_client, remove_clients, close_all}
use go_meshtastic_serial2tcp.Broker.Delivery.Status.{
  remove_client-Published, remove_client-quiet, close_all-clients,
}
use go_meshtastic_serial2tcp.Webui.Hub.{Hub, zero_status}
use go_meshtastic_serial2tcp.Webui.Status
use go_meshtastic_serial2tcp.Webui.Observer.{Ambient}
use go_meshtastic_serial2tcp.Webui.Replay.{replay, replay-append, set_status-status}

module _ (q : Printer) (p : Codec) (a : Ambient) where
  -- The calls that a broker makes on the hub `h`.
  abbrev pub hears : Hub → Option (List HubCall) → Option Hub
  hears h none = some h
  hears h (some calls) = replay q p a (some h) calls

  -- hub.SetStatus, and then b.CloseAll on a session whose broker has the hub; `none` is a panic.
  unfoldable pub end_session : Broker → Hub → Option Hub
  end_session b h =
      hears (Status.set_status a.now h zero_status)
        (close_all p (record b { observability = some [] })).observability

  module _ (h : Hub) where
    -- A hub that shows a session with these clients.
    abbrev Shows : List ℕ → Option (List HubCall) → Type 0
    Shows clients calls =
        (g : Hub) × (hears h calls ≡ some g)
        × (g.status.serial_connected ≡ true)
        × (g.status.client_count ≡ length clients)

    published-Shows :
        (b : Broker) (cl : ℕ) (calls : List HubCall) (g : Hub)
        → b.observability ≡ some calls
        → replay q p a (some h) calls ≡ some g
        → contains b.clients cl ≡ true
        → Shows (remove_client p b cl).clients (remove_client p b cl).observability
    published-Shows b cl calls g told so_far there =
        let (st, after, up, count) = remove_client-Published p b cl calls told there in
        let same = set_status-status q p a g st in
        (
          Status.set_status a.now g st,
          ap (hears h) after
              ∙ replay-append q p a (some h) calls _
              ∙ ap (λ o. replay q p a o (HubCall.set_status st ∷ [])) so_far,
          ap (λ (s : Status). s.serial_connected) same ∙ up,
          ap (λ (s : Status). s.client_count) same ∙ count,
        )

    remove_clients-Shows :
        (cls : List ℕ) (b : Broker) (calls : List HubCall)
        → b.observability ≡ some calls
        → Shows b.clients b.observability
        → Shows (remove_clients p b cls).clients (remove_clients p b cls).observability
    unfolding remove_clients
    remove_clients-Shows [] b calls told shows = shows
    remove_clients-Shows (cl ∷ cls) b calls told (g, heard, up, count) =
        let so_far = ap (hears h) (sym told) ∙ heard in
        elim (Bool-cases (contains b.clients cl)) [
          | inl there ↦
              let (st, after, _, _) = remove_client-Published p b cl calls told there in
              remove_clients-Shows cls (remove_client p b cl) _ after
                (published-Shows b cl calls g told so_far there)
          | inr gone ↦
              let (calls_eq, clients_eq) = remove_client-quiet p b cl gone in
              remove_clients-Shows cls (remove_client p b cl) calls (calls_eq ∙ told)
                (g, ap (hears h) calls_eq ∙ heard, up, count ∙ ap length (sym clients_eq))
        ]

  -- Whatever the hub showed before, what it shows once a session has ended.
  abbrev Ends : Hub → List ℕ → Option (List HubCall) → Type 0
  Ends h clients calls =
      (g : Hub) × (hears (Status.set_status a.now h zero_status) calls ≡ some g)
      × (g.status.serial_connected ≡ not (is_nil clients))
      × (g.status.client_count ≡ 0)

  remove_clients-Ends :
      (h : Hub) (b : Broker) (cls : List ℕ)
      → b.clients ≡ cls
      → b.observability ≡ some []
      → (remove_clients p b cls).clients ≡ []
      → Ends h cls (remove_clients p b cls).observability
  unfolding remove_clients
  remove_clients-Ends h b [] e told empty =
      let same = set_status-status q p a h zero_status in
      (
        Status.set_status a.now h zero_status,
        ap (hears (Status.set_status a.now h zero_status)) told,
        ap (λ (s : Status). s.serial_connected) same,
        ap (λ (s : Status). s.client_count) same,
      )
  remove_clients-Ends h b (cl ∷ cls) e told empty =
      let d = Status.set_status a.now h zero_status in
      let there : contains b.clients cl ≡ true =
        subst (λ l. contains l cl ≡ true) (sym e) (ground arith) in
      let (st, after, _, _) = remove_client-Published p b cl [] told there in
      let (g, heard, up, count) =
        remove_clients-Shows d cls (remove_client p b cl) _ after
          (published-Shows d b cl [] d told refl there) in
      (g, heard, up, count ∙ ap length empty)

  -- At the end of a session Run tells the hub that no serial line is connected, and then closes all
  -- clients. This does not panic. Afterwards the hub shows no client; and it shows that the serial
  -- line is connected if there was a client, and that it is not if there was none.
  pub end_session-status :
      (b : Broker) (h : Hub)
      → (g : Hub) × (end_session b h ≡ some g)
        × (g.status.serial_connected ≡ not (is_nil b.clients))
        × (g.status.client_count ≡ 0)
  unfolding end_session close_all
  end_session-status b h =
      let ending = record b { observability = some [] } in
      remove_clients-Ends h ending b.clients refl refl (close_all-clients p ending)
