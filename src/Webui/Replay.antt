-- ===== src/Webui/Replay.antt =====
-- internal/broker and internal/webui together: the calls that a broker makes on the hub, made on a
-- hub.
pub mod Ending
use go_meshtastic_serial2tcp.Prelude.{
  ℕ, ◌+◌, ◌≡◌, refl, sym, ap, ◌∙◌, true, Option, none, some, List, [], ◌∷◌, ◌++◌, length,
  length-append, if◌then◌else◌, ◌==◌, arith, some_inj, if_cases,
}
use go_meshtastic_serial2tcp.Prelude.Keys.{Text}
use go_meshtastic_serial2tcp.Prelude.Text.{bytes}
use go_meshtastic_serial2tcp.Frame.{Writer}
use go_meshtastic_serial2tcp.Meshtastic.{Codec}
use go_meshtastic_serial2tcp.Meshtastic.Printer.{Printer}
use go_meshtastic_serial2tcp.Broker.Client.{Client, new_client}
use go_meshtastic_serial2tcp.Broker.Cache.{ready}
use go_meshtastic_serial2tcp.Broker.State.{
  Broker, Direction, serial_to_broker, broker_to_client, client_to_broker, broker_to_serial,
  HubCall, observe_payload, set_status, Status, at_client, publish_status, node_num, describe,
}
use go_meshtastic_serial2tcp.Broker.Delivery.{add_client}
use go_meshtastic_serial2tcp.Webui.Hub.{Hub}
use go_meshtastic_serial2tcp.Webui.Nodes.{notify_nodes}
use go_meshtastic_serial2tcp.Webui.Status
use go_meshtastic_serial2tcp.Webui.Observer
use go_meshtastic_serial2tcp.Webui.Observer.{Ambient}

-- The direction as the broker writes it.
abbrev pub direction_text : Direction → Text
direction_text serial_to_broker = bytes "serial -> broker"
direction_text broker_to_client = bytes "broker -> client"
direction_text client_to_broker = bytes "client -> broker"
direction_text broker_to_serial = bytes "broker -> serial"

-- The address of the client, or the one given if there is none.
abbrev pub addr_or : Text → (ℕ → Client) → Option ℕ → Text
addr_or addr heap none = addr
addr_or addr heap (some cl) = (heap cl).addr

module _ (q : Printer) (p : Codec) (a : Ambient) where
  abbrev pub call : Hub → HubCall → Option Hub
  call h (observe_payload dir addr payload from_radio) =
      Observer.observe_payload q p a h (direction_text dir) addr payload from_radio
  call h (set_status st) = some (Status.set_status a.now h st)

  abbrev pub then_call : Option Hub → HubCall → Option Hub
  then_call none c = none
  then_call (some h) c = call h c

  -- Every call after the other, until one panics.
  abbrev pub replay : Option Hub → List HubCall → Option Hub
  replay o [] = o
  replay o (c ∷ cs) = replay (then_call o c) cs

  pub replay-append :
      (o : Option Hub) (cs ds : List HubCall) → replay o (cs ++ ds) ≡ replay (replay o cs) ds
  replay-append o [] ds = refl
  replay-append o (c ∷ cs) ds = replay-append (then_call o c) cs ds

  pub set_status-status : (h : Hub) (st : Status) → (Status.set_status a.now h st).status ≡ st
  unfolding Status.set_status notify_nodes
  set_status-status h st =
      if_cases (λ (x : Hub). x.status ≡ st) (st.local_node_num == 0) (λ _. refl) (λ _. refl)

  last_status :
      (o : Option Hub) (cs : List HubCall) (st : Status) (g : Hub)
      → replay o (cs ++ (set_status st ∷ [])) ≡ some g
      → g.status ≡ st
  last_status o cs st g e = after (replay o cs) (sym (replay-append o cs (set_status st ∷ [])) ∙ e)
    where
      after : (r : Option Hub) → then_call r (set_status st) ≡ some g → g.status ≡ st
      after none k = absurd cc
      after (some h) k = ap (λ (x : Hub). x.status) (sym (some_inj k)) ∙ set_status-status h st

  -- The status that the broker publishes.
  abbrev status_of : Broker → Status
  status_of b = record {
    serial_connected = true;
    client_count = length b.clients;
    primary_addr = addr_or [] b.heap b.primary;
    cache_ready = ready b.cache;
    cache_summary = some (describe b.cache);
    local_node_num = node_num p b.cache;
  }

  publish_status-status :
      (b : Broker) (calls all : List HubCall) (h g : Hub)
      → b.observability ≡ some calls
      → (publish_status p b).observability ≡ some all
      → replay (some h) all ≡ some g
      → g.status ≡ status_of b
  unfolding publish_status
  publish_status-status b calls all h g e told done =
      last_status (some h) calls (status_of b) g
        (ap (replay (some h)) (some_inj (sym (told_eq e) ∙ told)) ∙ done)
    where
      told_eq :
          b.observability ≡ some calls
          → (publish_status p b).observability ≡ some (calls ++ (set_status (status_of b) ∷ []))
      told_eq k =
          ap
            (λ (o : Option (List HubCall)). elim o [
              | none ↦ none
              | some cs ↦ some (cs ++ (set_status (status_of b) ∷ []))
            ])
            k

  -- A broker that tells a hub of its state has made some calls, and then a client connects. Once
  -- all calls have been made on a hub, and none has panicked, the status that the hub shows is that
  -- of the broker: the serial line is up, one client more than before is counted, the primary's
  -- address is that of the new client if there was no primary and else that of the old one, and the
  -- cache is ready exactly if the broker's cache is.
  pub add_client-status :
      (b : Broker) (cl : ℕ) (conn : Writer) (addr : Text) (calls all : List HubCall) (h g : Hub)
      → b.observability ≡ some calls
      → (add_client p b cl conn addr).observability ≡ some all
      → replay (some h) all ≡ some g
      → (g.status.serial_connected ≡ true)
        × (g.status.client_count ≡ length b.clients + 1)
        × (g.status.primary_addr ≡ addr_or addr (add_client p b cl conn addr).heap b.primary)
        × (g.status.cache_ready ≡ ready b.cache)
  unfolding add_client new_client publish_status
  add_client-status b cl conn addr calls all h g e told done =
      let joined : Broker = record (at_client b cl (new_client conn addr)) {
        clients = b.clients ++ (cl ∷ []);
        primary = elim b.primary [ none ↦ some cl | some x ↦ some x ];
      } in
      let same : g.status ≡ status_of joined =
        publish_status-status joined calls all h g e told done in
      (
        ap (λ (s : Status). s.serial_connected) same,
        ap (λ (s : Status). s.client_count) same
            ∙ (omega (arith, length-append b.clients (cl ∷ []))),
        ap (λ (s : Status). s.primary_addr) same ∙ primary b.primary,
        ap (λ (s : Status). s.cache_ready) same,
      )
    where
      heap : ℕ → Client
      heap x = if cl == x then new_client conn addr else b.heap x

      primary :
          (o : Option ℕ)
          → addr_or [] heap (elim o [ none ↦ some cl | some x ↦ some x ]) ≡ addr_or addr heap o
      primary none = ground arith
      primary (some x) = refl
