-- ===== src/Broker/Delivery.antt =====
-- internal/broker/broker.go: clients come and go, and get payloads.
pub mod Laws
pub mod Status
pub mod Invariant
pub mod Stream
pub mod Serial
pub mod Requests
use go_meshtastic_serial2tcp.Prelude.{
  ℕ, zero, suc, Bool, true, false, ◌||◌, Option, none, some, List, [], ◌∷◌, ◌++◌, if◌then◌else◌,
  ◌==◌,
}
use go_meshtastic_serial2tcp.Prelude.Keys.{Text}
use go_meshtastic_serial2tcp.Frame.{Writer, WriteError, write_frame}
use go_meshtastic_serial2tcp.Meshtastic.{Codec}
use go_meshtastic_serial2tcp.Broker.Client.{
  Client, new_client, enqueue, mark_read_only_warning, mark_slow_warning, close,
}
use go_meshtastic_serial2tcp.Broker.Cache.{Bytes}
use go_meshtastic_serial2tcp.Broker.State.{
  Broker, at_client, log_decoded_payload, broker_to_client, publish_status,
}
use go_meshtastic_serial2tcp.Broker.Pending.{drop_pending_for_client, is_client}

-- b.clients is a map to struct{}, so a set
abbrev pub contains : List ℕ → ℕ → Bool
contains [] cl = false
contains (x ∷ xs) cl = (x == cl) || contains xs cl

abbrev pub without : List ℕ → ℕ → List ℕ
without [] cl = []
without (x ∷ xs) cl = if x == cl then without xs cl else x ∷ without xs cl

-- for candidate := range b.clients { …; break }
abbrev pub first_of_clients : List ℕ → Option ℕ
first_of_clients [] = none
first_of_clients (x ∷ xs) = some x

-- The part of removeClient under the lock of the clients: the primary's place goes to whichever
-- client `range` gives first.
pub forget_client : Broker → ℕ → Broker
forget_client b cl =
    let left = without b.clients cl in
    record b {
      clients = left;
      primary = if is_client cl b.primary then first_of_clients left else b.primary;
    }

pub close_client : Broker → ℕ → Broker
close_client b cl = at_client b cl (close (b.heap cl))

unfoldable pub warn_read_only_client : Broker → ℕ → Broker
warn_read_only_client b cl = at_client b cl (mark_read_only_warning (b.heap cl)).0

module _ (p : Codec) where
  unfoldable pub add_client : Broker → ℕ → Writer → Text → Broker
  add_client b cl conn addr = publish_status p (record (at_client b cl (new_client conn addr)) {
    clients = b.clients ++ (cl ∷ []);
    primary = elim b.primary [ none ↦ some cl | some x ↦ some x ];
  })

  pub remove_client : Broker → ℕ → Broker
  unfolding forget_client close_client
  remove_client b cl =
      let closed = close_client (drop_pending_for_client (forget_client b cl) cl) cl in
      if contains b.clients cl then publish_status p closed else closed

  unfoldable pub remove_clients : Broker → List ℕ → Broker
  remove_clients b [] = b
  remove_clients b (cl ∷ cls) = remove_clients (remove_client b cl) cls

  -- CloseAll, over the clients of the moment at which it starts
  unfoldable pub close_all : Broker → Broker
  unfolding remove_clients
  close_all b = remove_clients b b.clients

  pub disconnect_slow_client : Broker → ℕ → Broker
  disconnect_slow_client b cl =
      if (b.heap cl).done
      then b
      else remove_client (at_client b cl (mark_slow_warning (b.heap cl)).0) cl

  -- What both sends do with the outcome of the enqueue.
  abbrev pub after_enqueue : Broker → ℕ → Bytes → Client × Bool → Broker × Bool
  after_enqueue b cl payload (c, true) =
      (log_decoded_payload (at_client b cl c) broker_to_client (b.heap cl).addr payload true, true)
  after_enqueue b cl payload (c, false) = (disconnect_slow_client b cl, false)

  unfoldable pub send_to_client : Broker → ℕ → Bytes → Broker
  send_to_client b cl payload = (after_enqueue b cl payload (enqueue (b.heap cl) payload)).0

  pub broadcast_to : List ℕ → Broker → Bytes → Option ℕ → Broker
  broadcast_to [] b payload except = b
  broadcast_to (cl ∷ cls) b payload except =
      broadcast_to cls (if is_client cl except then b else send_to_client b cl payload) payload
        except

  -- snapshotClients, then one send each
  pub broadcast_except : Broker → Bytes → Option ℕ → Broker
  unfolding broadcast_to
  broadcast_except b payload except = broadcast_to b.clients b payload except

  unfoldable pub broadcast : Broker → Bytes → Broker
  broadcast b payload = broadcast_except b payload none

  -- A write to the connection that failed ends the client.
  unfoldable pub written : Broker → ℕ → Option WriteError → Broker
  written b cl none = b
  written b cl (some e) = remove_client b cl

  -- The payload that writeLoop takes off the channel is lost if the connection refuses it. The
  -- bufio.Writer in between, which is flushed after each payload, is left out: it only joins
  -- pieces.
  unfoldable pub write_front : Broker → ℕ → List Bytes → Broker
  unfolding written
  write_front b cl [] = b
  write_front b cl (payload ∷ rest) =
      let (conn, e) = write_frame (b.heap cl).conn payload in
      written (at_client b cl (record (b.heap cl) { conn = conn; send = rest })) cl e

  -- One round of writeLoop.
  unfoldable pub write_round : Broker → ℕ → Broker
  unfolding write_front
  write_round b cl =
      if b.done
      then remove_client b cl
      else if (b.heap cl).done
      then b
      else write_front b cl (b.heap cl).send

  unfoldable pub write_rounds : ℕ → Broker → ℕ → Broker
  write_rounds zero b cl = b
  write_rounds (suc n) b cl = write_rounds n (write_round b cl) cl
