-- ===== src/Server/Accept.antt =====
-- internal/server/server.go: the goroutine of Run that accepts connections, with acceptWithContext.
mod Tests
use go_meshtastic_serial2tcp.Prelude.{
  ℕ, ◌≡◌, refl, sym, ◌∙◌, Bool, true, false, Option, none, some, List, [], ◌∷◌, ◌++◌, append_assoc,
  append-nil,
}
use go_meshtastic_serial2tcp.Prelude.Keys.{Text}
use go_meshtastic_serial2tcp.Frame.{Writer}
use go_meshtastic_serial2tcp.Meshtastic.{Codec}
use go_meshtastic_serial2tcp.Broker.State.{Broker, publish_status}
use go_meshtastic_serial2tcp.Broker.Delivery.{add_client}

-- A new connection: the number of its client, where it writes, and its address.
pub record Conn : Type 0 where
  pub client : ℕ
  pub writer : Writer
  pub addr : Text

-- What a call of Accept gives within its second. `canceled` is whether the context has ended.
pub data Arrival : Type 0 where
  connected : Conn → Arrival
  timed_out : (canceled : Bool) → Arrival
  broken : Arrival

pub data Accepted : Type 0 where
  accepted : Conn → List Arrival → Accepted
  context_ended accept_error : Accepted
  -- the attempts at hand are over, and the loop still waits
  pending : Accepted

-- acceptWithContext of a TCP listener, with the attempts that are left
unfoldable pub accept_with_context : List Arrival → Accepted
accept_with_context [] = pending
accept_with_context (connected c ∷ later) = accepted c later
accept_with_context (timed_out true ∷ later) = context_ended
accept_with_context (timed_out false ∷ later) = accept_with_context later
accept_with_context (broken ∷ later) = accept_error

-- How the goroutine ends: at an error, which goes to Run unless the context has ended.
pub data GoroutineEnd : Type 0 where
  still_accepting ended_quietly error_reported : GoroutineEnd

-- `current`, the connections that have been closed, oldest first, and how it ended
pub record Accepting : Type 0 where
  pub current : Option Broker
  pub rejected : List ℕ
  pub result : GoroutineEnd

module _ (p : Codec) where
  -- A connection is closed at once where no session runs.
  abbrev pub serve_connection : Option Broker → List ℕ → Conn → Option Broker × List ℕ
  serve_connection none rejected c = (none, rejected ++ (c.client ∷ []))
  serve_connection (some b) rejected c = (some (add_client p b c.client c.writer c.addr), rejected)

  -- The loop, on attempts during which `current` stays the same broker or nil.
  unfoldable pub accept_loop : Option Broker → List ℕ → List Arrival → Accepting
  accept_loop current rejected [] = record {
    current = current;
    rejected = rejected;
    result = still_accepting;
  }
  accept_loop current rejected (connected c ∷ later) =
      let (next, closed) = serve_connection current rejected c in accept_loop next closed later
  accept_loop current rejected (timed_out true ∷ later) = record {
    current = current;
    rejected = rejected;
    result = ended_quietly;
  }
  accept_loop current rejected (timed_out false ∷ later) = accept_loop current rejected later
  accept_loop current rejected (broken ∷ later) = record {
    current = current;
    rejected = rejected;
    result = error_reported;
  }

-- The connections that come before the first error or the end of the context.
abbrev pub arrivals : List Arrival → List ℕ
arrivals [] = []
arrivals (connected c ∷ later) = c.client ∷ arrivals later
arrivals (timed_out true ∷ later) = []
arrivals (timed_out false ∷ later) = arrivals later
arrivals (broken ∷ later) = []

abbrev pub clients_of : Option Broker → List ℕ
clients_of none = []
clients_of (some b) = b.clients

-- Who has been let in, and who has been sent away.
abbrev pub Serves : Option Broker → List ℕ → List ℕ → Accepting → Type 0
Serves none rejected arrived after =
    (clients_of after.current ≡ []) × (after.rejected ≡ rejected ++ arrived)
Serves (some b) rejected arrived after =
    (clients_of after.current ≡ b.clients ++ arrived) × (after.rejected ≡ rejected)

module _ (p : Codec) where
  abbrev continue_with : Option Broker → List ℕ → Accepted → Accepting
  continue_with current rejected pending = record {
    current = current;
    rejected = rejected;
    result = still_accepting;
  }
  continue_with current rejected (accepted c later) =
      let (next, closed) = serve_connection p current rejected c in accept_loop p next closed later
  continue_with current rejected context_ended = record {
    current = current;
    rejected = rejected;
    result = ended_quietly;
  }
  continue_with current rejected accept_error = record {
    current = current;
    rejected = rejected;
    result = error_reported;
  }

  -- The loop is the goroutine's: it calls acceptWithContext, and does with the result what the
  -- goroutine does.
  accept_loop-accept_with_context :
      (current : Option Broker) (rejected : List ℕ) (attempts : List Arrival)
      → accept_loop p current rejected attempts
        ≡ continue_with current rejected (accept_with_context attempts)
  unfolding accept_loop accept_with_context
  accept_loop-accept_with_context current rejected [] = refl
  accept_loop-accept_with_context current rejected (connected c ∷ later) = refl
  accept_loop-accept_with_context current rejected (timed_out true ∷ later) = refl
  accept_loop-accept_with_context current rejected (timed_out false ∷ later) =
      accept_loop-accept_with_context current rejected later
  accept_loop-accept_with_context current rejected (broken ∷ later) = refl

  Serves-end :
      (current : Option Broker) (rejected : List ℕ) (r : GoroutineEnd)
      → Serves current rejected [] (record { current = current; rejected = rejected; result = r })
  Serves-end none rejected r = (refl, sym (append-nil rejected))
  Serves-end (some b) rejected r = (sym (append-nil b.clients), refl)

  -- While `current` stays as it is, every connection that comes before the first error of Accept and
  -- before the end of the context is served exactly once: with a session all become clients of its
  -- broker, after those that it has, in the order in which they come, and none is closed; without a
  -- session each is closed, and none is registered. Attempts that time out change nothing.
  pub accept_loop-Serves :
      (current : Option Broker) (rejected : List ℕ) (attempts : List Arrival)
      → Serves current rejected (arrivals attempts) (accept_loop p current rejected attempts)
  unfolding accept_loop add_client publish_status
  accept_loop-Serves current rejected [] = Serves-end current rejected still_accepting
  accept_loop-Serves none rejected (connected c ∷ later) =
      let (clients, closed) = accept_loop-Serves none (rejected ++ (c.client ∷ [])) later in
      (clients, closed ∙ append_assoc rejected (c.client ∷ []) (arrivals later))
  accept_loop-Serves (some b) rejected (connected c ∷ later) =
      let (clients, closed) =
        accept_loop-Serves (some (add_client p b c.client c.writer c.addr)) rejected later in
      (clients ∙ append_assoc b.clients (c.client ∷ []) (arrivals later), closed)
  accept_loop-Serves current rejected (timed_out true ∷ later) =
      Serves-end current rejected ended_quietly
  accept_loop-Serves current rejected (timed_out false ∷ later) =
      accept_loop-Serves current rejected later
  accept_loop-Serves current rejected (broken ∷ later) = Serves-end current rejected error_reported
