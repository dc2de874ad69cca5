-- ===== src/Broker/Client.antt =====
-- internal/broker/broker.go, client: the broker's end of one TCP connection.
use go_meshtastic_serial2tcp.Prelude.{
  ℕ, Bool, true, false, ◌&&◌, ◌||◌, not, List, [], ◌∷◌, ◌++◌, length, ltb, if◌then◌else◌,
}
use go_meshtastic_serial2tcp.Prelude.Keys.{Text}
use go_meshtastic_serial2tcp.Frame.{Writer}

abbrev pub client_send_buffer : ℕ
client_send_buffer = 64

-- `send` is what the channel holds, oldest first; `done` says that the channel `done` is closed,
-- and the connection with it.
pub record Client : Type 0 where
  pub conn : Writer
  pub send : List (List ℕ)
  pub done : Bool
  pub addr : Text
  pub warned_read_only : Bool
  pub warned_slow : Bool

unfoldable pub new_client : Writer → Text → Client
new_client conn addr = record {
  conn = conn;
  send = [];
  done = false;
  addr = addr;
  warned_read_only = false;
  warned_slow = false;
}

-- The channel takes one more payload.
abbrev pub has_room : Client → Bool
has_room c = ltb (length c.send) client_send_buffer

abbrev pub push : Client → List ℕ → Client
push c payload = record c { send = c.send ++ (payload ∷ []) }

unfoldable pub enqueue : Client → List ℕ → Client × Bool
enqueue c payload =
    if c.done then (c, false) else if has_room c then (push c payload, true) else (c, false)

-- The select of enqueueWithTimeout, once it fires: `takes` is its choice where the send and a
-- closed channel are both ready; with neither ready the timer fires.
unfoldable pub enqueue_with_timeout : Client → List ℕ → Bool → Bool → Client × Bool
enqueue_with_timeout c payload broker_done takes =
    if has_room c && (takes || not (c.done || broker_done))
    then (push c payload, true)
    else (c, false)

unfoldable pub mark_read_only_warning : Client → Client × Bool
mark_read_only_warning c =
    if c.warned_read_only then (c, false) else (record c { warned_read_only = true }, true)

unfoldable pub mark_slow_warning : Client → Client × Bool
mark_slow_warning c = if c.warned_slow then (c, false) else (record c { warned_slow = true }, true)

-- closeOnce: a second call does nothing
unfoldable pub close : Client → Client
close c = record c { done = true }
