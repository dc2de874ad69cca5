-- ===== src/Webui/Radio.antt =====
-- internal/webui/sender.go, Radio: what the hub asks of a broker session; chat.go, radio;
-- canned.go.
use go_meshtastic_serial2tcp.Prelude.{ℕ, Option, none, some}
use go_meshtastic_serial2tcp.Prelude.Keys.{ℤ, Text}
use go_meshtastic_serial2tcp.Meshtastic.{Codec}
use go_meshtastic_serial2tcp.Broker.State.{Broker, node_num}
use go_meshtastic_serial2tcp.Broker.Chat.{Sent, send_text_message}
use go_meshtastic_serial2tcp.Broker.Canned.Fetch.{Fetch, begin_fetch}

-- `S` is the state of the session. LocalNodeNum is 0 where it is not known. FetchCannedMessages is
-- what it does up to its select.
pub record Radio (S : Type 0) : Type 0 where
  pub send_text_message : S → ℤ → ℕ → Text → S × Sent
  pub local_node_num : S → ℕ
  pub fetch_canned_messages : S → S × Fetch

-- What h.radio() returns: the nil interface, one that holds a nil *broker.Broker, which is what the
-- server's provider returns while no session runs, or a session.
pub data Provided (S : Type 0) : Type 0 where
  no_radio : Provided S
  nil_broker : Provided S
  active : Radio S → Provided S

-- What tryRecordChatPacket finds; `none` is a panic.
unfoldable pub local_of : {S : Type 0} → Provided S → S → Option ℕ
local_of no_radio s = some 0
local_of nil_broker s = none
local_of (active r) s = some (r.local_node_num s)

-- The session of a broker. `draws` are the random words for the packet and for the fetch.
unfoldable pub broker_radio : Codec → ℕ → Option ℕ → Option ℕ → Radio Broker
broker_radio p now draw fetch_draw = record {
  send_text_message = λ b ch to text. send_text_message p b ch to text draw;
  local_node_num = λ b. node_num p b.cache;
  fetch_canned_messages = λ b. begin_fetch p now b fetch_draw;
}
