-- ===== src/Webui/Http.antt =====
-- internal/webui/server.go: the HTTP handlers. A request is its method and what the handler reads
-- of it; what the handler writes is a value, and its encoding as JSON is left out. Start only wires
-- the handlers to net/http.
pub mod Order
pub mod Stream
use go_meshtastic_serial2tcp.Prelude.{ℕ, Option, none, some, List, if◌then◌else◌, ◌==◌}
use go_meshtastic_serial2tcp.Prelude.Keys.{ℤ, Text, text_eq, int_key, nat_key}
use go_meshtastic_serial2tcp.Prelude.Text.{bytes}
use go_meshtastic_serial2tcp.Prelude.Sorted.By.{sort_by}
use go_meshtastic_serial2tcp.Meshtastic.Printer.{Printer}
use go_meshtastic_serial2tcp.Broker.State.{Error, Status}
use go_meshtastic_serial2tcp.Broker.Canned.Fetch.{Fetch, answered, failed, waiting}
use go_meshtastic_serial2tcp.Webui.Node.{NodeView}
use go_meshtastic_serial2tcp.Webui.Hub.{Hub, Event, ChannelInfo, ChatMessage}
use go_meshtastic_serial2tcp.Webui.Nodes.{broadcast_node, snapshot_nodes}
use go_meshtastic_serial2tcp.Webui.Packets.{snapshot_chat}
use go_meshtastic_serial2tcp.Webui.Status.{snapshot}
use go_meshtastic_serial2tcp.Webui.Radio.{Provided}
use go_meshtastic_serial2tcp.Webui.Send.{
  ChatSent, chat_sent, chat_refused, not_connected, panicked, CannedFetched, fetching, unavailable,
  send_chat, fetch_canned,
}

abbrev pub index_of : ChannelInfo → ℤ
index_of ch = ch.index

abbrev pub num_of : NodeView → ℕ
num_of n = n.num

-- What a viewer is shown of the hub.
pub record View : Type 0 where
  pub events : List Event
  pub channels : List ChannelInfo
  pub nodes : List NodeView
  pub status : Status
  pub chats : List ChatMessage

unfoldable pub view : ℕ → Hub → View
unfolding snapshot
view now h =
    let (events, channels, status) = snapshot h in
    record {
      events = events;
      channels = sort_by index_of channels;
      nodes = sort_by num_of (snapshot_nodes now h);
      status = status;
      chats = snapshot_chat h;
    }

-- `panic` is a panic of the handler, on which net/http drops the connection.
pub data Response : Type 0 where
  method_not_allowed invalid_json streaming_unsupported panic : Response
  shown : View → Response
  message : ChatMessage → Response
  messages : List Text → Response
  error : Error → Response
  radio_not_connected : Response

abbrev pub get_method : Text
get_method = bytes "GET"

abbrev pub post_method : Text
post_method = bytes "POST"

unfoldable pub handle_snapshot : Text → ℕ → Hub → Response
unfolding view
handle_snapshot method now h =
    if text_eq method get_method then shown (view now h) else method_not_allowed

pub record ChatSendRequest : Type 0 where
  pub channel : ℤ
  pub to : ℕ
  pub text : Text

abbrev pub chat_response : ChatSent → Response
chat_response (chat_sent msg) = message msg
chat_response (chat_refused e) = error e
chat_response not_connected = radio_not_connected
chat_response ChatSent.panicked = panic

module _ (q : Printer) {S : Type 0} where
  abbrev pub respond : Hub × S × ChatSent → Hub × S × Response
  respond (h, s, r) = (h, s, chat_response r)

  -- `body` is what the JSON decoder makes of the body of the request.
  unfoldable pub handle_chat_send :
      Provided S → ℕ → Hub → S → Text → Option ChatSendRequest → Hub × S × Response
  unfolding send_chat
  handle_chat_send r now h s method none =
      if text_eq method post_method then (h, s, invalid_json) else (h, s, method_not_allowed)
  handle_chat_send r now h s method (some req) =
      let to = if req.to == 0 then broadcast_node else req.to in
      if text_eq method post_method
      then respond (send_chat q r now h s req.channel to req.text)
      else (h, s, method_not_allowed)

-- The answer, if there is one before the select of FetchCannedMessages.
abbrev pub fetch_response : Fetch → Option Response
fetch_response (answered msgs) = some (messages msgs)
fetch_response (failed e) = some (error e)
fetch_response (waiting id) = none

abbrev pub canned_response : CannedFetched → Option Response
canned_response (fetching f) = fetch_response f
canned_response unavailable = some radio_not_connected
canned_response CannedFetched.panicked = some panic

unfoldable pub handle_chat_canned : {S : Type 0} → Provided S → S → Text → S × Option Response
unfolding fetch_canned
handle_chat_canned r s method =
    let (s', f) = fetch_canned r s in
    if text_eq method get_method then (s', canned_response f) else (s, some method_not_allowed)
