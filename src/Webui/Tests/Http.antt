-- ===== src/Webui/Tests/Http.antt =====
-- internal/webui/server.go: two hubs whose maps are visited in different orders.
use go_meshtastic_serial2tcp.Prelude.{◌≡◌, refl, [], ◌∷◌, arith}
use go_meshtastic_serial2tcp.Prelude.Keys.{pos, negsuc, nat_key, int_key}
use go_meshtastic_serial2tcp.Prelude.Assoc.{get}
use go_meshtastic_serial2tcp.Prelude.Canonical.{SameMap}
use go_meshtastic_serial2tcp.Webui.Hub.{Hub, ChannelInfo, new_hub}
use go_meshtastic_serial2tcp.Webui.Observer.Keeps.{IsHub}
use go_meshtastic_serial2tcp.Webui.Http.{handle_snapshot, get_method}
use go_meshtastic_serial2tcp.Webui.Http.Order.{SameHub, handle_snapshot-SameHub}

abbrev first : ChannelInfo
first = record { index = pos 1; name = 97 ∷ []; role = []; updated = 5 }

abbrev second : ChannelInfo
second = record { index = pos 2; name = 98 ∷ []; role = []; updated = 5 }

abbrev one_way : Hub
one_way = record new_hub { channels = (pos 1, first) ∷ (pos 2, second) ∷ [] }

abbrev other_way : Hub
other_way = record new_hub { channels = (pos 2, second) ∷ (pos 1, first) ∷ [] }

one_way-IsHub : IsHub one_way
unfolding get
one_way-IsHub = record {
  few_events = omega arith;
  chat = (tt, omega arith);
  protos = (tt, omega arith);
  nodes = (tt, tt);
  channels = ((refl, (refl, tt)), (refl, (refl, tt)));
}

other_way-IsHub : IsHub other_way
unfolding get
other_way-IsHub = record {
  few_events = omega arith;
  chat = (tt, omega arith);
  protos = (tt, omega arith);
  nodes = (tt, tt);
  channels = ((refl, (refl, tt)), (refl, (refl, tt)));
}

same_channels : SameMap one_way.channels other_way.channels
unfolding get
same_channels (pos n) = ground arith
same_channels (negsuc n) = refl

same : SameHub one_way other_way
same = record {
  events = refl;
  chats = refl;
  status = refl;
  local = refl;
  nodes = λ k. refl;
  channels = same_channels;
  protos = λ k. refl;
}

handle_snapshot-SameHub_example :
    handle_snapshot get_method 6 one_way ≡ handle_snapshot get_method 6 other_way
handle_snapshot-SameHub_example =
    handle_snapshot-SameHub get_method 6 one_way other_way one_way-IsHub other_way-IsHub same
