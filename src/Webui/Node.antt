-- ===== src/Webui/Node.antt =====
-- internal/webui/nodes.go, NodeView: a node of the mesh as the web UI shows it, and when it is
-- online. A float32 is its bit pattern. A coordinate is kept as the integer of 1e-7 degrees that
-- the message has.
use go_meshtastic_serial2tcp.Prelude.{
  ℕ, ◌+◌, ◌*◌, ◌/◌, ◌%◌, ◌^◌, Bool, false, not, Option, none, [], if◌then◌else◌, leb, ◌==◌,
}
use go_meshtastic_serial2tcp.Prelude.Keys.{ℤ, Text}

-- 2 hours, in nanoseconds
abbrev pub node_online_window : ℕ
node_online_window = 2 * 3600 * 1000000000

pub record NodeView : Type 0 where
  pub num : ℕ
  pub user_id : Text
  pub long_name : Text
  pub short_name : Text
  pub hw_model : Text
  pub role : Text
  pub snr : ℕ
  pub last_heard : ℕ
  pub last_activity : ℕ
  pub hops_away : Option ℕ
  pub via_mqtt : Bool
  pub is_favorite : Bool
  pub is_ignored : Bool
  pub is_local : Bool
  pub battery_level : Option ℕ
  pub latitude : Option ℤ
  pub longitude : Option ℤ
  pub altitude : Option ℤ
  pub online : Bool
  pub updated : ℕ

-- NodeView{}
abbrev pub zero_node : NodeView
zero_node = record {
  num = 0;
  user_id = [];
  long_name = [];
  short_name = [];
  hw_model = [];
  role = [];
  snr = 0;
  last_heard = 0;
  last_activity = 0;
  hops_away = none;
  via_mqtt = false;
  is_favorite = false;
  is_ignored = false;
  is_local = false;
  battery_level = none;
  latitude = none;
  longitude = none;
  altitude = none;
  online = false;
  updated = 0;
}

-- x == 0 of a float32: both zeros
abbrev pub is_zero_float : ℕ → Bool
is_zero_float bits = bits % 2 ^ 31 == 0

-- Seconds, as a uint32.
unfoldable pub activity_unix : NodeView → ℕ
activity_unix n =
    if not (n.last_activity == 0) then n.last_activity / 1000000000 % 2 ^ 32 else n.last_heard

-- now.Sub(t) <= window, with a difference that may be negative
unfoldable pub node_online : NodeView → ℕ → Bool
unfolding activity_unix
node_online n now =
    let ts = activity_unix n in
    if not (ts == 0) then leb now (ts * 1000000000 + node_online_window) else false
