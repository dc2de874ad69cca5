-- ===== src/Config/Tests.antt =====
-- internal/config/config.go: a few environments and command lines.
use go_meshtastic_serial2tcp.Prelude.{
  ◌*◌, ◌≡◌, refl, false, if◌then◌else◌, none, some, [], ◌∷◌, arith,
}
use go_meshtastic_serial2tcp.Prelude.Keys.{pos, negsuc, text_key}
use go_meshtastic_serial2tcp.Prelude.Text.{bytes, trim_space}
use go_meshtastic_serial2tcp.Config.{
  Env, Flags, load, getenv_int, normalize_positive_int, flag_passed,
}
use go_meshtastic_serial2tcp.Config.Laws.{
  first_of, flag_number, env_number, IsUsable, load-first_of, load-IsUsable, load-reconnect_delay,
}

-- TCP_PORT=" 5000 ", and a delay that does not fit.
abbrev env : Env
env key =
    if text_key.beq key (bytes "TCP_PORT")
    then some (bytes " 5000 ")
    else if text_key.beq key (bytes "RECONNECT_DELAY")
    then some (bytes "9223372037")
    else none

-- -baud=0 -reconnect-delay=7
abbrev flags : Flags
flags = record {
  healthcheck = none;
  device = some (bytes " ");
  baud = some (pos 0);
  tcp_port = none;
  reconnect_delay = some (pos 7);
  mdns = none;
  read_only_clients = none;
  debug = none;
  debug_short = none;
  web_ui = none;
  web_ui_addr = none;
  service_name = none;
}

port : (load env [] flags).0.tcp_port ≡ 5000
unfolding load normalize_positive_int getenv_int trim_space
port = refl

-- Nanoseconds that do not fit in an int64 come out negative.
overflow :
    (load env [] (record flags { reconnect_delay = none })).0.reconnect_delay
    ≡ negsuc 9223372036709551615
unfolding load normalize_positive_int getenv_int trim_space
overflow = refl

-- The package flag takes two dashes as well; flagPassed does not.
two_dashes : flag_passed (bytes "web-ui-addr") (bytes "--web-ui-addr=:80" ∷ []) ≡ false
unfolding flag_passed
two_dashes = refl

load-first_of_example :
    ((load env [] flags).0.baud
      ≡ first_of (flag_number flags.baud ∷ env_number env (bytes "BAUD_RATE") ∷ []) 115200)
    × ((load env [] flags).0.tcp_port
        ≡ first_of (flag_number flags.tcp_port ∷ env_number env (bytes "TCP_PORT") ∷ []) 4403)
load-first_of_example = load-first_of env [] flags

load-IsUsable_example : IsUsable (load env [] flags).0
load-IsUsable_example = load-IsUsable env [] flags

seven :
    first_of (flag_number flags.reconnect_delay ∷ env_number env (bytes "RECONNECT_DELAY") ∷ []) 5
    ≡ 7
seven = refl

load-reconnect_delay_example : (load env [] flags).0.reconnect_delay ≡ pos (7 * 1000000000)
load-reconnect_delay_example = load-reconnect_delay env [] flags 7 seven (omega arith)
