-- ===== src/Config.antt =====
-- internal/config/config.go: the configuration, from the environment and the command line. The
-- package flag has parsed the command line: `Flags` has the value of each flag that was given.
pub mod Laws
mod Tests
use go_meshtastic_serial2tcp.Prelude.{
  ℕ, suc, zero, ◌+◌, ◌-◌, ◌*◌, ◌%◌, ◌^◌, Bool, true, false, ◌&&◌, ◌||◌, Option, none, some, List,
  [], ◌∷◌, ◌++◌, map, if◌then◌else◌, leb, ltb, ◌==◌, is_nil,
}
use go_meshtastic_serial2tcp.Prelude.Keys.{ℤ, pos, negsuc, Text, text_key}
use go_meshtastic_serial2tcp.Prelude.Text.{bytes, trim_space}

-- os.LookupEnv
abbrev pub Env : Type 0
Env = Text → Option Text

abbrev pub lookup : Env → Text → Text
lookup env key = elim (env key) [ none ↦ [] | some v ↦ v ]

unfoldable pub getenv : Env → Text → Text → Text
getenv env key fallback =
    let value = trim_space (lookup env key) in if is_nil value then fallback else value

abbrev pub is_digit : ℕ → Bool
is_digit c = leb 48 c && leb c 57

-- The digits of a number, most significant first, behind those read before.
pub parse_digits : ℕ → Text → Option ℕ
parse_digits acc [] = some acc
parse_digits acc (c ∷ s) =
    let rest = parse_digits (acc * 10 + (c - 48)) s in if is_digit c then rest else none

pub parse_natural : Text → Option ℕ
unfolding parse_digits
parse_natural [] = none
parse_natural (c ∷ s) = parse_digits 0 (c ∷ s)

-- strconv.Atoi of a number that is not negative; a value out of range is an error, and so is, here,
-- a negative one, which the only caller rejects as well.
pub atoi : Text → Option ℕ
unfolding parse_natural
atoi s = elim (parse_natural (unsigned s)) [
  | none ↦ none
  | some n ↦ if ltb n (2 ^ 63) then some n else none
]
  where
    unsigned : Text → Text
    unsigned [] = []
    unsigned (c ∷ s) = if c == 43 then s else c ∷ s

abbrev pub positive_or : ℕ → Option ℕ → ℕ
positive_or fallback none = fallback
positive_or fallback (some zero) = fallback
positive_or fallback (some (suc n)) = suc n

unfoldable pub getenv_int : Env → Text → ℕ → ℕ
unfolding atoi
getenv_int env key fallback =
    let value = trim_space (lookup env key) in
    if is_nil value then fallback else positive_or fallback (atoi value)

-- strings.ToLower, as far as the words below can tell
abbrev pub to_lower : Text → Text
to_lower = map (λ c. if leb 65 c && leb c 90 then c + 32 else c)

abbrev pub one_of : Text → List Text → Bool
one_of s [] = false
one_of s (t ∷ ts) = text_key.beq s t || one_of s ts

abbrev pub yes_words : List Text
yes_words = map bytes ("1" ∷ "true" ∷ "yes" ∷ "on" ∷ [])

abbrev pub no_words : List Text
no_words = map bytes ("0" ∷ "false" ∷ "no" ∷ "off" ∷ [])

unfoldable pub getenv_bool : Env → Text → Bool → Bool
getenv_bool env key fallback =
    let value = to_lower (trim_space (lookup env key)) in
    if is_nil value
    then fallback
    else if one_of value yes_words
    then true
    else if one_of value no_words
    then false
    else fallback

-- A value that is not positive is the fallback.
unfoldable pub normalize_positive_int : ℤ → ℕ → ℕ
normalize_positive_int (pos zero) fallback = fallback
normalize_positive_int (pos (suc n)) fallback = suc n
normalize_positive_int (negsuc n) fallback = fallback

-- The flags that the command line gives, each with its value.
pub record Flags : Type 0 where
  pub healthcheck : Option Bool
  pub device : Option Text
  pub baud : Option ℤ
  pub tcp_port : Option ℤ
  pub reconnect_delay : Option ℤ
  pub mdns : Option Bool
  pub read_only_clients : Option Bool
  pub debug : Option Bool
  pub debug_short : Option Bool
  pub web_ui : Option Bool
  pub web_ui_addr : Option Text
  pub service_name : Option Text

-- A flag's value, or its default.
abbrev pub given {ℓ} : {A : Type ℓ} → Option A → A → A
given none default = default
given (some v) default = v

pub record Config : Type 0 where
  pub device : Text
  pub baud : ℕ
  pub tcp_port : ℕ
  -- nanoseconds, in an int64
  pub reconnect_delay : ℤ
  pub service_name : Text
  pub mdns_enabled : Bool
  pub read_only_clients : Bool
  pub debug : Bool
  pub web_ui : Bool
  pub web_ui_addr : Text

abbrev pub or_text : Text → Text → Text
or_text [] fallback = fallback
or_text (c ∷ s) fallback = c ∷ s

abbrev pub sanitize_device_name : Text → Text
sanitize_device_name = map (λ c. if c == b'/' || c == b'.' then b'_' else c)

-- strings.HasPrefix
abbrev pub has_prefix : Text → Text → Bool
has_prefix [] s = true
has_prefix (c ∷ p) [] = false
has_prefix (c ∷ p) (d ∷ s) = (c == d) && has_prefix p s

-- `args` is os.Args[1:].
unfoldable pub flag_passed : Text → List Text → Bool
flag_passed name [] = false
flag_passed name (arg ∷ args) =
    (text_key.beq arg (b'-' ∷ name) || has_prefix (b'-' ∷ name ++ (b'=' ∷ [])) arg)
    || flag_passed name args

-- An int64 from a product of two positive ones.
abbrev pub int64 : ℕ → ℤ
int64 n = if ltb (n % 2 ^ 64) (2 ^ 63) then pos (n % 2 ^ 64) else negsuc (2 ^ 64 - 1 - n % 2 ^ 64)

abbrev pub is_set : Env → Text → Bool
is_set env key = elim (env key) [ none ↦ false | some v ↦ true ]

abbrev pub default_web_ui_addr : Text
default_web_ui_addr = bytes "127.0.0.1:9080"

abbrev pub service_name_of : Text → Text
service_name_of device =
    bytes "Meshtastic Serial Bridge (" ++ (sanitize_device_name device ++ bytes ")")

abbrev pub default_device : Env → Text
default_device env = getenv env (bytes "SERIAL_DEVICE") (bytes "/dev/ttyUSB0")

-- A value of the command line, if it is positive, else the default, which the environment may give.
abbrev pub int_option : Env → Option ℤ → Text → ℕ → ℕ
int_option env flag key fallback =
    let default = getenv_int env key fallback in
    normalize_positive_int (given flag (pos default)) default

-- Load, and whether a health check is asked for.
unfoldable pub load : Env → List Text → Flags → Config × Bool
load env args flags =
    let device =
      or_text (trim_space (given flags.device (default_device env))) (default_device env) in
    (
      record {
        device = device;
        baud = int_option env flags.baud (bytes "BAUD_RATE") 115200;
        tcp_port = int_option env flags.tcp_port (bytes "TCP_PORT") 4403;
        reconnect_delay =
            int64 (int_option env flags.reconnect_delay (bytes "RECONNECT_DELAY") 5 * 1000000000);
        service_name =
            or_text (trim_space (given flags.service_name (getenv env (bytes "SERVICE_NAME") [])))
              (service_name_of device);
        mdns_enabled = given flags.mdns (getenv_bool env (bytes "MDNS_ENABLED") true);
        read_only_clients =
            given flags.read_only_clients (getenv_bool env (bytes "READ_ONLY_CLIENTS") false);
        debug =
            given flags.debug (getenv_bool env (bytes "DEBUG") false)
            || given flags.debug_short false;
        web_ui =
            given flags.web_ui (getenv_bool env (bytes "WEB_UI") false)
            || (is_set env (bytes "WEB_UI_ADDR") || flag_passed (bytes "web-ui-addr") args);
        web_ui_addr =
            or_text
              (trim_space
                (given flags.web_ui_addr (getenv env (bytes "WEB_UI_ADDR") default_web_ui_addr)))
              default_web_ui_addr;
      },
      given flags.healthcheck false,
    )
