-- ===== src/Config/Laws.antt =====
-- internal/config/config.go, Load: what every configuration has, and which source an option is
-- from.
use go_meshtastic_serial2tcp.Prelude.{
  ℕ, subst, suc, zero, ◌*◌, ◌≤◌, ◌<◌, ◌≡◌, ◌≢◌, refl, sym, ap, ◌∙◌, Option, none, some, List, [],
  ◌∷◌, if◌then◌else◌, is_nil, arith,
}
use go_meshtastic_serial2tcp.Prelude.Keys.{ℤ, pos, negsuc, Text}
use go_meshtastic_serial2tcp.Prelude.Text.{bytes, trim_space}
use go_meshtastic_serial2tcp.Config.{
  Env, Flags, Config, lookup, getenv, getenv_int, atoi, parse_natural, positive_or,
  normalize_positive_int, given, or_text, int_option, int64, default_device, default_web_ui_addr,
  service_name_of, load,
}

-- The first source that has a value.
abbrev pub first_of : List (Option ℕ) → ℕ → ℕ
first_of [] fallback = fallback
first_of (none ∷ os) fallback = first_of os fallback
first_of (some n ∷ os) fallback = n

abbrev pub if_positive : Option ℕ → Option ℕ
if_positive none = none
if_positive (some zero) = none
if_positive (some (suc n)) = some (suc n)

-- The number that a flag gives, if it is positive.
abbrev pub flag_number : Option ℤ → Option ℕ
flag_number none = none
flag_number (some (pos n)) = if_positive (some n)
flag_number (some (negsuc n)) = none

-- The number in a variable of the environment, if it is one and is positive.
abbrev pub env_number : Env → Text → Option ℕ
env_number env key = if_positive (atoi (trim_space (lookup env key)))

positive_or-if_positive :
    (fallback : ℕ) (o : Option ℕ) → positive_or fallback o ≡ first_of (if_positive o ∷ []) fallback
positive_or-if_positive fallback none = refl
positive_or-if_positive fallback (some zero) = refl
positive_or-if_positive fallback (some (suc n)) = refl

getenv_int-first_of :
    (env : Env) (key : Text) (fallback : ℕ)
    → getenv_int env key fallback ≡ first_of (env_number env key ∷ []) fallback
unfolding getenv_int atoi parse_natural
getenv_int-first_of env key fallback = by_value (trim_space (lookup env key))
  where
    by_value :
        (s : Text)
        → (if is_nil s then fallback else positive_or fallback (atoi s))
          ≡ first_of (if_positive (atoi s) ∷ []) fallback
    by_value [] = refl
    by_value (c ∷ s) = positive_or-if_positive fallback (atoi (c ∷ s))

normalize-first_of :
    (flag : Option ℤ) (default : ℕ)
    → normalize_positive_int (given flag (pos default)) default
      ≡ first_of (flag_number flag ∷ []) default
unfolding normalize_positive_int
normalize-first_of none zero = refl
normalize-first_of none (suc n) = refl
normalize-first_of (some (pos zero)) default = refl
normalize-first_of (some (pos (suc n))) default = refl
normalize-first_of (some (negsuc n)) default = refl

first_of-first_of :
    (o p : Option ℕ) (fallback : ℕ)
    → first_of (o ∷ []) (first_of (p ∷ []) fallback) ≡ first_of (o ∷ p ∷ []) fallback
first_of-first_of none p fallback = refl
first_of-first_of (some n) p fallback = refl

int_option-first_of :
    (env : Env) (flag : Option ℤ) (key : Text) (fallback : ℕ)
    → int_option env flag key fallback
      ≡ first_of (flag_number flag ∷ env_number env key ∷ []) fallback
int_option-first_of env flag key fallback =
    normalize-first_of flag (getenv_int env key fallback)
    ∙ ap (first_of (flag_number flag ∷ [])) (getenv_int-first_of env key fallback)
    ∙ first_of-first_of (flag_number flag) (env_number env key) fallback

-- The baud rate and the TCP port are each the number that the command line gives, if it is
-- positive, else the number in the environment, if that is one and is positive, else 115200 and
-- 4403; a bad value is passed over, never an error.
pub load-first_of :
    (env : Env) (args : List Text) (flags : Flags)
    → let c = (load env args flags).0 in
      (c.baud ≡ first_of (flag_number flags.baud ∷ env_number env (bytes "BAUD_RATE") ∷ []) 115200)
      × (c.tcp_port
          ≡ first_of (flag_number flags.tcp_port ∷ env_number env (bytes "TCP_PORT") ∷ []) 4403)
unfolding load
load-first_of env args flags = (
  int_option-first_of env flags.baud (bytes "BAUD_RATE") 115200,
  int_option-first_of env flags.tcp_port (bytes "TCP_PORT") 4403,
)

-- What every configuration has.
pub record IsUsable (c : Config) : Type 0 where
  pub device : c.device ≢ []
  pub baud : 0 < c.baud
  pub tcp_port : 0 < c.tcp_port
  pub service_name : c.service_name ≢ []
  pub web_ui_addr : c.web_ui_addr ≢ []

or_text-nonempty : (s fallback : Text) → fallback ≢ [] → or_text s fallback ≢ []
or_text-nonempty [] fallback h = h
or_text-nonempty (c ∷ s) fallback h = λ e. cc

getenv-nonempty : (env : Env) (key fallback : Text) → fallback ≢ [] → getenv env key fallback ≢ []
unfolding getenv
getenv-nonempty env key fallback h = ground arith

if_positive-first_of :
    (o : Option ℕ) (os : List (Option ℕ)) (fallback : ℕ)
    → 0 < first_of os fallback
    → 0 < first_of (if_positive o ∷ os) fallback
if_positive-first_of none os fallback h = h
if_positive-first_of (some zero) os fallback h = h
if_positive-first_of (some (suc n)) os fallback h = omega arith

flag_number-first_of :
    (o : Option ℤ) (os : List (Option ℕ)) (fallback : ℕ)
    → 0 < first_of os fallback
    → 0 < first_of (flag_number o ∷ os) fallback
flag_number-first_of none os fallback h = h
flag_number-first_of (some (pos n)) os fallback h = if_positive-first_of (some n) os fallback h
flag_number-first_of (some (negsuc n)) os fallback h = h

int_option-positive :
    (env : Env) (flag : Option ℤ) (key : Text) (fallback : ℕ)
    → 0 < fallback
    → 0 < int_option env flag key fallback
int_option-positive env flag key fallback h =
    subst (λ n. 0 < n) (sym (int_option-first_of env flag key fallback))
      (flag_number-first_of flag (env_number env key ∷ []) fallback
        (if_positive-first_of (atoi (trim_space (lookup env key))) [] fallback h))

default_device-nonempty : (env : Env) → default_device env ≢ []
default_device-nonempty env =
    getenv-nonempty env (bytes "SERIAL_DEVICE") (bytes "/dev/ttyUSB0") (λ e. cc)

-- Whatever the environment and the command line say, blank values, signs and garbage included, the
-- configuration that Load returns names a device and a service, has a positive baud rate and a
-- positive TCP port, and an address for the web UI.
pub load-IsUsable :
    (env : Env) (args : List Text) (flags : Flags) → IsUsable (load env args flags).0
unfolding load
load-IsUsable env args flags = record {
  device = or_text-nonempty _ (default_device env) (default_device-nonempty env);
  baud = int_option-positive env flags.baud (bytes "BAUD_RATE") 115200 (omega arith);
  tcp_port = int_option-positive env flags.tcp_port (bytes "TCP_PORT") 4403 (omega arith);
  service_name = or_text-nonempty _ (service_name_of _) (λ e. cc);
  web_ui_addr = or_text-nonempty _ default_web_ui_addr (λ e. cc);
}

in_range : (n : ℕ) → n ≤ 9223372036 → int64 (n * 1000000000) ≡ pos (n * 1000000000)
in_range n h = ground arith

-- The delay before a reconnect is the number of seconds that the command line or the environment
-- gives, else five, in nanoseconds, if it is at most 9223372036 seconds.
pub load-reconnect_delay :
    (env : Env) (args : List Text) (flags : Flags) (n : ℕ)
    → first_of (flag_number flags.reconnect_delay ∷ env_number env (bytes "RECONNECT_DELAY") ∷ []) 5
      ≡ n
    → n ≤ 9223372036
    → (load env args flags).0.reconnect_delay ≡ pos (n * 1000000000)
unfolding load
load-reconnect_delay env args flags n e h =
    ap (λ s. int64 (s * 1000000000))
      (int_option-first_of env flags.reconnect_delay (bytes "RECONNECT_DELAY") 5 ∙ e)
    ∙ in_range n h
