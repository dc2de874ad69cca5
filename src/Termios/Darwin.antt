-- ===== src/Termios/Darwin.antt =====
-- internal/termios/termios_darwin.go: the rate is no part of the control flags.
use go_meshtastic_serial2tcp.Prelude.{ℕ, Option, none, some}
use go_meshtastic_serial2tcp.Prelude.Keys.{nat_key}
use go_meshtastic_serial2tcp.Prelude.Assoc.{get}
use go_meshtastic_serial2tcp.Termios.{Constants, Termios}

-- The constants have the rates up to 230400 here.
unfoldable pub set_speeds : Constants → Termios → ℕ → Option Termios
set_speeds k t baud = elim (get k.rates baud) [
  | none ↦ none
  | some rate ↦ some (record t { ispeed = rate; ospeed = rate })
]

-- SetRawMode is the same text as in termios.go.
unfoldable pub set_raw_mode : Constants → Termios → Termios
set_raw_mode = go_meshtastic_serial2tcp.Termios.set_raw_mode
