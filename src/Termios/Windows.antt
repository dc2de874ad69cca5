-- ===== src/Termios/Windows.antt =====
-- internal/termios/termios_windows.go: the state of a serial port on Windows.
use go_meshtastic_serial2tcp.Prelude.{
  ℕ, ◌≡◌, Bool, true, false, ◌||◌, Option, none, some, [], ◌∷◌, if◌then◌else◌, ◌==◌, leb, arith,
}
use go_meshtastic_serial2tcp.Prelude.Keys.{nat_key}
use go_meshtastic_serial2tcp.Prelude.Assoc.{Assoc, get}
use go_meshtastic_serial2tcp.Termios.{Word, or, clear, all_of}

-- 1 << j
abbrev pub bit : ℕ → Word
bit j i = i == j

-- windows.DCB, of which the program writes these, and windows.CommTimeouts.
pub record Dcb : Type 0 where
  pub baud_rate : ℕ
  pub flags : Word
  pub byte_size : ℕ
  pub parity : ℕ
  pub stop_bits : ℕ

pub record CommTimeouts : Type 0 where
  pub read_interval : ℕ
  pub read_total_multiplier : ℕ
  pub read_total_constant : ℕ
  pub write_total_multiplier : ℕ
  pub write_total_constant : ℕ

pub record Port : Type 0 where
  pub dcb : Dcb
  pub timeouts : CommTimeouts

abbrev pub no_timeouts : CommTimeouts
no_timeouts = record {
  read_interval = 0;
  read_total_multiplier = 0;
  read_total_constant = 0;
  write_total_multiplier = 0;
  write_total_constant = 0;
}

-- `cbr rate` is the CBR constant of windows for the rate.
abbrev pub baudrate_map : (ℕ → ℕ) → Assoc ℕ ℕ
baudrate_map cbr =
    (9600, cbr 9600)
    ∷ (19200, cbr 19200)
    ∷ (38400, cbr 38400)
    ∷ (57600, cbr 57600)
    ∷ (115200, cbr 115200)
    ∷ (230400, 230400)
    ∷ (460800, 460800)
    ∷ (921600, 921600)
    ∷ []

-- GetTermios, of what the two system calls read
unfoldable pub get_port : Option Dcb → Option CommTimeouts → Option Port
get_port none timeouts = none
get_port (some dcb) none = none
get_port (some dcb) (some timeouts) = some (record { dcb = dcb; timeouts = timeouts })

-- SetTermios on a port whose state is `old`: SetCommState, and then SetCommTimeouts
unfoldable pub set_port : (state_ok timeouts_ok : Bool) → Port → Port → Port × Bool
set_port state_ok timeouts_ok old t =
    if state_ok
    then (if timeouts_ok then (t, true) else (record old { dcb = t.dcb }, false))
    else (old, false)

unfoldable pub set_port_rate : (ℕ → ℕ) → Port → ℕ → Option Port
set_port_rate cbr t baud = elim (get (baudrate_map cbr) baud) [
  | none ↦ none
  | some rate ↦ some (record t { dcb = record t.dcb { baud_rate = rate } })
]

-- dcbParity, dcbOutxCtsFlow, dcbOutxDsrFlow, dcbDsrSensitivity, dcbOutX, dcbInX, dcbErrorChar,
-- dcbNull and dcbAbortOnError
abbrev pub cleared_bits : Word
cleared_bits =
    all_of (bit 1 ∷ bit 2 ∷ bit 3 ∷ bit 6 ∷ bit 8 ∷ bit 9 ∷ bit 10 ∷ bit 11 ∷ bit 14 ∷ [])

-- dcbDtrControlMask and dcbRtsControlMask
abbrev pub control_masks : Word
control_masks = all_of (bit 4 ∷ bit 5 ∷ bit 12 ∷ bit 13 ∷ [])

-- SetRawMode: dcbBinary and dcbTxContinueOnXoff; dcbDtrControlEnable and dcbRtsControlEnable
unfoldable pub raw_flags : Word → Word
raw_flags f =
    or (clear (clear (or f (or (bit 0) (bit 7))) cleared_bits) control_masks) (or (bit 4) (bit 12))

unfoldable pub set_raw_port : Port → Port
unfolding raw_flags
set_raw_port t = record t {
  dcb = record t.dcb { flags = raw_flags t.dcb.flags; byte_size = 8; parity = 0; stop_bits = 0 };
  timeouts = no_timeouts;
}

-- The bits of the flags that SetRawMode switches on, and those that it leaves alone, which are
-- those that it does not name.
abbrev pub is_on : ℕ → Bool
is_on i = i == 0 || (i == 4 || (i == 7 || i == 12))

abbrev pub raw_bit : ℕ → Bool → Bool
raw_bit i old = if is_on i then true else if leb i 14 then false else old

pub raw_flags-raw_bit : (f : Word) (i : ℕ) → raw_flags f i ≡ raw_bit i (f i)
unfolding raw_flags
raw_flags-raw_bit f i = ground arith
