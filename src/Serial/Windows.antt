-- ===== src/Serial/Windows.antt =====
-- internal/serial/device_windows.go and serial_windows.go: the names of COM ports, and how one is
-- opened.
pub mod Names
pub mod Laws
use go_meshtastic_serial2tcp.Prelude.{
  ℕ, zero, suc, ◌+◌, ◌*◌, ◌-◌, Bool, true, false, ◌&&◌, Option, none, some, List, [], ◌∷◌, ◌++◌,
  map, length, drop, if◌then◌else◌, ◌==◌, leb, ltb,
}
use go_meshtastic_serial2tcp.Prelude.Keys.{Text}
use go_meshtastic_serial2tcp.Prelude.Text.{bytes}
use go_meshtastic_serial2tcp.Termios.Windows.{
  Port, Dcb, CommTimeouts, get_port, set_port, set_raw_port, set_port_rate,
}
use go_meshtastic_serial2tcp.Serial.{without}

-- strings.HasPrefix
abbrev pub begins_with : Text → Text → Bool
begins_with [] s = true
begins_with (c ∷ p) [] = false
begins_with (c ∷ p) (d ∷ s) = c == d && begins_with p s

-- strings.TrimSuffix of one byte
abbrev pub trim_last : ℕ → Text → Text
trim_last b [] = []
trim_last b (c ∷ []) = if c == b then [] else c ∷ []
trim_last b (c ∷ d ∷ s) = c ∷ trim_last b (d ∷ s)

-- strings.ToUpper on ASCII; no other letter becomes one of `COM`.
abbrev pub to_upper : ℕ → ℕ
to_upper c = if leb 97 c && leb c 122 then c - 32 else c

unfoldable pub is_com_device : Text → Bool
is_com_device name =
    let upper = map to_upper name in begins_with (bytes "COM") upper && ltb 3 (length upper)

-- \\.\
abbrev pub device_prefix : Text
device_prefix = 92 ∷ 92 ∷ 46 ∷ 92 ∷ []

unfoldable pub normalize_windows_device : Text → Text × Text
normalize_windows_device device =
    if begins_with device_prefix device
    then (device, drop 4 device)
    else if is_com_device (trim_last 58 device)
    then (device_prefix ++ trim_last 58 device, trim_last 58 device)
    else (device, trim_last 58 device)

-- What QueryDosDevice gives for a buffer of some size.
pub data Queried : Type 0 where
  found : ℕ → Queried
  insufficient_buffer other_error : Queried

-- for size := 256; size <= 4096; size *= 2, from `size` on; 5 rounds are all.
unfoldable pub query_from : ℕ → ℕ → (ℕ → Queried) → Bool
query_from zero size query = false
query_from (suc rounds) size query =
    let more = query_from rounds (size * 2) query in
    if leb size 4096
    then elim (query size) [ found n ↦ ltb 0 n | insufficient_buffer ↦ more | other_error ↦ false ]
    else false

-- queryDosDevice; `none` is a name with a NUL.
unfoldable pub query_dos_device : Option (ℕ → Queried) → Bool
unfolding query_from
query_dos_device none = false
query_dos_device (some query) = query_from 5 256 query

-- DeviceExists; `query` and `stat_ok` are what the system says of the name and of the file.
unfoldable pub device_exists : Text → Option (ℕ → Queried) → Bool → Bool
unfolding query_dos_device
device_exists device query stat_ok =
    if is_com_device (normalize_windows_device device).1 then query_dos_device query else stat_ok

-- What the system calls of Open give.
pub record Outcomes : Type 0 where
  pub create_ok : Bool
  pub comm_state : Option Dcb
  pub comm_timeouts : Option CommTimeouts
  pub state_ok : Bool
  pub timeouts_ok : Bool
  pub file_ok : Bool

pub data Opened : Type 0 where
  opened : ℕ → Text → Opened
  create_failed get_failed unsupported_baud set_failed file_failed : Opened

-- The handles that are open, and the state of the port.
pub record System : Type 0 where
  pub handles : List ℕ
  pub port : Option Port

abbrev pub close_handle : System → ℕ → System
close_handle s h = record s { handles = without s.handles h }

abbrev pub has_port : System → Port → System
has_port s t = record s { port = some t }

-- Open, after SetTermios
abbrev pub finish_open : Outcomes → System → ℕ → Text → Port × Bool → System × Opened
finish_open o s h path (t, false) = (close_handle (has_port s t) h, set_failed)
finish_open o s h path (t, true) =
    if o.file_ok
    then (has_port s t, opened h path)
    else (close_handle (has_port s t) h, file_failed)

-- Open, with the handle and the state of the port; `cbr` is as in `baudrate_map`.
unfoldable pub set_up_port :
    (ℕ → ℕ) → Outcomes → System → ℕ → Text → ℕ → Option Port → System × Opened
set_up_port cbr o s h path baud none = (close_handle s h, get_failed)
set_up_port cbr o s h path baud (some t) = elim (set_port_rate cbr (set_raw_port t) baud) [
  | none ↦ (close_handle s h, unsupported_baud)
  | some t' ↦ finish_open o s h path (set_port o.state_ok o.timeouts_ok t t')
]

-- Open; `h` is the handle that the system gives.
unfoldable pub open_port : (ℕ → ℕ) → Outcomes → System → ℕ → Text → ℕ → System × Opened
unfolding set_up_port
open_port cbr o s h device baud =
    if o.create_ok
    then set_up_port cbr o (record s { handles = h ∷ s.handles }) h
        (normalize_windows_device device).0 baud (get_port o.comm_state o.comm_timeouts)
    else (s, create_failed)
