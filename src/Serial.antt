-- ===== src/Serial.antt =====
-- internal/serial/serial_unix.go and device_unix.go: how the serial device is opened. The system
-- calls are golang.org/x/sys/unix: `Outcomes` says how each of them turns out.
pub mod Laws
mod Tests
pub mod Windows
use go_meshtastic_serial2tcp.Prelude.{
  ℕ, Bool, true, false, Option, none, some, List, [], ◌∷◌, if◌then◌else◌, ◌==◌,
}
use go_meshtastic_serial2tcp.Termios.{Constants, Termios, or, clear, set_raw_mode, set_baud_rate}

-- `get` is what TCGETS reads; the others say whether the call succeeds. `file` is os.NewFile.
pub record Outcomes : Type 0 where
  pub open_ok : Bool
  pub nonblock_ok : Bool
  pub get : Option Termios
  pub set_ok : Bool
  pub file_ok : Bool

-- The descriptors that are open, and the attributes of the device.
pub record Device : Type 0 where
  pub open_fds : List ℕ
  pub attributes : Termios

pub data Opened : Type 0 where
  opened : ℕ → Opened
  open_failed nonblock_failed get_failed set_failed file_failed : Opened
  unsupported_baud : Opened

abbrev pub without : List ℕ → ℕ → List ℕ
without [] fd = []
without (x ∷ xs) fd = if x == fd then without xs fd else x ∷ without xs fd

-- unix.Close
abbrev pub close : Device → ℕ → Device
close d fd = record d { open_fds = without d.open_fds fd }

module _ (k : Constants) where
  -- Raw mode, CLOCAL and CREAD, and no HUPCL.
  abbrev pub serial_mode : Termios → Termios
  serial_mode t =
      let raw = set_raw_mode k t in
      record raw { cflag = clear (or raw.cflag (or k.clocal k.cread)) k.hupcl }

  -- Open, from the new descriptor on
  unfoldable pub set_up : Outcomes → Device → ℕ → ℕ → Device × Opened
  set_up o d fd baud =
      if o.nonblock_ok
      then elim o.get [
        | none ↦ (close d fd, get_failed)
        | some t ↦ elim (set_baud_rate k (serial_mode t) baud) [
          | none ↦ (close d fd, unsupported_baud)
          | some t' ↦
              if o.set_ok
              then (if o.file_ok
                  then (record d { attributes = t' }, opened fd)
                  else (close (record d { attributes = t' }) fd, file_failed))
              else (close d fd, set_failed)
        ]
      ]
      else (close d fd, nonblock_failed)

  -- Open; `fd` is the descriptor that the system gives.
  unfoldable pub open_device : Outcomes → Device → ℕ → ℕ → Device × Opened
  unfolding set_up
  open_device o d fd baud =
      if o.open_ok
      then set_up o (record d { open_fds = fd ∷ d.open_fds }) fd baud
      else (d, open_failed)

  -- DisableHUPCL: the deferred close, and whether there was no error
  unfoldable pub disable_hupcl : Outcomes → Device → ℕ → Device × Bool
  disable_hupcl o d fd =
      if o.open_ok
      then (let e = record d { open_fds = fd ∷ d.open_fds } in
          elim o.get [
            | none ↦ (close e fd, false)
            | some t ↦
                if o.set_ok
                then (
                  close (record e { attributes = record t { cflag = clear t.cflag k.hupcl } }) fd,
                  true,
                )
                else (close e fd, false)
          ])
      else (d, false)

-- DeviceExists is os.Stat without an error.
abbrev pub device_exists : Bool → Bool
device_exists stat_ok = stat_ok
