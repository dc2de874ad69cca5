-- ===== src/Serial/Windows/Laws.antt =====
-- internal/serial/serial_windows.go, Open: what is open afterwards, and in which mode.
use go_meshtastic_serial2tcp.Prelude.{
  ℕ, ◌≡◌, refl, Option, none, some, ◌∷◌, Option-cases, inl, inr, if_cases,
}
use go_meshtastic_serial2tcp.Prelude.Keys.{Text, nat_key}
use go_meshtastic_serial2tcp.Prelude.Assoc.{get}
use go_meshtastic_serial2tcp.Termios.Windows.{
  Port, get_port, set_port, set_raw_port, set_port_rate, baudrate_map, no_timeouts, raw_bit,
  raw_flags-raw_bit,
}
use go_meshtastic_serial2tcp.Serial.{without}
use go_meshtastic_serial2tcp.Serial.Laws.{closed}
use go_meshtastic_serial2tcp.Serial.Windows.{
  Outcomes, Opened, opened, unsupported_baud, System, finish_open, set_up_port, open_port,
  normalize_windows_device,
}

-- A port in raw mode at a rate, which was `old` before.
pub record IsRawPort (rate : ℕ) (old t : Port) : Type 0 where
  pub baud_rate : t.dcb.baud_rate ≡ rate
  pub frame : (t.dcb.byte_size ≡ 8) × (t.dcb.parity ≡ 0) × (t.dcb.stop_bits ≡ 0)
  pub flags : (i : ℕ) → t.dcb.flags i ≡ raw_bit i (old.dcb.flags i)
  pub timeouts : t.timeouts ≡ no_timeouts

abbrev pub PortLeaves : (ℕ → ℕ) → Outcomes → System → System → ℕ → Text → ℕ → Opened → Type 0
PortLeaves cbr o s s' h device baud (opened x path) =
    (x ≡ h)
    × (path ≡ (normalize_windows_device device).0)
    × (s'.handles ≡ h ∷ s.handles)
    × ((rate : ℕ) × (old : Port) × (t : Port) × (get (baudrate_map cbr) baud ≡ some rate)
        × (get_port o.comm_state o.comm_timeouts ≡ some old)
        × (s'.port ≡ some t)
        × IsRawPort rate old t)
PortLeaves cbr o s s' h device baud unsupported_baud =
    (get (baudrate_map cbr) baud ≡ none) × (s'.handles ≡ s.handles)
PortLeaves cbr o s s' h device baud _ = s'.handles ≡ s.handles

module _ (cbr : ℕ → ℕ) (s : System) (h : ℕ) (device : Text) (baud : ℕ)
    (fresh : without s.handles h ≡ s.handles) (o : Outcomes) where
  abbrev Good : System × Opened → Type 0
  Good (s', r) = PortLeaves cbr o s s' h device baud r

  abbrev with_handle : System
  with_handle = record s { handles = h ∷ s.handles }

  finish_open-Good :
      (old t : Port) (rate : ℕ)
      → get (baudrate_map cbr) baud ≡ some rate
      → get_port o.comm_state o.comm_timeouts ≡ some old
      → IsRawPort rate old t
      → Good (
          finish_open o with_handle h
            (normalize_windows_device device).0
            (set_port o.state_ok o.timeouts_ok old t))
  unfolding set_port
  finish_open-Good old t rate known was raw =
      let finish = finish_open o with_handle h (normalize_windows_device device).0 in
      let same = closed h s.handles fresh in
      if_cases (λ r. Good (finish r)) o.state_ok
        (λ _.
          if_cases (λ r. Good (finish r)) o.timeouts_ok
            (λ _.
              if_cases Good o.file_ok
                (λ _. (refl, refl, refl, (rate, old, t, known, was, refl, raw))) (λ _. same))
            (λ _. same))
        (λ _. same)

  set_up_port-Good :
      (o' : Option Port)
      → get_port o.comm_state o.comm_timeouts ≡ o'
      → Good (set_up_port cbr o with_handle h (normalize_windows_device device).0 baud o')
  unfolding set_up_port set_port_rate set_raw_port
  set_up_port-Good none was = closed h s.handles fresh
  set_up_port-Good (some old) was = elim (Option-cases (get (baudrate_map cbr) baud)) [
    | inl e ↦ rw (e, set_up_port, set_port_rate) (e, closed h s.handles fresh)
    | inr (rate, e) ↦
        rw (e, set_up_port, set_port_rate)
          (finish_open-Good old _ rate e was (record {
            baud_rate = refl;
            frame = (refl, refl, refl);
            flags = raw_flags-raw_bit old.dcb.flags;
            timeouts = refl;
          }))
  ]

  -- However each system call turns out, with a handle that was not open before: where Open succeeds,
  -- one handle more is open, on the path of the device, the rate is one of the table, and the port is
  -- in raw mode at this rate, with the other flags as they were read. Where Open fails, no handle is left open.
  pub open_port-PortLeaves :
      let (s', r) = open_port cbr o s h device baud in PortLeaves cbr o s s' h device baud r
  unfolding open_port
  open_port-PortLeaves =
      if_cases Good o.create_ok (λ _. set_up_port-Good (get_port o.comm_state o.comm_timeouts) refl)
        (λ _. refl)
