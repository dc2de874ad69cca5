-- ===== src/Serial/Laws.antt =====
-- internal/serial/serial_unix.go, Open: what is open afterwards, and in which mode.
use go_meshtastic_serial2tcp.Prelude.{
  ℕ, ◌≡◌, refl, sym, ap, ◌∙◌, Bool, true, false, ◌&&◌, ◌||◌, not, Option, none, some, List, ◌∷◌,
  if◌then◌else◌, arith, if_cases, subst,
}
use go_meshtastic_serial2tcp.Prelude.Keys.{nat_key}
use go_meshtastic_serial2tcp.Prelude.Assoc.{get, values}
use go_meshtastic_serial2tcp.Termios.{
  Word, Constants, Termios, input_flags, local_flags, set_raw_mode, with_rate, set_baud_rate,
}
use go_meshtastic_serial2tcp.Termios.Laws.{
  AreModes, any_rate, off_flags, on_flags, clear_rates-bit, rate_among, set_baud_rate-some,
  set_baud_rate-none,
}
use go_meshtastic_serial2tcp.Serial.{
  Outcomes, Device, Opened, opened, get_failed, set_failed, file_failed, unsupported_baud, without,
  close, serial_mode, set_up, open_device,
}

-- A raw line at a rate: no flag of the input, output and local processing; eight data bits; no
-- parity, one stop bit and no flow control; receiver on, modem lines ignored, no hang-up on close.
pub record IsSerialMode (k : Constants) (rate : Word) (t : Termios) : Type 0 where
  pub input : (i : ℕ) → (t.iflag i && input_flags k i) ≡ false
  pub output : (i : ℕ) → (t.oflag i && k.opost i) ≡ false
  pub local : (i : ℕ) → (t.lflag i && local_flags k i) ≡ false
  pub size : (i : ℕ) → (t.cflag i && k.csize i) ≡ k.cs8 i
  pub off : (i : ℕ) → (t.cflag i && off_flags k i) ≡ false
  pub on : (i : ℕ) → on_flags k i ≡ true → t.cflag i ≡ true
  pub hang_up : (i : ℕ) → (t.cflag i && k.hupcl i) ≡ false
  pub speed : (i : ℕ) → (t.cflag i && any_rate k i) ≡ rate i
  pub input_speed : t.ispeed ≡ rate
  pub output_speed : t.ospeed ≡ rate
  pub one_byte : (t.vmin ≡ 1) × (t.vtime ≡ 0)

module _ (k : Constants) (modes : AreModes k) (t : Termios) (baud : ℕ) (rate : Word)
    (known : get k.rates baud ≡ some rate) where
  abbrev result : Termios
  result = with_rate k (serial_mode k t) rate

  -- One bit of the control flags: what it was, and the bits of the words that go in.
  abbrev control_bit : (c csize off cs8 on hupcl any r : Bool) → Bool
  control_bit c csize off cs8 on hupcl any r =
      ((((c && not (csize || off)) || (cs8 || on)) && not hupcl) && not any) || r

  result-bit :
      (i : ℕ)
      → result.cflag i
        ≡ control_bit
            (t.cflag i)
            (k.csize i)
            (off_flags k i)
            (k.cs8 i)
            (on_flags k i)
            (k.hupcl i)
            (any_rate k i)
            (rate i)
  unfolding set_raw_mode
  result-bit i =
      ap (λ x. x || rate i) (clear_rates-bit (values k.rates) (serial_mode k t).cflag i)
      ∙ ap (λ x. ((x && not (k.hupcl i)) && not (any_rate k i)) || rate i)
          (before (t.cflag i) (k.csize i) (k.parenb i) (k.cstopb i) (k.crtscts i) (k.cs8 i)
            (k.clocal i) (k.cread i))
    where
      before :
          (c csize parenb cstopb crtscts cs8 clocal cread : Bool)
          → (((c && not (csize || (parenb || (cstopb || (crtscts || false)))))
                || (cs8 || (clocal || (cread || false))))
              || (clocal || cread))
            ≡ ((c && not (csize || (parenb || (cstopb || crtscts)))) || (cs8 || (clocal || cread)))
      before c csize parenb cstopb crtscts cs8 clocal cread = ground arith

  module _ (i : ℕ) where
    rate_in : rate i ≡ true → any_rate k i ≡ true
    rate_in = rate_among k.rates baud rate i known

    size : (result.cflag i && k.csize i) ≡ k.cs8 i
    size = rw result-bit (
        ground (
          arith,
          modes.cs8_csize i,
          modes.csize_off i,
          modes.csize_on i,
          modes.csize_hupcl i,
          modes.csize_rate i,
          rate_in,
        ))

    off : (result.cflag i && off_flags k i) ≡ false
    off = rw result-bit (
        ground
          (arith, modes.cs8_csize i, modes.csize_off i, modes.off_on i, modes.off_rate i, rate_in))

    on : on_flags k i ≡ true → result.cflag i ≡ true
    on h = rw result-bit (ground (arith, modes.on_hupcl i, modes.on_rate i))

    hang_up : (result.cflag i && k.hupcl i) ≡ false
    hang_up = rw result-bit (ground (arith, modes.hupcl_rate i, rate_in))

    speed : (result.cflag i && any_rate k i) ≡ rate i
    speed = rw result-bit (ground (arith, rate_in))

  and_clear : (a b : Bool) → ((a && not b) && b) ≡ false
  and_clear a b = ground arith

  result-IsSerialMode : IsSerialMode k rate result
  unfolding set_raw_mode
  result-IsSerialMode = record {
    input = λ i. and_clear (t.iflag i) (input_flags k i);
    output = λ i. and_clear (t.oflag i) (k.opost i);
    local = λ i. and_clear (t.lflag i) (local_flags k i);
    size = size;
    off = off;
    on = on;
    hang_up = hang_up;
    speed = speed;
    input_speed = refl;
    output_speed = refl;
    one_byte = (refl, refl);
  }

-- What each result of Open says of the device.
abbrev pub Leaves : Constants → Device → Device → ℕ → ℕ → Opened → Type 0
Leaves k d d' fd baud (opened x) =
    (x ≡ fd)
    × (d'.open_fds ≡ fd ∷ d.open_fds)
    × ((rate : Word) × (get k.rates baud ≡ some rate) × IsSerialMode k rate d'.attributes)
Leaves k d d' fd baud unsupported_baud =
    (get k.rates baud ≡ none) × (d'.open_fds ≡ d.open_fds) × (d'.attributes ≡ d.attributes)
Leaves k d d' fd baud file_failed = d'.open_fds ≡ d.open_fds
Leaves k d d' fd baud _ = (d'.open_fds ≡ d.open_fds) × (d'.attributes ≡ d.attributes)

pub closed : (fd : ℕ) (fds : List ℕ) → without fds fd ≡ fds → without (fd ∷ fds) fd ≡ fds
closed fd fds h = ground arith

module _ (k : Constants) (modes : AreModes k) (d : Device) (fd baud : ℕ)
    (fresh : without d.open_fds fd ≡ d.open_fds) where
  abbrev with_fd : Device
  with_fd = record d { open_fds = fd ∷ d.open_fds }

  abbrev Good : Device × Opened → Type 0
  Good (d', r) = Leaves k d d' fd baud r

  same_fds : without (fd ∷ d.open_fds) fd ≡ d.open_fds
  same_fds = closed fd d.open_fds fresh

  set_up-Good : (o : Outcomes) → Good (set_up k o with_fd fd baud)
  unfolding set_up
  set_up-Good o = if_cases Good o.nonblock_ok (λ _. read o.get) (λ _. (same_fds, refl))
    where
      finish :
          (t : Termios) (r : Option Termios)
          → set_baud_rate k (serial_mode k t) baud ≡ r
          → Good (elim r [
            | none ↦ (close with_fd fd, unsupported_baud)
            | some t' ↦
                if o.set_ok
                then (if o.file_ok
                    then (record with_fd { attributes = t' }, opened fd)
                    else (close (record with_fd { attributes = t' }) fd, file_failed))
                else (close with_fd fd, set_failed)
          ])
      finish t none e = (set_baud_rate-none k (serial_mode k t) baud e, same_fds, refl)
      finish t (some t') e =
          let (rate, known, t'_eq) = set_baud_rate-some k (serial_mode k t) t' baud e in
          if_cases Good o.set_ok
            (λ _.
              if_cases Good o.file_ok
                (λ _. (
                  refl,
                  refl,
                  (
                    rate,
                    known,
                    subst (IsSerialMode k rate) (sym t'_eq)
                        (result-IsSerialMode k modes t baud rate known),
                  ),
                ))
                (λ _. same_fds))
            (λ _. (same_fds, refl))

      read :
          (g : Option Termios)
          → Good (elim g [
            | none ↦ (close with_fd fd, get_failed)
            | some t ↦ elim (set_baud_rate k (serial_mode k t) baud) [
              | none ↦ (close with_fd fd, unsupported_baud)
              | some t' ↦
                  if o.set_ok
                  then (if o.file_ok
                      then (record with_fd { attributes = t' }, opened fd)
                      else (close (record with_fd { attributes = t' }) fd, file_failed))
                  else (close with_fd fd, set_failed)
            ]
          ])
      read none = (same_fds, refl)
      read (some t) = finish t (set_baud_rate k (serial_mode k t) baud) refl

  -- However each system call turns out, with a descriptor that was not open before: where Open
  -- succeeds, one descriptor more is open, the rate is one of the table, and the device is in raw
  -- mode at this rate, with eight data bits, no parity, one stop bit, no flow control and no
  -- hang-up on close. Where Open fails, no descriptor is left open, and the device's attributes are
  -- what they were, unless only os.NewFile failed; the error about the rate means that the table
  -- does not have it. That the bits of the control modes do not overlap is taken from termios(3).
  pub open_device-Leaves :
      (o : Outcomes) → let (d', r) = open_device k o d fd baud in Leaves k d d' fd baud r
  unfolding open_device
  open_device-Leaves o = if_cases Good o.open_ok (λ _. set_up-Good o) (λ _. (refl, refl))
