-- ===== src/Serial/Tests.antt =====
-- internal/serial: a device at 38400, and the names of a Windows port.
use go_meshtastic_serial2tcp.Prelude.{ℕ, refl, true, some, [], ◌∷◌, ◌==◌, arith}
use go_meshtastic_serial2tcp.Prelude.Keys.{Text}
use go_meshtastic_serial2tcp.Termios.{Word, Constants}
use go_meshtastic_serial2tcp.Termios.Laws.{AreModes}
use go_meshtastic_serial2tcp.Serial.{Outcomes, Device, Opened, open_device}
use go_meshtastic_serial2tcp.Serial.Laws.{Leaves, open_device-Leaves}

abbrev bit : ℕ → Word
bit n i = i == n

abbrev bits : Constants
bits = record {
  ignbrk = bit 0;
  brkint = bit 1;
  parmrk = bit 3;
  istrip = bit 5;
  inlcr = bit 6;
  igncr = bit 7;
  icrnl = bit 8;
  ixon = bit 10;
  ixoff = bit 12;
  ixany = bit 11;
  inpck = bit 4;
  ignpar = bit 2;
  opost = bit 0;
  echo = bit 3;
  echonl = bit 6;
  icanon = bit 1;
  isig = bit 0;
  iexten = bit 15;
  csize = bit 4;
  parenb = bit 8;
  cstopb = bit 6;
  crtscts = bit 31;
  cs8 = bit 4;
  clocal = bit 11;
  cread = bit 7;
  hupcl = bit 10;
  rates = (9600, bit 0) ∷ (38400, bit 1) ∷ [];
}

bits-AreModes : AreModes bits
bits-AreModes = record {
  cs8_csize = λ i e. ground arith;
  csize_off = λ i. ground arith;
  csize_on = λ i. ground arith;
  csize_hupcl = λ i. ground arith;
  csize_rate = λ i. ground arith;
  off_on = λ i. ground arith;
  off_rate = λ i. ground arith;
  on_hupcl = λ i. ground arith;
  on_rate = λ i. ground arith;
  hupcl_rate = λ i. ground arith;
}

abbrev fresh : Device
fresh = record {
  open_fds = [];
  attributes = record {
    iflag = bit 8;
    oflag = bit 0;
    lflag = bit 3;
    cflag = bit 0;
    vmin = 0;
    vtime = 5;
    ispeed = bit 0;
    ospeed = bit 0;
  };
}

abbrev well : Outcomes
well = record {
  open_ok = true;
  nonblock_ok = true;
  get = some fresh.attributes;
  set_ok = true;
  file_ok = true;
}

abbrev result : Device × Opened
result = open_device bits well fresh 3 38400

open_device-Leaves_example : Leaves bits fresh result.0 3 38400 result.1
open_device-Leaves_example = open_device-Leaves bits bits-AreModes fresh 3 38400 refl well

-- com3:
abbrev port_name : Text
port_name = 99 ∷ 111 ∷ 109 ∷ 51 ∷ 58 ∷ []
