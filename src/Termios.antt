-- ===== src/Termios.antt =====
-- internal/termios/termios.go: terminal attributes on Unix. A flag word is its bits; the constants
-- and the system calls are golang.org/x/sys/unix, which the repository only uses: `Constants`.
pub mod Laws
pub mod Darwin
pub mod Windows
use go_meshtastic_serial2tcp.Prelude.{
  ℕ, ◌/◌, ◌%◌, ◌^◌, Bool, false, ◌&&◌, ◌||◌, not, Option, none, some, List, [], ◌∷◌, ◌==◌,
}
use go_meshtastic_serial2tcp.Prelude.Keys.{nat_key}
use go_meshtastic_serial2tcp.Prelude.Assoc.{Assoc, get, values}

abbrev pub Word : Type 0
Word = ℕ → Bool

-- The bits of a number.
abbrev pub word : ℕ → Word
word n i = n / 2 ^ i % 2 == 1

-- x | y, x &^ y
abbrev pub or : Word → Word → Word
or x y i = x i || y i

abbrev pub clear : Word → Word → Word
clear x y i = x i && not (y i)

abbrev pub no_bits : Word
no_bits i = false

abbrev pub all_of : List Word → Word
all_of [] = no_bits
all_of (x ∷ xs) = or x (all_of xs)

pub record Constants : Type 0 where
  pub ignbrk : Word
  pub brkint : Word
  pub parmrk : Word
  pub istrip : Word
  pub inlcr : Word
  pub igncr : Word
  pub icrnl : Word
  pub ixon : Word
  pub ixoff : Word
  pub ixany : Word
  pub inpck : Word
  pub ignpar : Word
  pub opost : Word
  pub echo : Word
  pub echonl : Word
  pub icanon : Word
  pub isig : Word
  pub iexten : Word
  pub csize : Word
  pub parenb : Word
  pub cstopb : Word
  pub crtscts : Word
  pub cs8 : Word
  pub clocal : Word
  pub cread : Word
  pub hupcl : Word
  -- the constants B9600 to B921600, by their rates: baudrateMap
  pub rates : Assoc ℕ Word

-- unix.Termios; of the control characters, VMIN and VTIME.
pub record Termios : Type 0 where
  pub iflag : Word
  pub oflag : Word
  pub lflag : Word
  pub cflag : Word
  pub vmin : ℕ
  pub vtime : ℕ
  pub ispeed : Word
  pub ospeed : Word

-- for _, v := range baudrateMap { Cflag &^= v }
unfoldable pub clear_rates : List Word → Word → Word
clear_rates [] c = c
clear_rates (v ∷ vs) c = clear_rates vs (clear c v)

module _ (k : Constants) where
  abbrev pub input_flags : Word
  input_flags = all_of (
      k.ignbrk ∷ k.brkint ∷ k.parmrk ∷ k.istrip ∷ k.inlcr ∷ k.igncr ∷ k.icrnl ∷ k.ixon ∷ k.ixoff
      ∷ k.ixany ∷ k.inpck ∷ k.ignpar ∷ [])

  abbrev pub local_flags : Word
  local_flags = all_of (k.echo ∷ k.echonl ∷ k.icanon ∷ k.isig ∷ k.iexten ∷ [])

  abbrev pub control_flags : Word
  control_flags = all_of (k.csize ∷ k.parenb ∷ k.cstopb ∷ k.crtscts ∷ [])

  unfoldable pub set_raw_mode : Termios → Termios
  set_raw_mode t = record t {
    iflag = clear t.iflag input_flags;
    oflag = clear t.oflag k.opost;
    lflag = clear t.lflag local_flags;
    cflag = or (clear t.cflag control_flags) (all_of (k.cs8 ∷ k.clocal ∷ k.cread ∷ []));
    vmin = 1;
    vtime = 0;
  }

  abbrev pub with_rate : Termios → Word → Termios
  with_rate t rate = record t {
    cflag = or (clear_rates (values k.rates) t.cflag) rate;
    ispeed = rate;
    ospeed = rate;
  }

  -- SetBaudRate; `none` is the error of a rate that is not supported.
  unfoldable pub set_baud_rate : Termios → ℕ → Option Termios
  unfolding clear_rates
  set_baud_rate t baud = elim (get k.rates baud) [
    | none ↦ none
    | some rate ↦ some (with_rate t rate)
  ]
