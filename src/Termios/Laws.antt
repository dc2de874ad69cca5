-- ===== src/Termios/Laws.antt =====
-- internal/termios/termios.go: the bits that SetRawMode and SetBaudRate leave.
use go_meshtastic_serial2tcp.Prelude.{
  ℕ, ◌≡◌, sym, ap, true, false, ◌&&◌, not, Option, none, some, List, [], ◌∷◌, ◌==◌, arith,
  Option-cases, Bool-cases, inl, inr, some_inj,
}
use go_meshtastic_serial2tcp.Prelude.Keys.{nat_key}
use go_meshtastic_serial2tcp.Prelude.Assoc.{Assoc, get, values}
use go_meshtastic_serial2tcp.Termios.{
  Word, or, clear, all_of, Constants, Termios, clear_rates, with_rate, set_baud_rate,
}

-- Two words have no bit in common.
abbrev pub Apart : Word → Word → Type 0
Apart x y = (i : ℕ) → (x i && y i) ≡ false

-- The bits of all rates: CBAUD, as far as the table uses it.
abbrev pub any_rate : Constants → Word
any_rate k = all_of (values k.rates)

-- The flags that must be off, and those that must be on.
abbrev pub off_flags : Constants → Word
off_flags k = or k.parenb (or k.cstopb k.crtscts)

abbrev pub on_flags : Constants → Word
on_flags k = or k.clocal k.cread

-- What termios(3) says of the control modes: CS8 is a value of the mask CSIZE, and the mask, the
-- flags and the rates have bits of their own.
pub record AreModes (k : Constants) : Type 0 where
  pub cs8_csize : (i : ℕ) → k.cs8 i ≡ true → k.csize i ≡ true
  pub csize_off : Apart k.csize (off_flags k)
  pub csize_on : Apart k.csize (on_flags k)
  pub csize_hupcl : Apart k.csize k.hupcl
  pub csize_rate : Apart k.csize (any_rate k)
  pub off_on : Apart (off_flags k) (on_flags k)
  pub off_rate : Apart (off_flags k) (any_rate k)
  pub on_hupcl : Apart (on_flags k) k.hupcl
  pub on_rate : Apart (on_flags k) (any_rate k)
  pub hupcl_rate : Apart k.hupcl (any_rate k)

pub clear_rates-bit :
    (vs : List Word) (c : Word) (i : ℕ) → clear_rates vs c i ≡ (c i && not (all_of vs i))
unfolding clear_rates
clear_rates-bit [] c i = ground arith
clear_rates-bit (v ∷ vs) c i = ground (arith, clear_rates-bit vs (clear c v) i)

pub rate_among :
    (m : Assoc ℕ Word) (baud : ℕ) (rate : Word) (i : ℕ)
    → get m baud ≡ some rate
    → rate i ≡ true
    → all_of (values m) i ≡ true
unfolding get
rate_among [] baud rate i e t = absurd cc
rate_among ((b, v) ∷ m) baud rate i e t = elim (Bool-cases (b == baud)) [
  | inl h ↦ first (ap (λ (w : Word). w i) (some_inj (rw h at e)))
  | inr h ↦ later (rate_among m baud rate i (rw h at e) t)
]
  where
    first : v i ≡ rate i → all_of (values ((b, v) ∷ m)) i ≡ true
    first q = ground arith

    later : all_of (values m) i ≡ true → all_of (values ((b, v) ∷ m)) i ≡ true
    later q = ground arith

-- A result of SetBaudRate has the rate that the table gives.
pub set_baud_rate-some :
    (k : Constants) (t t' : Termios) (baud : ℕ)
    → set_baud_rate k t baud ≡ some t'
    → (rate : Word) × (get k.rates baud ≡ some rate) × (t' ≡ with_rate k t rate)
unfolding set_baud_rate
set_baud_rate-some k t t' baud e = elim (Option-cases (get k.rates baud)) [
  | inl n ↦ absurd (never (rw (n, set_baud_rate) at e))
  | inr (rate, r) ↦ (rate, r, sym (some_inj (rw (r, set_baud_rate) at e)))
]
  where
    never : ◌≡◌ {A = Option Termios} none (some t') → ⊥
    never h = cc

pub set_baud_rate-none :
    (k : Constants) (t : Termios) (baud : ℕ)
    → set_baud_rate k t baud ≡ none
    → get k.rates baud ≡ none
unfolding set_baud_rate
set_baud_rate-none k t baud e = elim (Option-cases (get k.rates baud)) [
  | inl n ↦ n
  | inr (rate, r) ↦ absurd (never (rw (r, set_baud_rate) at e))
]
  where
    never : {t' : Termios} → ◌≡◌ {A = Option Termios} (some t') none → ⊥
    never h = cc
