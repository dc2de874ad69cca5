-- ===== src/Prelude/Format/Laws.antt =====
-- A number is read back from its hexadecimal digits.
use Prim.Native.Nat.{ℕ, zero, suc, ◌+◌, ◌-◌, ◌*◌, ◌/◌, ◌%◌, ◌<◌}
use mathlib.Core.Path.{◌≡◌, ap, ◌∙◌}
use mathlib.Core.Bool.{true}
use mathlib.Core.List.{[], ◌∷◌}
use native.Mathlib.Omega.{arith}
use go_meshtastic_serial2tcp.Prelude.Keys.{Text}
use go_meshtastic_serial2tcp.Prelude.Tests.{ltb, if◌then◌else◌, Bool-cases}
use mathlib.Core.Logic.{inl, inr}
use go_meshtastic_serial2tcp.Prelude.Format.{digit_char, digits, hex}

abbrev pub char_digit : ℕ → ℕ
char_digit c = if ltb c 58 then c - 48 else c - 87

pub unhex : ℕ → Text → ℕ
unhex n [] = n
unhex n (c ∷ s) = unhex (n * 16 + char_digit c) s

char_digit-digit_char : (d : ℕ) → d < 16 → char_digit (digit_char d) ≡ d
char_digit-digit_char d h = ground arith

last_digit : (n : ℕ) → n / 16 * 16 + char_digit (digit_char (n % 16)) ≡ n
last_digit n =
    ap (λ t. n / 16 * 16 + t) (char_digit-digit_char (n % 16) (omega arith)) ∙ (omega arith)

unhex-digits : (fuel n : ℕ) (s : Text) → n < fuel → unhex 0 (digits 16 fuel n s) ≡ unhex n s
unfolding digits unhex
unhex-digits zero n s h = absurd (omega arith)
unhex-digits (suc fuel) n s h = elim (Bool-cases (ltb n 16)) [
  | inl e ↦ rw e (ap (λ t. unhex t s) (one_digit n e))
  | inr e ↦ rw e (
      unhex-digits fuel (n / 16) (digit_char (n % 16) ∷ s) (ground arith)
      ∙ ap (λ t. unhex t s) (last_digit n))
]
  where
    one_digit : (n : ℕ) → ltb n 16 ≡ true → 0 * 16 + char_digit (digit_char (n % 16)) ≡ n
    one_digit n e = ground arith

pub unhex-hex : (n : ℕ) → unhex 0 (hex n) ≡ n
unfolding hex unhex
unhex-hex n = unhex-digits (suc n) n [] (omega arith)
