-- ===== src/Prelude/Format.antt =====
-- The parts of Go's `fmt` that the program uses, as bytes.
mod Laws
use Prim.Native.Nat.{ℕ, zero, suc, ◌+◌, ◌/◌, ◌%◌}
use mathlib.Core.Bool.{Bool, true, false}
use mathlib.Core.List.{[], ◌∷◌}
use go_meshtastic_serial2tcp.Prelude.Keys.{ℤ, pos, negsuc, Text}
use go_meshtastic_serial2tcp.Prelude.Tests.{ltb, if◌then◌else◌}
use go_meshtastic_serial2tcp.Prelude.Text.{bytes}

abbrev pub digit_char : ℕ → ℕ
digit_char d = if ltb d 10 then 48 + d else 87 + d

-- The digits of `n`, in front of those printed before; `n` rounds are more than enough.
unfoldable pub digits : ℕ → ℕ → ℕ → Text → Text
digits base zero n acc = acc
digits base (suc fuel) n acc =
    let more = digits base fuel (n / base) (digit_char (n % base) ∷ acc) in
    if ltb n base then digit_char (n % base) ∷ acc else more

-- %x
unfoldable pub hex : ℕ → Text
unfolding digits
hex n = digits 16 (suc n) n []

-- %d
unfoldable pub decimal : ℕ → Text
unfolding digits
decimal n = digits 10 (suc n) n []

unfoldable pub signed : ℤ → Text
unfolding decimal
signed (pos n) = decimal n
signed (negsuc n) = 45 ∷ decimal (suc n)

-- %v and %t of a bool
abbrev pub bool_text : Bool → Text
bool_text true = bytes "true"
bool_text false = bytes "false"
