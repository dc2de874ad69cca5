-- ===== src/Prelude/Text.antt =====
-- The parts of Go's `strings` that the program uses, on the bytes of a string.
pub mod Laws
use Prim.Native.Char.{code}
use Prim.Native.String.{String}
use Prim.Native.Nat.{ℕ, zero, suc, ◌-◌}
use mathlib.Core.Bool.{Bool, ◌&&◌, ◌||◌}
use mathlib.Core.List.{List, [], ◌∷◌, reverse}
use go_meshtastic_serial2tcp.Prelude.Keys.{Text}
use go_meshtastic_serial2tcp.Prelude.Tests.{leb, ◌==◌, if◌then◌else◌}

-- The bytes of a literal, which is ASCII.
abbrev pub bytes : String → Text
bytes String.[] = []
bytes (String.◌∷◌ c s) = code c ∷ bytes s

-- White space in UTF-8, in one, two or three bytes.
abbrev pub is_space : ℕ → Bool
is_space a = (leb 9 a && leb a 13) || a == 32

abbrev pub is_space2 : ℕ → ℕ → Bool
is_space2 a b = a == 0xC2 && (b == 0x85 || b == 0xA0)

abbrev pub is_space3 : ℕ → ℕ → ℕ → Bool
is_space3 a b c =
    (a == 0xE1 && (b == 0x9A && c == 0x80))
    || ((a == 0xE2
          && (b == 0x80 && ((leb 0x80 c && leb c 0x8A) || (c == 0xA8 || (c == 0xA9 || c == 0xAF)))))
        || ((a == 0xE2 && (b == 0x81 && c == 0x9F)) || (a == 0xE3 && (b == 0x80 && c == 0x80))))

-- The bytes of the white space at the front, 0 if there is none.
abbrev pub space_len : Text → ℕ
space_len [] = 0
space_len (a ∷ []) = if is_space a then 1 else 0
space_len (a ∷ b ∷ []) = if is_space a then 1 else if is_space2 a b then 2 else 0
space_len (a ∷ b ∷ c ∷ s) =
    if is_space a then 1 else if is_space2 a b then 2 else if is_space3 a b c then 3 else 0

-- The same for a text that is read from its end.
abbrev pub space_len_rev : Text → ℕ
space_len_rev [] = 0
space_len_rev (a ∷ []) = if is_space a then 1 else 0
space_len_rev (a ∷ b ∷ []) = if is_space a then 1 else if is_space2 b a then 2 else 0
space_len_rev (a ∷ b ∷ c ∷ s) =
    if is_space a then 1 else if is_space2 b a then 2 else if is_space3 c b a then 3 else 0

-- Drops `skip` bytes, and then white space as long as there is any.
pub trim_by : (Text → ℕ) → ℕ → Text → Text
trim_by len skip [] = []
trim_by len (suc n) (a ∷ s) = trim_by len n s
trim_by len zero (a ∷ s) =
    let rest = trim_by len (len (a ∷ s) - 1) s in if len (a ∷ s) == 0 then a ∷ s else rest

-- strings.TrimSpace
unfoldable pub trim_space : Text → Text
unfolding trim_by
trim_space s = reverse (trim_by space_len_rev 0 (reverse (trim_by space_len 0 s)))

unfoldable pub cons_head : ℕ → List Text → List Text
cons_head c [] = (c ∷ []) ∷ []
cons_head c (s ∷ ss) = (c ∷ s) ∷ ss

-- strings.Split by one byte
unfoldable pub split : ℕ → Text → List Text
unfolding cons_head
split sep [] = [] ∷ []
split sep (c ∷ s) = if c == sep then [] ∷ split sep s else cons_head c (split sep s)
