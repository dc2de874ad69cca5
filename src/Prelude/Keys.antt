-- ===== src/Prelude/Keys.antt =====
-- Keys of Go maps that the program sorts: equality and a total order, with three instances.
use Prim.Native.Nat.{ℕ}
use mathlib.Core.Path.{◌≡◌, refl, ap}
use mathlib.Core.Logic.{◌↔◌, ◌⊎◌, inl, inr}
use mathlib.Core.Bool.{Bool, true, false, ◌&&◌}
use mathlib.Core.List.{List, [], ◌∷◌}
use native.Mathlib.Omega.{arith}
use package.go_meshtastic_serial2tcp.Prelude.Tests.{ltb, leb, ◌==◌, if◌then◌else◌, ==_iff}

pub record Key {ℓ} (K : Type ℓ) : Type ℓ where
  pub beq : K → K → Bool
  pub beq_iff : (a b : K) → (beq a b ≡ true) ↔ (a ≡ b)
  -- the order that the program sorts by, `a <= b`
  pub before : K → K → Bool
  pub before_total : (a b : K) → (before a b ≡ true) ⊎ (before b a ≡ true)
  pub before_trans : (a b c : K) → before a b ≡ true → before b c ≡ true → before a c ≡ true
  pub before_antisym : (a b : K) → before a b ≡ true → before b a ≡ true → a ≡ b

pub beq_refl {ℓ} : {K : Type ℓ} ⦃o : Key K⦄ (k : K) → o.beq k k ≡ true
beq_refl ⦃o⦄ k = (o.beq_iff k k).1 refl

pub nat_before_total : (a b : ℕ) → (leb a b ≡ true) ⊎ (leb b a ≡ true)
nat_before_total a b = grind arith

pub nat_before_trans : (a b c : ℕ) → leb a b ≡ true → leb b c ≡ true → leb a c ≡ true
nat_before_trans a b c h k = ground arith

pub nat_before_antisym : (a b : ℕ) → leb a b ≡ true → leb b a ≡ true → a ≡ b
nat_before_antisym a b h k = ground arith

-- `uint32` keys
instance abbrev pub nat_key : Key ℕ
nat_key = record {
  beq = ◌==◌;
  beq_iff = ==_iff;
  before = leb;
  before_total = nat_before_total;
  before_trans = nat_before_trans;
  before_antisym = nat_before_antisym;
}

-- Signed integers: `negsuc n` is -(n + 1).
pub data ℤ : Type 0 where
  pos : ℕ → ℤ
  negsuc : ℕ → ℤ

abbrev pub int_eq : ℤ → ℤ → Bool
int_eq (pos a) (pos b) = a == b
int_eq (negsuc a) (negsuc b) = a == b
int_eq (pos a) (negsuc b) = false
int_eq (negsuc a) (pos b) = false

abbrev pub int_le : ℤ → ℤ → Bool
int_le (pos a) (pos b) = leb a b
int_le (negsuc a) (negsuc b) = leb b a
int_le (pos a) (negsuc b) = false
int_le (negsuc a) (pos b) = true

pub int_eq_iff : (a b : ℤ) → (int_eq a b ≡ true) ↔ (a ≡ b)
int_eq_iff a b = ground arith

pub int_le_total : (a b : ℤ) → (int_le a b ≡ true) ⊎ (int_le b a ≡ true)
int_le_total (pos a) (pos b) = nat_before_total a b
int_le_total (negsuc a) (negsuc b) = nat_before_total b a
int_le_total (pos a) (negsuc b) = inr refl
int_le_total (negsuc a) (pos b) = inl refl

pub int_le_trans : (a b c : ℤ) → int_le a b ≡ true → int_le b c ≡ true → int_le a c ≡ true
int_le_trans a b c h k = ground arith

pub int_le_antisym : (a b : ℤ) → int_le a b ≡ true → int_le b a ≡ true → a ≡ b
int_le_antisym (pos a) (pos b) h k = ap pos (nat_before_antisym a b h k)
int_le_antisym (negsuc a) (negsuc b) h k = ap negsuc (nat_before_antisym a b k h)
int_le_antisym (pos a) (negsuc b) h k = cc
int_le_antisym (negsuc a) (pos b) h k = cc

-- `int32` keys
instance abbrev pub int_key : Key ℤ
int_key = record {
  beq = int_eq;
  beq_iff = int_eq_iff;
  before = int_le;
  before_total = int_le_total;
  before_trans = int_le_trans;
  before_antisym = int_le_antisym;
}

-- A Go string is its bytes; strings compare byte by byte.
abbrev pub Text : Type 0
Text = List ℕ

abbrev pub text_eq : Text → Text → Bool
text_eq [] [] = true
text_eq [] (y ∷ ys) = false
text_eq (x ∷ xs) [] = false
text_eq (x ∷ xs) (y ∷ ys) = (x == y) && text_eq xs ys

abbrev pub text_le : Text → Text → Bool
text_le [] ys = true
text_le (x ∷ xs) [] = false
text_le (x ∷ xs) (y ∷ ys) = if x == y then text_le xs ys else ltb x y

pub text_eq_iff : (s t : Text) → (text_eq s t ≡ true) ↔ (s ≡ t)
text_eq_iff [] [] = ground arith
text_eq_iff [] (y ∷ ys) = ground arith
text_eq_iff (x ∷ xs) [] = ground arith
text_eq_iff (x ∷ xs) (y ∷ ys) = ground (arith, text_eq_iff xs ys)

pub text_le_total : (s t : Text) → (text_le s t ≡ true) ⊎ (text_le t s ≡ true)
text_le_total [] t = inl refl
text_le_total (x ∷ xs) [] = inr refl
text_le_total (x ∷ xs) (y ∷ ys) = grind (arith, text_le_total xs ys)

pub text_le_trans : (s t u : Text) → text_le s t ≡ true → text_le t u ≡ true → text_le s u ≡ true
text_le_trans [] t u h k = refl
text_le_trans (x ∷ xs) [] u h k = cc
text_le_trans (x ∷ xs) (y ∷ ys) [] h k = cc
text_le_trans (x ∷ xs) (y ∷ ys) (z ∷ zs) h k = ground (arith, text_le_trans xs ys zs)

pub text_le_antisym : (s t : Text) → text_le s t ≡ true → text_le t s ≡ true → s ≡ t
text_le_antisym [] [] h k = refl
text_le_antisym [] (y ∷ ys) h k = cc
text_le_antisym (x ∷ xs) [] h k = cc
text_le_antisym (x ∷ xs) (y ∷ ys) h k = ground (arith, text_le_antisym xs ys)

-- `string` keys
instance abbrev pub text_key : Key Text
text_key = record {
  beq = text_eq;
  beq_iff = text_eq_iff;
  before = text_le;
  before_total = text_le_total;
  before_trans = text_le_trans;
  before_antisym = text_le_antisym;
}
