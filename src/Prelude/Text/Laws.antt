-- ===== src/Prelude/Text/Laws.antt =====
-- strings.TrimSpace a second time changes nothing.
use Prim.Native.Nat.{ℕ, zero, suc, ◌-◌}
use mathlib.Core.Path.{◌≡◌, refl, sym, ap, ◌∙◌}
use mathlib.Core.Logic.{inl, inr}
use mathlib.Core.Bool.{true}
use mathlib.Core.List.{[], ◌∷◌, ◌++◌, reverse, reverse-append, reverse-reverse}
use go_meshtastic_serial2tcp.Prelude.Keys.{Text}
use go_meshtastic_serial2tcp.Prelude.Tests.{◌==◌, Bool-cases}
use go_meshtastic_serial2tcp.Prelude.Text.{
  is_space, is_space2, space_len, space_len_rev, trim_by, trim_space,
}

module _ (len : Text → ℕ) where
  trim_by-starts :
      (skip : ℕ) (s : Text) → (len [] == 0) ≡ true → (len (trim_by len skip s) == 0) ≡ true
  unfolding trim_by
  trim_by-starts skip [] h = h
  trim_by-starts (suc n) (a ∷ s) h = trim_by-starts n s h
  trim_by-starts zero (a ∷ s) h = elim (Bool-cases (len (a ∷ s) == 0)) [
    | inl e ↦ rw e e
    | inr e ↦ rw e (trim_by-starts (len (a ∷ s) - 1) s h)
  ]

  trim_by-id : (s : Text) → (len s == 0) ≡ true → trim_by len 0 s ≡ s
  unfolding trim_by
  trim_by-id [] h = refl
  trim_by-id (a ∷ s) h = rw h refl

  trim_by-suffix : (skip : ℕ) (s : Text) → (pre : Text) × (pre ++ trim_by len skip s ≡ s)
  unfolding trim_by
  trim_by-suffix skip [] = ([], refl)
  trim_by-suffix (suc n) (a ∷ s) = let (pre, e) = trim_by-suffix n s in (a ∷ pre, ap (λ t. a ∷ t) e)
  trim_by-suffix zero (a ∷ s) = elim (Bool-cases (len (a ∷ s) == 0)) [
    | inl e ↦ ([], rw e refl)
    | inr e ↦
        let (pre, f) = trim_by-suffix (len (a ∷ s) - 1) s in (a ∷ pre, rw e (ap (λ t. a ∷ t) f))
  ]

-- A text whose beginning is longer than another text has no white space in front that the other
-- lacks.
space_len-prefix : (p x : Text) → (space_len (p ++ x) == 0) ≡ true → (space_len p == 0) ≡ true
space_len-prefix [] x h = refl
space_len-prefix (a ∷ []) x h = one x h
  where
    one : (x : Text) → (space_len (a ∷ x) == 0) ≡ true → (space_len (a ∷ []) == 0) ≡ true
    one [] h = h
    one (b ∷ []) h = elim (Bool-cases (is_space a)) [ inl e ↦ rw e (rw e at h) | inr e ↦ rw e refl ]
    one (b ∷ c ∷ s) h = elim (Bool-cases (is_space a)) [
      | inl e ↦ rw e (rw e at h)
      | inr e ↦ rw e refl
    ]
space_len-prefix (a ∷ b ∷ []) x h = two x h
  where
    two : (x : Text) → (space_len (a ∷ b ∷ x) == 0) ≡ true → (space_len (a ∷ b ∷ []) == 0) ≡ true
    two [] h = h
    two (c ∷ s) h = elim (Bool-cases (is_space a)) [
      | inl e ↦ rw e (rw e at h)
      | inr e ↦ elim (Bool-cases (is_space2 a b)) [
        | inl f ↦ rw (e, f) (rw (e, f) at h)
        | inr f ↦ rw (e, f) refl
      ]
    ]
space_len-prefix (a ∷ b ∷ c ∷ p) x h = h

-- No white space in front, and none at the end.
abbrev pub IsTrimmed : Text → Type 0
IsTrimmed s = ((space_len s == 0) ≡ true) × ((space_len_rev (reverse s) == 0) ≡ true)

pub IsTrimmed-trim_space : (s : Text) → IsTrimmed s → trim_space s ≡ s
unfolding trim_space
IsTrimmed-trim_space s (front, back) =
    ap (λ t. reverse (trim_by space_len_rev 0 (reverse t))) (trim_by-id space_len s front)
    ∙ ap reverse (trim_by-id space_len_rev (reverse s) back)
    ∙ reverse-reverse s

module _ (s : Text) where
  abbrev without_front : Text
  without_front = trim_by space_len 0 s

  abbrev without_both : Text
  without_both = trim_by space_len_rev 0 (reverse without_front)

  cut : (pre : Text) × (pre ++ without_both ≡ reverse without_front)
  cut = trim_by-suffix space_len_rev 0 (reverse without_front)

  whole : reverse without_both ++ reverse cut.0 ≡ without_front
  whole = sym (reverse-append cut.0 without_both) ∙ ap reverse cut.1 ∙ reverse-reverse without_front

  pub trim_space-IsTrimmed : IsTrimmed (trim_space s)
  unfolding trim_space
  trim_space-IsTrimmed = (
    space_len-prefix (reverse without_both) (reverse cut.0)
        (ap (λ t. space_len t == 0) whole ∙ trim_by-starts space_len 0 s refl),
    ap (λ t. space_len_rev t == 0) (reverse-reverse without_both)
        ∙ trim_by-starts space_len_rev 0 (reverse without_front) refl,
  )

  -- What is left is a part of what was there.
  pub trim_space-part : (pre : Text) × (post : Text) × (pre ++ (trim_space s ++ post) ≡ s)
  unfolding trim_space
  trim_space-part =
      let (pre, e) = trim_by-suffix space_len 0 s in
      (pre, reverse cut.0, ap (λ t. pre ++ t) whole ∙ e)

-- strings.TrimSpace leaves no white space to trim.
pub trim_space-trim_space : (s : Text) → trim_space (trim_space s) ≡ trim_space s
trim_space-trim_space s = IsTrimmed-trim_space (trim_space s) (trim_space-IsTrimmed s)
