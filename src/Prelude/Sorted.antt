-- ===== src/Prelude/Sorted.antt =====
-- `sort.Strings` and `sort.Slice` on the keys of a map, and the values in the order of their keys.
pub mod By
use mathlib.Core.Path.{◌≡◌, refl, subst, ap₂, ◌∙◌}
use mathlib.Core.Logic.{inl, inr}
use mathlib.Core.Bool.{true, false}
use mathlib.Core.Option.{none, some}
use mathlib.Core.List.{List, [], ◌∷◌, map, Perm}
use mathlib.Core.List.Perm
use native.Mathlib.Omega.{arith}
use go_meshtastic_serial2tcp.Prelude.Keys.{Key}
use go_meshtastic_serial2tcp.Prelude.Tests.{if◌then◌else◌, Bool-cases}
use go_meshtastic_serial2tcp.Prelude.Lists.{All}
use go_meshtastic_serial2tcp.Prelude.Assoc.{Assoc, get, keys, values, IsMap}

module _ {ℓ} {K : Type ℓ} ⦃o : Key K⦄ where
  abbrev pub IsSorted : List K → Type 0
  IsSorted [] = Unit
  IsSorted (k ∷ ks) = All (λ j. o.before k j ≡ true) ks × IsSorted ks

  unfoldable pub insert_sorted : K → List K → List K
  insert_sorted k [] = k ∷ []
  insert_sorted k (j ∷ ks) = if o.before k j then k ∷ j ∷ ks else j ∷ insert_sorted k ks

  unfoldable pub sort : List K → List K
  unfolding insert_sorted
  sort [] = []
  sort (k ∷ ks) = insert_sorted k (sort ks)

  insert_sorted-perm : (k : K) (ks : List K) → Perm (insert_sorted k ks) (k ∷ ks)
  unfolding insert_sorted
  insert_sorted-perm k [] = Perm.refl _
  insert_sorted-perm k (j ∷ ks) = elim (Bool-cases (o.before k j)) [
    | inl e ↦ rw e (Perm.refl _)
    | inr e ↦ rw e (Perm.trans (Perm.cons j (insert_sorted-perm k ks)) (Perm.swap k j ks))
  ]

  pub sort-perm : (ks : List K) → Perm (sort ks) ks
  unfolding sort
  sort-perm [] = Perm.refl _
  sort-perm (k ∷ ks) = Perm.trans (insert_sorted-perm k (sort ks)) (Perm.cons k (sort-perm ks))

  All-before :
      (k j : K) (ks : List K)
      → o.before k j ≡ true
      → All (λ i. o.before j i ≡ true) ks
      → All (λ i. o.before k i ≡ true) ks
  All-before k j [] h a = tt
  All-before k j (i ∷ ks) h a = (o.before_trans k j i h a.0, All-before k j ks h a.1)

  pub insert_sorted-All {κ} :
      (P : K → Type κ) (k : K) (ks : List K) → P k → All P ks → All P (insert_sorted k ks)
  unfolding insert_sorted
  insert_sorted-All P k [] h a = (h, tt)
  insert_sorted-All P k (j ∷ ks) h a = elim (Bool-cases (o.before k j)) [
    | inl e ↦ rw e (h, a)
    | inr e ↦ rw e (a.0, insert_sorted-All P k ks h a.1)
  ]

  before_other : (k j : K) → o.before k j ≡ false → o.before j k ≡ true
  before_other k j e = ground (arith, o.before_total k j)

  insert_sorted-IsSorted : (k : K) (ks : List K) → IsSorted ks → IsSorted (insert_sorted k ks)
  unfolding insert_sorted
  insert_sorted-IsSorted k [] s = (tt, tt)
  insert_sorted-IsSorted k (j ∷ ks) s = elim (Bool-cases (o.before k j)) [
    | inl e ↦ rw e ((e, All-before k j ks e s.0), s)
    | inr e ↦ rw e (
      insert_sorted-All (λ i. o.before j i ≡ true) k ks (before_other k j e) s.0,
      insert_sorted-IsSorted k ks s.1,
    )
  ]

  pub sort-IsSorted : (ks : List K) → IsSorted (sort ks)
  unfolding sort
  sort-IsSorted [] = tt
  sort-IsSorted (k ∷ ks) = insert_sorted-IsSorted k (sort ks) (sort-IsSorted ks)

module _ {ℓ κ} {K : Type ℓ} {V : Type κ} ⦃o : Key K⦄ (d : V) where
  -- m[k], which is the zero value `d` where the key is missing
  abbrev pub at : Assoc K V → K → V
  at m k = elim (get m k) [ none ↦ d | some v ↦ v ]

  -- The values in the order of the sorted keys.
  unfoldable pub in_key_order : Assoc K V → List V
  in_key_order m = map (at m) (sort (keys m))

  others : (j : K) (m : Assoc K V) → get m j ≡ none → All (λ k. o.beq j k ≡ false) (keys m)
  unfolding get
  others j [] h = tt
  others j ((i, w) ∷ m) h = ground (arith, o.beq_iff i j, o.beq_iff j i, others j m)

  at_self : (j : K) (w : V) (m : Assoc K V) → at ((j, w) ∷ m) j ≡ w
  unfolding get
  at_self j w m = ground (arith, o.beq_iff j j)

  at_other : (j k : K) (w : V) (m : Assoc K V) → o.beq j k ≡ false → at ((j, w) ∷ m) k ≡ at m k
  unfolding get
  at_other j k w m e = ground arith

  map-at :
      (j : K) (w : V) (m : Assoc K V) (ks : List K)
      → All (λ k. o.beq j k ≡ false) ks
      → map (at ((j, w) ∷ m)) ks ≡ map (at m) ks
  map-at j w m [] h = refl
  map-at j w m (k ∷ ks) h = ap₂ ◌∷◌ (at_other j k w m h.0) (map-at j w m ks h.1)

  pub map-at-keys : (m : Assoc K V) → IsMap m → map (at m) (keys m) ≡ values m
  map-at-keys [] h = refl
  map-at-keys ((j, w) ∷ m) h =
      ap₂ ◌∷◌ (at_self j w m) (map-at j w m (keys m) (others j m h.0) ∙ map-at-keys m h.1)

  -- Every value of the map, once, in the order of the keys.
  pub in_key_order-perm : (m : Assoc K V) → IsMap m → Perm (in_key_order m) (values m)
  unfolding in_key_order
  in_key_order-perm m h =
      subst (λ vs. Perm (map (at m) (sort (keys m))) vs) (map-at-keys m h)
        (Perm.map (at m) (sort-perm (keys m)))
