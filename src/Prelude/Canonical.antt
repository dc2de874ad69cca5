-- ===== src/Prelude/Canonical.antt =====
-- The values of a map in the order of its keys do not depend on the order in which `range` visits
-- it.
use mathlib.Core.Path.{◌≡◌, refl, sym, ap, ap₂, ◌∙◌}
use mathlib.Core.Bool.{Bool, true, false, ◌||◌}
use mathlib.Core.Option.{Option, none, some}
use mathlib.Core.List.{List, [], ◌∷◌, map}
use native.Mathlib.Omega.{arith}
use go_meshtastic_serial2tcp.Prelude.Keys.{Key}
use go_meshtastic_serial2tcp.Prelude.Lists.{All}
use go_meshtastic_serial2tcp.Prelude.Assoc.{Assoc, get, keys, IsMap}
use go_meshtastic_serial2tcp.Prelude.Sorted.{
  IsSorted, insert_sorted, sort, sort-IsSorted, at, in_key_order,
}

abbrev is_some {κ} : {V : Type κ} → Option V → Bool
is_some none = false
is_some (some v) = true

module _ {ℓ} {K : Type ℓ} ⦃o : Key K⦄ where
  abbrev pub member : K → List K → Bool
  member k [] = false
  member k (j ∷ ks) = o.beq j k || member k ks

  abbrev pub AllDistinct : List K → Type 0
  AllDistinct [] = Unit
  AllDistinct (k ∷ ks) = (member k ks ≡ false) × AllDistinct ks

  abbrev pub SameMembers : List K → List K → Type ℓ
  SameMembers ks js = (k : K) → member k ks ≡ member k js

  member-insert_sorted :
      (i k : K) (ks : List K) → member i (insert_sorted k ks) ≡ (o.beq k i || member i ks)
  unfolding insert_sorted
  member-insert_sorted i k [] = refl
  member-insert_sorted i k (j ∷ ks) = ground (arith, member-insert_sorted i k ks)

  member-sort : (i : K) (ks : List K) → member i (sort ks) ≡ member i ks
  unfolding sort
  member-sort i [] = refl
  member-sort i (k ∷ ks) = ground (arith, member-insert_sorted i k (sort ks), member-sort i ks)

  AllDistinct-insert_sorted :
      (k : K) (ks : List K)
      → member k ks ≡ false
      → AllDistinct ks
      → AllDistinct (insert_sorted k ks)
  unfolding insert_sorted
  AllDistinct-insert_sorted k [] h d = (refl, tt)
  AllDistinct-insert_sorted k (j ∷ ks) h d = ground (
    arith,
    member-insert_sorted j k ks,
    AllDistinct-insert_sorted k ks,
    o.beq_iff k j,
    o.beq_iff j k,
  )

  AllDistinct-sort : (ks : List K) → AllDistinct ks → AllDistinct (sort ks)
  unfolding sort
  AllDistinct-sort [] d = tt
  AllDistinct-sort (k ∷ ks) d =
      AllDistinct-insert_sorted k (sort ks) (member-sort k ks ∙ d.0) (AllDistinct-sort ks d.1)

  member-All :
      (k i : K) (ks : List K)
      → All (λ j. o.before k j ≡ true) ks
      → member i ks ≡ true
      → o.before k i ≡ true
  member-All k i [] a h = cc
  member-All k i (j ∷ ks) a h = ground (arith, o.beq_iff j i, member-All k i ks a.1)

  -- The first of a sorted list comes before each of its members.
  first_before :
      (k i : K) (ks : List K) → IsSorted (k ∷ ks) → member i (k ∷ ks) ≡ true → o.before k i ≡ true
  first_before k i ks s h = ground (arith, o.beq_iff k i, member-All k i ks s.0, o.before_total k k)

  tail-SameMembers :
      (k : K) (ks js : List K)
      → member k ks ≡ false
      → member k js ≡ false
      → SameMembers (k ∷ ks) (k ∷ js)
      → SameMembers ks js
  tail-SameMembers k ks js a b h i = ground (arith, h i, o.beq_iff k i)

  -- Two sorted lists without repetitions and with the same members are equal.
  pub sorted_unique :
      (ks js : List K)
      → IsSorted ks
      → IsSorted js
      → AllDistinct ks
      → AllDistinct js
      → SameMembers ks js
      → ks ≡ js
  sorted_unique [] [] s t d e h = refl
  sorted_unique [] (j ∷ js) s t d e h = absurd (ground (arith, h j, o.beq_iff j j))
  sorted_unique (k ∷ ks) [] s t d e h = absurd (ground (arith, h k, o.beq_iff k k))
  sorted_unique (k ∷ ks) (j ∷ js) s t d e h =
      let kj : o.before k j ≡ true = first_before k j ks s (ground (arith, h j, o.beq_iff j j)) in
      let jk : o.before j k ≡ true = first_before j k js t (ground (arith, h k, o.beq_iff k k)) in
      let same : k ≡ j = o.before_antisym k j kj jk in
      let js_same : ks ≡ js = sorted_unique ks js s.1 t.1 d.1 e.1 (
        tail-SameMembers k ks js d.0 (ap (λ i. member i js) same ∙ e.0)
          (λ i. h i ∙ ap (λ l. member i (l ∷ js)) (sym same))) in
      ap₂ ◌∷◌ same js_same

module _ {ℓ κ} {K : Type ℓ} {V : Type κ} ⦃o : Key K⦄ where
  -- Two maps with the same value for each key.
  abbrev pub SameMap : Assoc K V → Assoc K V → Type (ℓ ⊔ κ)
  SameMap m n = (k : K) → get m k ≡ get n k

  member-keys : (k : K) (m : Assoc K V) → member k (keys m) ≡ is_some (get m k)
  unfolding get
  member-keys k [] = refl
  member-keys k ((j, v) ∷ m) = ground (arith, member-keys k m)

  AllDistinct-keys : (m : Assoc K V) → IsMap m → AllDistinct (keys m)
  AllDistinct-keys [] h = tt
  AllDistinct-keys ((j, v) ∷ m) h = (member-keys j m ∙ ap is_some h.0, AllDistinct-keys m h.1)

  map-same : (f g : K → V) (ks : List K) → ((k : K) → f k ≡ g k) → map f ks ≡ map g ks
  map-same f g [] h = refl
  map-same f g (k ∷ ks) h = ap₂ ◌∷◌ (h k) (map-same f g ks h)

  pub in_key_order-SameMap :
      (d : V) (m n : Assoc K V)
      → IsMap m
      → IsMap n
      → SameMap m n
      → in_key_order d m ≡ in_key_order d n
  unfolding in_key_order
  in_key_order-SameMap d m n hm hn same =
      map-same (at d m) (at d n) (sort (keys m))
        (λ k. ap (λ (v : Option V). elim v [ none ↦ d | some w ↦ w ]) (same k))
      ∙ ap (map (at d n)) (
          sorted_unique (sort (keys m)) (sort (keys n)) (sort-IsSorted (keys m))
            (sort-IsSorted (keys n)) (AllDistinct-sort (keys m) (AllDistinct-keys m hm))
            (AllDistinct-sort (keys n) (AllDistinct-keys n hn))
            λ k.
              member-sort k (keys m)
              ∙ member-keys k m
              ∙ ap is_some (same k)
              ∙ sym (member-keys k n)
              ∙ sym (member-sort k (keys n)))
