-- ===== src/Prelude/Sorted/By.antt =====
-- `sort.Slice` of the values of a map by the key that each value carries.
use mathlib.Core.Path.{◌≡◌, refl, sym, ap, ap₂, ◌∙◌}
use mathlib.Core.Logic.{inl, inr}
use mathlib.Core.List.{List, [], ◌∷◌, map}
use go_meshtastic_serial2tcp.Prelude.Keys.{Key}
use go_meshtastic_serial2tcp.Prelude.Tests.{if◌then◌else◌, Bool-cases}
use go_meshtastic_serial2tcp.Prelude.Lists.{All}
use go_meshtastic_serial2tcp.Prelude.Assoc.{Assoc, put, keys, values, IsMap}
use go_meshtastic_serial2tcp.Prelude.Canonical.{SameMap, in_key_order-SameMap}
use go_meshtastic_serial2tcp.Prelude.Sorted.{
  insert_sorted, sort, insert_sorted-All, at, in_key_order, map-at-keys,
}

module _ {ℓ κ} {K : Type ℓ} {V : Type κ} ⦃o : Key K⦄ (key : V → K) where
  unfoldable pub insert_by : V → List V → List V
  insert_by x [] = x ∷ []
  insert_by x (y ∷ ys) = if o.before (key x) (key y) then x ∷ y ∷ ys else y ∷ insert_by x ys

  unfoldable pub sort_by : List V → List V
  unfolding insert_by
  sort_by [] = []
  sort_by (x ∷ xs) = insert_by x (sort_by xs)

  sort-All {λ'} : (P : K → Type λ') (ks : List K) → All P ks → All P (sort ks)
  unfolding sort
  sort-All P [] a = tt
  sort-All P (k ∷ ks) a = insert_sorted-All P k (sort ks) a.0 (sort-All P ks a.1)

  module _ (g : K → V) where
    insert_by-map :
        (k : K) (ks : List K)
        → key (g k) ≡ k
        → All (λ j. key (g j) ≡ j) ks
        → insert_by (g k) (map g ks) ≡ map g (insert_sorted k ks)
    unfolding insert_by insert_sorted
    insert_by-map k [] e a = refl
    insert_by-map k (j ∷ ks) e a = elim (Bool-cases (o.before k j)) [
      | inl t ↦ rw (e, a.0, t)
      | inr t ↦ rw (e, a.0, t) (ap (λ l. g j ∷ l) (insert_by-map k ks e a.1))
    ]

    sort_by-map : (ks : List K) → All (λ j. key (g j) ≡ j) ks → sort_by (map g ks) ≡ map g (sort ks)
    unfolding sort_by sort
    sort_by-map [] a = refl
    sort_by-map (k ∷ ks) a =
        ap (insert_by (g k)) (sort_by-map ks a.1)
        ∙ insert_by-map k (sort ks) a.0 (sort-All (λ j. key (g j) ≡ j) ks a.1)

  -- Every value stands under its own key.
  abbrev pub IsKeyed : Assoc K V → Type ℓ
  IsKeyed m = All (λ e. key e.1 ≡ e.0) m

  map-key-values : (m : Assoc K V) → IsKeyed m → map key (values m) ≡ keys m
  map-key-values [] h = refl
  map-key-values ((k, v) ∷ m) h = ap₂ ◌∷◌ h.0 (map-key-values m h.1)

  All-map : (g : K → V) (ks : List K) → map key (map g ks) ≡ ks → All (λ j. key (g j) ≡ j) ks
  All-map g [] e = tt
  All-map g (k ∷ ks) e = (cc, All-map g ks (cc))

  pub put-IsKeyed : (m : Assoc K V) (k : K) (v : V) → key v ≡ k → IsKeyed m → IsKeyed (put m k v)
  unfolding put
  put-IsKeyed [] k v e h = (e, tt)
  put-IsKeyed ((j, w) ∷ m) k v e h = elim (Bool-cases (o.beq j k)) [
    | inl t ↦ rw t (e, h.1)
    | inr t ↦ rw t (h.0, put-IsKeyed m k v e h.1)
  ]

  module _ (d : V) where
    -- The sorted values are the values in the order of their keys.
    pub sort_by-values :
        (m : Assoc K V) → IsMap m → IsKeyed m → sort_by (values m) ≡ in_key_order d m
    unfolding in_key_order
    sort_by-values m unique keyed =
        let same = map-at-keys d m unique in
        ap sort_by (sym same)
        ∙ sort_by-map (at d m) (keys m)
            (All-map (at d m) (keys m) (ap (map key) same ∙ map-key-values m keyed))

    -- So they do not depend on the order in which `range` visits the map.
    pub sort_by-SameMap :
        (m n : Assoc K V)
        → IsMap m
        → IsMap n
        → IsKeyed m
        → IsKeyed n
        → SameMap m n
        → sort_by (values m) ≡ sort_by (values n)
    sort_by-SameMap m n hm hn km kn same =
        sort_by-values m hm km
        ∙ in_key_order-SameMap d m n hm hn same
        ∙ sym (sort_by-values n hn kn)
