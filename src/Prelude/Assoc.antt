-- ===== src/Prelude/Assoc.antt =====
-- A Go map as an association list. Its order stands for the order in which `range` happens to
-- visit the keys; a key that is written again keeps its place.
use mathlib.Core.Path.{◌≡◌, refl}
use mathlib.Core.Bool.{Bool}
use mathlib.Core.Option.{Option, none, some}
use mathlib.Core.List.{List, [], ◌∷◌, ◌++◌, map}
use native.Mathlib.Omega.{arith}
use go_meshtastic_serial2tcp.Prelude.Keys.{Key}
use go_meshtastic_serial2tcp.Prelude.Tests.{if◌then◌else◌}

abbrev pub Assoc {ℓ κ} : Type ℓ → Type κ → Type (ℓ ⊔ κ)
Assoc K V = List (K × V)

module _ {ℓ κ} {K : Type ℓ} {V : Type κ} ⦃o : Key K⦄ where
  -- v, ok := m[k]
  unfoldable pub get : Assoc K V → K → Option V
  get [] k = none
  get ((j, w) ∷ m) k = if o.beq j k then some w else get m k

  -- m[k] = v
  unfoldable pub put : Assoc K V → K → V → Assoc K V
  put [] k v = (k, v) ∷ []
  put ((j, w) ∷ m) k v = if o.beq j k then (k, v) ∷ m else (j, w) ∷ put m k v

  -- delete(m, k)
  unfoldable pub delete : Assoc K V → K → Assoc K V
  delete [] k = []
  delete ((j, w) ∷ m) k = if o.beq j k then delete m k else (j, w) ∷ delete m k

  -- for k, v := range m { if test(k, v) { delete(m, k) } }
  unfoldable pub delete_if : (K → V → Bool) → Assoc K V → Assoc K V
  delete_if test [] = []
  delete_if test ((j, w) ∷ m) = if test j w then delete_if test m else (j, w) ∷ delete_if test m

  abbrev pub keys : Assoc K V → List K
  keys = map (λ e. e.0)

  abbrev pub values : Assoc K V → List V
  values = map (λ e. e.1)

  -- No key stands twice.
  abbrev pub IsMap : Assoc K V → Type (ℓ ⊔ κ)
  IsMap [] = Unit
  IsMap ((j, w) ∷ m) = (get m j ≡ none) × IsMap m

  pub get-put :
      (m : Assoc K V) (k j : K) (v : V)
      → get (put m k v) j ≡ (if o.beq k j then some v else get m j)
  unfolding get put
  get-put [] k j v = refl
  get-put ((i, w) ∷ m) k j v =
      ground (arith, o.beq_iff i k, o.beq_iff i j, o.beq_iff k j, get-put m k j v)

  pub get-put_self : (m : Assoc K V) (k : K) (v : V) → get (put m k v) k ≡ some v
  get-put_self m k v = ground (arith, get-put m k k v, o.beq_iff k k)

  pub get-delete :
      (m : Assoc K V) (k j : K) → get (delete m k) j ≡ (if o.beq k j then none else get m j)
  unfolding get delete
  get-delete [] k j = ground arith
  get-delete ((i, w) ∷ m) k j =
      ground (arith, o.beq_iff i k, o.beq_iff i j, o.beq_iff k j, get-delete m k j)

  pub get-delete_self : (m : Assoc K V) (k : K) → get (delete m k) k ≡ none
  get-delete_self m k = ground (arith, get-delete m k k, o.beq_iff k k)

  pub put-IsMap : (m : Assoc K V) (k : K) (v : V) → IsMap m → IsMap (put m k v)
  unfolding get put
  put-IsMap [] k v h = (refl, tt)
  put-IsMap ((i, w) ∷ m) k v h =
      ground (arith, o.beq_iff i k, o.beq_iff k i, get-put m k i v, put-IsMap m k v)

  pub delete-IsMap : (m : Assoc K V) (k : K) → IsMap m → IsMap (delete m k)
  unfolding delete
  delete-IsMap [] k h = h
  delete-IsMap ((i, w) ∷ m) k h = ground (arith, get-delete m k i, delete-IsMap m k)

  pub get-delete_if-none :
      (test : K → V → Bool) (m : Assoc K V) (k : K)
      → get m k ≡ none
      → get (delete_if test m) k ≡ none
  unfolding get delete_if
  get-delete_if-none test [] k h = refl
  get-delete_if-none test ((i, w) ∷ m) k h = ground (arith, get-delete_if-none test m k)

  pub delete_if-IsMap : (test : K → V → Bool) (m : Assoc K V) → IsMap m → IsMap (delete_if test m)
  unfolding delete_if
  delete_if-IsMap test [] h = h
  delete_if-IsMap test ((i, w) ∷ m) h =
      ground (arith, get-delete_if-none test m i, delete_if-IsMap test m)

  -- What is left is what was there and fails the test.
  abbrev pub unless : (K → V → Bool) → K → Option V → Option V
  unless test k none = none
  unless test k (some v) = if test k v then none else some v

  pub get-delete_if :
      (test : K → V → Bool) (m : Assoc K V) (k : K)
      → IsMap m
      → get (delete_if test m) k ≡ unless test k (get m k)
  unfolding get delete_if
  get-delete_if test [] k h = refl
  get-delete_if test ((i, w) ∷ m) k h =
      ground (arith, o.beq_iff i k, get-delete_if test m k, get-delete_if-none test m k)

  -- A new key stands last.
  pub put_new : (m : Assoc K V) (k : K) (v : V) → get m k ≡ none → put m k v ≡ m ++ ((k, v) ∷ [])
  unfolding get put
  put_new [] k v h = refl
  put_new ((i, w) ∷ m) k v h = ground (arith, put_new m k v)

  pub delete-none : (m : Assoc K V) (k : K) → get m k ≡ none → delete m k ≡ m
  unfolding get delete
  delete-none [] k h = refl
  delete-none ((i, w) ∷ m) k h = ground (arith, delete-none m k)

  -- What a new key has brought, its deletion takes back.
  pub delete-put : (m : Assoc K V) (k : K) (v : V) → get m k ≡ none → delete (put m k v) k ≡ m
  unfolding get put delete
  delete-put [] k v h = ground (arith, o.beq_iff k k)
  delete-put ((i, w) ∷ m) k v h = ground (arith, delete-put m k v)
