-- ===== src/Broker/Pending/Laws.antt =====
-- internal/broker/broker.go, reserveConfigRequest: its loop ends.
use go_meshtastic_serial2tcp.Prelude.{
  ℕ, ◌+◌, ◌≤◌, ◌<◌, ◌≡◌, ◌≢◌, refl, Bool, true, false, ◌||◌, Option, none, some, List, [], ◌∷◌,
  ◌==◌, if◌then◌else◌, length, arith, All, Option-cases, inl, inr,
}
use go_meshtastic_serial2tcp.Prelude.Keys.{nat_key}
use go_meshtastic_serial2tcp.Prelude.Assoc.{Assoc, get, keys}
use go_meshtastic_serial2tcp.Broker.State.{Broker, ConfigRequest}
use go_meshtastic_serial2tcp.Broker.Pending.{has, fresh_id, reserve_config_request}

abbrev pub occurs : List ℕ → ℕ → Bool
occurs [] x = false
occurs (y ∷ ys) x = (y == x) || occurs ys x

abbrev pub Different : List ℕ → Type 0
Different [] = Unit
Different (x ∷ xs) = (occurs xs x ≡ false) × Different xs

drop_item : List ℕ → ℕ → List ℕ
drop_item [] x = []
drop_item (y ∷ ys) x = if y == x then drop_item ys x else y ∷ drop_item ys x

drop_item-le : (ys : List ℕ) (x : ℕ) → length (drop_item ys x) ≤ length ys
unfolding drop_item
drop_item-le [] x = omega arith
drop_item-le (y ∷ ys) x = ground (arith, drop_item-le ys x)

drop_item-lt : (ys : List ℕ) (x : ℕ) → occurs ys x ≡ true → length (drop_item ys x) < length ys
unfolding drop_item
drop_item-lt [] x h = cc
drop_item-lt (y ∷ ys) x h = ground (arith, drop_item-le ys x, drop_item-lt ys x)

occurs-drop_item :
    (ys : List ℕ) (x z : ℕ) → (x == z) ≡ false → occurs (drop_item ys x) z ≡ occurs ys z
unfolding drop_item
occurs-drop_item [] x z h = refl
occurs-drop_item (y ∷ ys) x z h = ground (arith, occurs-drop_item ys x z h)

-- Items of `xs` other than `x` stand in `ys` without `x`.
still_there :
    (xs ys : List ℕ) (x : ℕ)
    → occurs xs x ≡ false
    → All (λ z. occurs ys z ≡ true) xs
    → All (λ z. occurs (drop_item ys x) z ≡ true) xs
still_there [] ys x h a = tt
still_there (z ∷ xs) ys x h a =
    (ground (arith, occurs-drop_item ys x z), still_there xs ys x (ground arith) a.1)

pigeonhole :
    (xs ys : List ℕ) → Different xs → All (λ z. occurs ys z ≡ true) xs → length xs ≤ length ys
pigeonhole [] ys d a = omega arith
pigeonhole (x ∷ xs) ys d a =
    omega (
      arith,
      pigeonhole xs (drop_item ys x) d.1 (still_there xs ys x d.0 a.1),
      drop_item-lt ys x a.0,
    )

has-occurs : (m : Assoc ℕ ConfigRequest) (id : ℕ) → has m id ≡ occurs (keys m) id
unfolding get
has-occurs [] id = refl
has-occurs ((j, r) ∷ m) id = ground (arith, has-occurs m id)

length-keys : (m : Assoc ℕ ConfigRequest) → length (keys m) ≡ length m
length-keys [] = refl
length-keys (e ∷ m) = omega (arith, length-keys m)

All-taken :
    (m : Assoc ℕ ConfigRequest) (draws : List ℕ)
    → fresh_id m draws ≡ none
    → All (λ z. occurs (0 ∷ keys m) z ≡ true) draws
unfolding fresh_id
All-taken m [] h = tt
All-taken m (d ∷ draws) h = ground (arith, has-occurs m d, All-taken m draws)

-- The loop of reserveConfigRequest ends, whatever is pending, by the time that it has drawn two
-- different words more than there are pending requests: one of them is neither 0 nor in use.
pub reserve_config_request_ends :
    (draws : List ℕ) (b : Broker) (client : Option ℕ) (original : ℕ)
    → Different draws
    → length b.pending_config + 1 < length draws
    → reserve_config_request draws b client original ≢ none
unfolding reserve_config_request
reserve_config_request_ends draws b client original d long e =
    elim (Option-cases (fresh_id b.pending_config draws)) [
      | inl q ↦ omega (
        arith,
        pigeonhole draws (0 ∷ keys b.pending_config) d (All-taken b.pending_config draws q),
        length-keys b.pending_config,
      )
      | inr (x, q) ↦ ground arith
    ]

pub fresh_id-IsFresh :
    (m : Assoc ℕ ConfigRequest) (draws : List ℕ) (id : ℕ) (rest : List ℕ)
    → fresh_id m draws ≡ some (id, rest)
    → (id ≢ 0) × (get m id ≡ none)
unfolding fresh_id
fresh_id-IsFresh m [] id rest h = cc
fresh_id-IsFresh m (d ∷ draws) id rest h = ground (arith, fresh_id-IsFresh m draws id rest)
