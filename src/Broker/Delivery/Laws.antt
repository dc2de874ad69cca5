-- ===== src/Broker/Delivery/Laws.antt =====
-- internal/broker/broker.go, removeClient: what it leaves.
use go_meshtastic_serial2tcp.Prelude.{
  ℕ, ◌≡◌, refl, Bool, true, false, ◌||◌, ◌++◌, Option, none, some, List, [], ◌∷◌, ◌==◌,
  if◌then◌else◌, arith,
}
use go_meshtastic_serial2tcp.Prelude.Keys.{nat_key}
use go_meshtastic_serial2tcp.Prelude.Assoc.{delete_if}
use go_meshtastic_serial2tcp.Meshtastic.{Codec}
use go_meshtastic_serial2tcp.Broker.Client.{close}
use go_meshtastic_serial2tcp.Broker.State.{Broker, publish_status}
use go_meshtastic_serial2tcp.Broker.Pending.{drop_pending_for_client, is_client}
use go_meshtastic_serial2tcp.Broker.Delivery.{
  contains, without, first_of_clients, forget_client, close_client, remove_client,
}

pub contains-without :
    (xs : List ℕ) (a x : ℕ) → contains (without xs a) x ≡ (if a == x then false else contains xs x)
contains-without [] a x = ground arith
contains-without (y ∷ xs) a x = ground (arith, contains-without xs a x)

abbrev pub Distinct : List ℕ → Type 0
Distinct [] = Unit
Distinct (x ∷ xs) = (contains xs x ≡ false) × Distinct xs

pub Distinct-without : (xs : List ℕ) (a : ℕ) → Distinct xs → Distinct (without xs a)
Distinct-without [] a h = h
Distinct-without (x ∷ xs) a h = ground (arith, contains-without xs a x, Distinct-without xs a h.1)

-- An owner of the radio's session, if there is any client to own it.
abbrev pub Owns : Option ℕ → List ℕ → Type 0
Owns none xs = xs ≡ []
Owns (some x) xs = contains xs x ≡ true

pub first_of_clients-Owns : (xs : List ℕ) → Owns (first_of_clients xs) xs
first_of_clients-Owns [] = refl
first_of_clients-Owns (x ∷ xs) = ground arith

-- A status report touches only the hub.
published {ℓ} :
    {A : Type ℓ} (p : Codec) (f : Broker → A) (c : Bool) (b : Broker)
    → f (publish_status p b) ≡ f b
    → f (if c then publish_status p b else b) ≡ f b
published p f true b h = h
published p f false b h = refl

module _ (p : Codec) (b : Broker) (cl : ℕ) where
  -- The broker before the status report.
  abbrev pub removed : Broker
  removed = close_client (drop_pending_for_client (forget_client b cl) cl) cl

  keeps {ℓ} :
      {A : Type ℓ} (f : Broker → A)
      → f (publish_status p removed) ≡ f removed
      → f (remove_client p b cl) ≡ f removed
  unfolding remove_client
  keeps f h = published p f (contains b.clients cl) removed h

  pub remove_client-clients : (remove_client p b cl).clients ≡ without b.clients cl
  unfolding remove_client publish_status drop_pending_for_client
  remove_client-clients = keeps (λ b. b.clients) refl

  pub remove_client-primary :
      (remove_client p b cl).primary
      ≡ (if is_client cl b.primary then first_of_clients (without b.clients cl) else b.primary)
  unfolding remove_client publish_status drop_pending_for_client
  remove_client-primary = keeps (λ b. b.primary) refl

  pub remove_client-heap :
      (x : ℕ) → (remove_client p b cl).heap x ≡ (if cl == x then close (b.heap cl) else b.heap x)
  unfolding remove_client publish_status drop_pending_for_client
  remove_client-heap x = keeps (λ b. b.heap x) refl

  pub remove_client-pending_config :
      (remove_client p b cl).pending_config
      ≡ delete_if (λ id req. is_client cl req.client) b.pending_config
  unfolding remove_client publish_status drop_pending_for_client
  remove_client-pending_config = keeps (λ b. b.pending_config) refl

  pub remove_client-serial : (remove_client p b cl).serial ≡ b.serial
  unfolding remove_client publish_status drop_pending_for_client
  remove_client-serial = keeps (λ b. b.serial) refl

  pub remove_client-cache : (remove_client p b cl).cache ≡ b.cache
  unfolding remove_client publish_status drop_pending_for_client
  remove_client-cache = keeps (λ b. b.cache) refl

  pub remove_client-outbound : (remove_client p b cl).outbound_by_packet ≡ b.outbound_by_packet
  unfolding remove_client publish_status drop_pending_for_client
  remove_client-outbound = keeps (λ b. b.outbound_by_packet) refl

  pub remove_client-done : (remove_client p b cl).done ≡ b.done
  unfolding remove_client publish_status drop_pending_for_client
  remove_client-done = keeps (λ b. b.done) refl

pub contains-snoc :
    (xs : List ℕ) (a x : ℕ) → contains (xs ++ (a ∷ [])) x ≡ (contains xs x || (a == x))
contains-snoc [] a x = ground arith
contains-snoc (y ∷ xs) a x = ground (arith, contains-snoc xs a x)

pub Distinct-snoc :
    (xs : List ℕ) (a : ℕ) → contains xs a ≡ false → Distinct xs → Distinct (xs ++ (a ∷ []))
Distinct-snoc [] a e h = (refl, tt)
Distinct-snoc (x ∷ xs) a e h = ground (arith, contains-snoc xs a x, Distinct-snoc xs a)
