-- ===== src/Broker/Pending.antt =====
-- internal/broker/broker.go: the config requests that wait for the radio's ConfigCompleteId.
pub mod Laws
use go_meshtastic_serial2tcp.Prelude.{
  ℕ, Bool, true, false, ◌||◌, Option, none, some, List, [], ◌∷◌, if◌then◌else◌, ◌==◌,
}
use go_meshtastic_serial2tcp.Prelude.Keys.{nat_key}
use go_meshtastic_serial2tcp.Prelude.Assoc.{Assoc, get, put, delete, delete_if}
use go_meshtastic_serial2tcp.Broker.State.{Broker, ConfigRequest}

-- _, exists := m[id]
abbrev pub has : {V : Type 0} → Assoc ℕ V → ℕ → Bool
has m id = elim (get m id) [ none ↦ false | some v ↦ true ]

-- The loop of reserveConfigRequest. A draw is the id of one round: the random word or, should the
-- random source fail, the clock's. `none`: none of the draws at hand is free, and the loop goes on.
pub fresh_id : Assoc ℕ ConfigRequest → List ℕ → Option (ℕ × List ℕ)
fresh_id m [] = none
fresh_id m (id ∷ draws) =
    let again = fresh_id m draws in if id == 0 || has m id then again else some (id, draws)

unfoldable pub reserve_config_request :
    List ℕ → Broker → Option ℕ → ℕ → Option (ℕ × List ℕ × Broker)
unfolding fresh_id
reserve_config_request draws b client original = elim (fresh_id b.pending_config draws) [
  | none ↦ none
  | some (id, rest) ↦ some (
    id,
    rest,
    record b {
      pending_config = put b.pending_config id (record { client = client; original_id = original });
    },
  )
]

unfoldable pub take_config_request : Broker → ℕ → Broker × Option ConfigRequest
take_config_request b id = elim (get b.pending_config id) [
  | none ↦ (b, none)
  | some req ↦ (record b { pending_config = delete b.pending_config id }, some req)
]

-- req.client == cl
abbrev pub is_client : ℕ → Option ℕ → Bool
is_client cl none = false
is_client cl (some x) = x == cl

unfoldable pub drop_pending_for_client : Broker → ℕ → Broker
drop_pending_for_client b cl = record b {
  pending_config = delete_if (λ id req. is_client cl req.client) b.pending_config;
}
