-- ===== src/Broker/Radio/Config.antt =====
-- internal/broker/broker.go: a config request, and the radio's ConfigCompleteId for it.
use go_meshtastic_serial2tcp.Prelude.{
  ℕ, ◌≡◌, ◌≢◌, sym, ap, ◌∙◌, subst, some_inj, Option, none, some, List, arith, Option-cases, inl,
  inr,
}
use go_meshtastic_serial2tcp.Prelude.Keys.{nat_key}
use go_meshtastic_serial2tcp.Prelude.Assoc.{get, put, delete, get-put_self, delete-put}
use go_meshtastic_serial2tcp.Meshtastic.{Codec, FromRadio}
use go_meshtastic_serial2tcp.Broker.Cache.{Bytes}
use go_meshtastic_serial2tcp.Broker.State.{Broker, ConfigRequest}
use go_meshtastic_serial2tcp.Broker.Pending.{fresh_id, reserve_config_request, take_config_request}
use go_meshtastic_serial2tcp.Broker.Pending.Laws.{fresh_id-IsFresh}
use go_meshtastic_serial2tcp.Broker.Delivery.{send_to_client}
use go_meshtastic_serial2tcp.Broker.Radio.{answer, answer_taken, handle_config_complete}

-- What reserveConfigRequest does to the table.
pub record IsReserved (b b' : Broker) (client : Option ℕ) (original id : ℕ) : Type 0 where
  pub nonzero : id ≢ 0
  pub unused : get b.pending_config id ≡ none
  pub result : b' ≡ record b {
    pending_config = put b.pending_config id (record { client = client; original_id = original });
  }

pub reserve_config_request-IsReserved :
    (draws : List ℕ) (b b' : Broker) (client : Option ℕ) (original id : ℕ) (rest : List ℕ)
    → reserve_config_request draws b client original ≡ some (id, rest, b')
    → IsReserved b b' client original id
unfolding reserve_config_request
reserve_config_request-IsReserved draws b b' client original id rest h =
    elim (Option-cases (fresh_id b.pending_config draws)) [
      | inl q ↦ absurd (ground arith)
      | inr ((i, r), q) ↦
          let fresh = fresh_id-IsFresh b.pending_config draws i r q in
          let e = some_inj (rw (q, reserve_config_request) at h) in
          subst (IsReserved b b' client original) (ap (λ t. t.0) e)
            (record { nonzero = fresh.0; unused = fresh.1; result = sym (ap (λ t. t.2) e) })
    ]

take_some :
    (b : Broker) (id : ℕ) (r : ConfigRequest)
    → get b.pending_config id ≡ some r
    → take_config_request b id ≡ (record b { pending_config = delete b.pending_config id }, some r)
unfolding take_config_request
take_some b id r e = rw (e, take_config_request)

take_none :
    (b : Broker) (id : ℕ) → get b.pending_config id ≡ none → take_config_request b id ≡ (b, none)
unfolding take_config_request
take_none b id e = rw (e, take_config_request)

module _ (p : Codec) where
  handle_config_complete-some :
      (b : Broker) (id : ℕ) (r : ConfigRequest)
      → get b.pending_config id ≡ some r
      → handle_config_complete p b id
        ≡ answer p (record b { pending_config = delete b.pending_config id }) r
  unfolding handle_config_complete
  handle_config_complete-some b id r e = ap (answer_taken p) (take_some b id r e)

  handle_config_complete-none :
      (b : Broker) (id : ℕ) → get b.pending_config id ≡ none → handle_config_complete p b id ≡ b
  unfolding handle_config_complete
  handle_config_complete-none b id e = ap (answer_taken p) (take_none b id e)

  answer-some :
      (b : Broker) (cl original : ℕ) (response : Bytes)
      → p.marshal_from_radio (FromRadio.config_complete_id original) ≡ some response
      → answer p b (record { client = some cl; original_id = original })
        ≡ send_to_client p b cl response
  unfolding answer
  answer-some b cl original response m = rw (m, answer)

  -- A config request of a client is stored under an id that no pending request has. When the radio
  -- completes that id, and the answer marshals, what follows is what sending the client a
  -- ConfigCompleteId with the id that it asked with does to the broker from before the request:
  -- nothing of the request is left.
  pub handle_config_complete-reserve :
      (draws : List ℕ) (b b' : Broker) (cl original id : ℕ) (rest : List ℕ) (response : Bytes)
      → reserve_config_request draws b (some cl) original ≡ some (id, rest, b')
      → p.marshal_from_radio (FromRadio.config_complete_id original) ≡ some response
      → (get b.pending_config id ≡ none)
        × (handle_config_complete p b' id ≡ send_to_client p b cl response)
  handle_config_complete-reserve draws b b' cl original id rest response h m =
      let r = reserve_config_request-IsReserved draws b b' (some cl) original id rest h in
      let req : ConfigRequest = record { client = some cl; original_id = original } in
      let b1 : Broker = record b { pending_config = put b.pending_config id req } in
      (
        r.unused,
        ap (λ c. handle_config_complete p c id) r.result
            ∙ handle_config_complete-some b1 id req (get-put_self b.pending_config id req)
            ∙ ap (λ m. answer p (record b { pending_config = m }) req)
                (delete-put b.pending_config id req r.unused)
            ∙ answer-some b cl original response m,
      )
