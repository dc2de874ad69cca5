-- ===== src/Broker/Radio/Reboot.antt =====
-- internal/broker/broker.go, handleRebooted: the requests in flight are made again.
use go_meshtastic_serial2tcp.Prelude.{
  ℕ, ◌≡◌, refl, sym, ap, ap₂, ◌∙◌, subst, some_inj, true, false, none, some, List, [], ◌∷◌, ◌++◌,
  append-nil, append_assoc, map, if◌then◌else◌, Bool-cases, Option-cases, inl, inr,
}
use go_meshtastic_serial2tcp.Prelude.Keys.{nat_key}
use go_meshtastic_serial2tcp.Prelude.Assoc.{Assoc, get, put, values, put_new}
use go_meshtastic_serial2tcp.Meshtastic.{Codec, ToRadio}
use go_meshtastic_serial2tcp.Broker.Client.{Client}
use go_meshtastic_serial2tcp.Broker.Cache.{reset, ready}
use go_meshtastic_serial2tcp.Broker.State.{Broker, ConfigRequest}
use go_meshtastic_serial2tcp.Broker.Pending.{reserve_config_request}
use go_meshtastic_serial2tcp.Broker.Serial.{forward_to_serial}
use go_meshtastic_serial2tcp.Broker.Serial.Laws.{
  fail-done, forward_to_serial-pending_config, forward_to_serial-heap, forward_to_serial-cache,
}
use go_meshtastic_serial2tcp.Broker.Radio.Config.{IsReserved, reserve_config_request-IsReserved}
use go_meshtastic_serial2tcp.Broker.Radio.{is_stale, reissue, handle_rebooted}

-- The requests of clients that are still open, and those of the bootstrap.
abbrev pub live : (ℕ → Client) → List ConfigRequest → List ConfigRequest
live heap [] = []
live heap (req ∷ reqs) =
    if (elim req.client [ none ↦ false | some cl ↦ (heap cl).done ])
    then live heap reqs
    else req ∷ live heap reqs

none≢some {ℓ} : {A : Type ℓ} (a : A) → none ≡ some a → ⊥
none≢some a h = cc

true≢false' : true ≡ false → ⊥
true≢false' h = cc

map-snoc {ℓ κ} :
    {A : Type ℓ} {B : Type κ} (f : A → B) (xs : List A) (a : A)
    → map f (xs ++ (a ∷ [])) ≡ map f xs ++ (f a ∷ [])
map-snoc f [] a = refl
map-snoc f (x ∷ xs) a = ap (λ t. f x ∷ t) (map-snoc f xs a)

values-put :
    (m : Assoc ℕ ConfigRequest) (id : ℕ) (r : ConfigRequest)
    → get m id ≡ none
    → values (put m id r) ≡ values m ++ (r ∷ [])
values-put m id r h =
    ap values (put_new m id r h) ∙ map-snoc (λ (e : ℕ × ConfigRequest). e.1) m (id, r)

module _ (p : Codec) where
  -- What a run of the loop that has not met an error has done.
  record IsReissued (b b' : Broker) (reqs : List ConfigRequest) : Type 0 where
    pending : values b'.pending_config ≡ values b.pending_config ++ live b.heap reqs
    cache : b'.cache ≡ b.cache

  one_more :
      (b rb b' : Broker) (req : ConfigRequest) (reqs : List ConfigRequest) (id : ℕ) (t : ToRadio)
      → is_stale b req ≡ false
      → IsReserved b rb req.client req.original_id id
      → IsReissued (forward_to_serial p rb t).0 b' reqs
      → IsReissued b b' (req ∷ reqs)
  one_more b rb b' req reqs id t kept r i = record {
    pending =
        i.pending
        ∙ ap₂ (λ m hp. values m ++ live hp reqs)
            (forward_to_serial-pending_config p rb t ∙ ap (λ c. c.pending_config) r.result)
            (forward_to_serial-heap p rb t ∙ ap (λ c. c.heap) r.result)
        ∙ ap (λ vs. vs ++ live b.heap reqs) (values-put b.pending_config id req r.unused)
        ∙ append_assoc (values b.pending_config) (req ∷ []) (live b.heap reqs)
        ∙ rw kept;
    cache = i.cache ∙ forward_to_serial-cache p rb t ∙ ap (λ c. c.cache) r.result;
  }

  reissue-IsReissued :
      (old : Assoc ℕ ConfigRequest) (draws : List ℕ) (b b' : Broker)
      → reissue p draws b old ≡ some b'
      → b'.done ≡ false
      → IsReissued b b' (values old)
  unfolding reissue
  reissue-IsReissued [] draws b b' h d =
      subst (λ c. IsReissued b c []) (some_inj h)
        (record { pending = sym (append-nil _); cache = refl })
  reissue-IsReissued ((id, req) ∷ old) draws b b' h d = elim (Bool-cases (is_stale b req)) [
    | inl stale ↦
        let r = reissue-IsReissued old draws b b' (rw (stale, reissue) at h) d in
        record { pending = rw stale r.pending; cache = r.cache }
    | inr kept ↦ elim (Option-cases (reserve_config_request draws b req.client req.original_id)) [
      | inl q ↦ absurd (none≢some _ (rw (kept, q, reissue) at h))
      | inr ((new_id, rest, rb), q) ↦
          let r =
            reserve_config_request-IsReserved draws b rb req.client req.original_id new_id rest q in
          elim (Option-cases (forward_to_serial p rb (ToRadio.want_config_id new_id)).1) [
            | inl e ↦
                one_more b rb b' req (values old) new_id (ToRadio.want_config_id new_id) kept r
                  (reissue-IsReissued old rest _ b' (rw (kept, q, e, reissue) at h) d)
            | inr (x, e) ↦ absurd (
                true≢false' (
                  sym (fail-done _ (some x))
                  ∙ ap (λ c. c.done) (some_inj (rw (kept, q, e, reissue) at h))
                  ∙ d))
          ]
    ]
  ]

  -- Rebooted: where the nonces at hand suffice and no write to the serial line fails, the requests
  -- that are pending afterwards are those that were, in the same order, without those of clients
  -- that have gone; and the cache is reset, so that it is not ready.
  pub handle_rebooted-pending_config :
      (draws : List ℕ) (b b' : Broker)
      → handle_rebooted p draws b ≡ some b'
      → b'.done ≡ false
      → (values b'.pending_config ≡ live b.heap (values b.pending_config))
        × (b'.cache ≡ reset b.cache)
        × (ready b'.cache ≡ false)
  unfolding handle_rebooted ready reset
  handle_rebooted-pending_config draws b b' h d =
      let r =
        reissue-IsReissued b.pending_config draws
          (record b { cache = reset b.cache; pending_config = [] }) b' h d in
      (r.pending, r.cache, ap ready r.cache)
