-- ===== src/Broker/Handle/Replay.antt =====
-- internal/broker/broker.go, sendCachedConfig: what a client gets that asks for a config which the
-- cache has.
use go_meshtastic_serial2tcp.Prelude.{ℕ, suc, ◌≡◌, Bool, true, false, List, [], ◌∷◌, ◌++◌, if_cases}
use go_meshtastic_serial2tcp.Meshtastic.{Codec}
use go_meshtastic_serial2tcp.Broker.Cache.{Bytes, snapshot}
use go_meshtastic_serial2tcp.Broker.Client.{enqueue_with_timeout}
use go_meshtastic_serial2tcp.Broker.State.{Broker}
use go_meshtastic_serial2tcp.Broker.Delivery.{write_rounds}
use go_meshtastic_serial2tcp.Broker.Delivery.Stream.{
  stream, encode_all, Follows, at_end, Follows-refl, Follows-trans, Follows-closed,
  after_enqueue-Follows, after_enqueue-closes, write_rounds-Follows, enqueue_with_timeout-push,
}
use go_meshtastic_serial2tcp.Broker.Handle.{
  Wait, send_to_client_blocking, send_each, send_cached_config, replay_payloads, completion,
}

module _ (p : Codec) where
  blocking-Follows :
      (w : Wait) (b : Broker) (cl : ℕ) (x : Bytes)
      → Follows (b.heap cl) ((send_to_client_blocking p w b cl x).0.heap cl) (x ∷ [])
  unfolding send_to_client_blocking
  blocking-Follows w b cl x =
      let b' = write_rounds p w.rounds b cl in
      Follows-trans (write_rounds-Follows p w.rounds b cl) (
        after_enqueue-Follows p b' cl x _
          (enqueue_with_timeout-push (b'.heap cl) x b'.done w.takes))

  blocking-closes :
      (w : Wait) (b : Broker) (cl : ℕ) (x : Bytes)
      → (send_to_client_blocking p w b cl x).1 ≡ false
      → ((send_to_client_blocking p w b cl x).0.heap cl).done ≡ true
  unfolding send_to_client_blocking
  blocking-closes w b cl x h =
      let b' = write_rounds p w.rounds b cl in
      after_enqueue-closes p b' cl x (enqueue_with_timeout (b'.heap cl) x b'.done w.takes) h

  send_each-Follows :
      (xs : List Bytes) (waits : ℕ → Wait) (b : Broker) (cl : ℕ)
      → Follows (b.heap cl) ((send_each p waits b cl xs).0.heap cl) xs
  unfolding send_each
  send_each-Follows [] waits b cl = Follows-refl _
  send_each-Follows (x ∷ xs) waits b cl =
      let b' = (send_to_client_blocking p (waits 0) b cl x).0 in
      if_cases {A = Broker × Bool} (λ r. Follows (b.heap cl) (r.0.heap cl) (x ∷ xs))
        (send_to_client_blocking p (waits 0) b cl x).1
        (λ _.
          Follows-trans (blocking-Follows (waits 0) b cl x)
            (send_each-Follows xs (λ n. waits (suc n)) b' cl))
        (λ e. Follows-closed _ _ _ (blocking-closes (waits 0) b cl x e))

  -- However the connection and the write loop behave meanwhile: a client that is still connected
  -- after its config was replayed was connected before, and its stream, sent or waiting to be sent,
  -- has grown by exactly the frames of the cache's snapshot, in its order, and of the
  -- ConfigCompleteId with the id that it asked with (which is left out if it does not marshal).
  pub send_cached_config-stream :
      (waits : ℕ → Wait) (b : Broker) (cl id : ℕ)
      → ((send_cached_config p waits b cl id).heap cl).done ≡ false
      → ((b.heap cl).done ≡ false)
        × (stream ((send_cached_config p waits b cl id).heap cl)
            ≡ stream (b.heap cl)
              ++ encode_all (replay_payloads (snapshot b.cache) ++ completion p id))
  unfolding send_cached_config
  send_cached_config-stream waits b cl id =
      at_end (send_each-Follows (replay_payloads (snapshot b.cache) ++ completion p id) waits b cl)
