-- ===== src/Broker/Delivery/Serial.antt =====
-- internal/broker/broker.go: nothing that happens to a client writes to the radio.
use go_meshtastic_serial2tcp.Prelude.{
  ℕ, zero, suc, ◌≡◌, refl, ◌∙◌, Bool, true, false, Option, none, some, List, [], ◌∷◌, if_cases,
}
use go_meshtastic_serial2tcp.Frame.{WriteError, write_frame}
use go_meshtastic_serial2tcp.Meshtastic.{Codec}
use go_meshtastic_serial2tcp.Broker.Cache.{Bytes}
use go_meshtastic_serial2tcp.Broker.Client.{Client, enqueue}
use go_meshtastic_serial2tcp.Broker.State.{Broker, log_decoded_payload}
use go_meshtastic_serial2tcp.Broker.Pending.{is_client}
use go_meshtastic_serial2tcp.Broker.Delivery.{
  disconnect_slow_client, after_enqueue, send_to_client, broadcast_to, broadcast_except, written,
  write_front, write_round, write_rounds,
}
use go_meshtastic_serial2tcp.Broker.Delivery.Laws.{remove_client-serial}

module _ (p : Codec) where
  disconnect_slow_client-serial :
      (b : Broker) (cl : ℕ) → (disconnect_slow_client p b cl).serial ≡ b.serial
  unfolding disconnect_slow_client
  disconnect_slow_client-serial b cl =
      if_cases (λ (b' : Broker). b'.serial ≡ b.serial) (b.heap cl).done (λ _. refl)
        (λ _. remove_client-serial p _ cl)

  pub after_enqueue-serial :
      (b : Broker) (cl : ℕ) (x : Bytes) (r : Client × Bool)
      → (after_enqueue p b cl x r).0.serial ≡ b.serial
  unfolding log_decoded_payload
  after_enqueue-serial b cl x (c, true) = refl
  after_enqueue-serial b cl x (c, false) = disconnect_slow_client-serial b cl

  pub send_to_client-serial :
      (b : Broker) (cl : ℕ) (x : Bytes) → (send_to_client p b cl x).serial ≡ b.serial
  unfolding send_to_client
  send_to_client-serial b cl x = after_enqueue-serial b cl x (enqueue (b.heap cl) x)

  broadcast_to-serial :
      (cls : List ℕ) (b : Broker) (x : Bytes) (except : Option ℕ)
      → (broadcast_to p cls b x except).serial ≡ b.serial
  unfolding broadcast_to
  broadcast_to-serial [] b x except = refl
  broadcast_to-serial (cl ∷ cls) b x except =
      broadcast_to-serial cls _ x except
      ∙ if_cases (λ (b' : Broker). b'.serial ≡ b.serial) (is_client cl except) (λ _. refl)
          (λ _. send_to_client-serial b cl x)

  pub broadcast_except-serial :
      (b : Broker) (x : Bytes) (except : Option ℕ)
      → (broadcast_except p b x except).serial ≡ b.serial
  unfolding broadcast_except
  broadcast_except-serial b x except = broadcast_to-serial b.clients b x except

  written-serial :
      (b : Broker) (cl : ℕ) (e : Option WriteError) → (written p b cl e).serial ≡ b.serial
  unfolding written
  written-serial b cl none = refl
  written-serial b cl (some e) = remove_client-serial p b cl

  write_front-serial :
      (b : Broker) (cl : ℕ) (q : List Bytes) → (write_front p b cl q).serial ≡ b.serial
  unfolding write_front
  write_front-serial b cl [] = refl
  write_front-serial b cl (x ∷ rest) = written-serial _ cl (write_frame (b.heap cl).conn x).1

  write_round-serial : (b : Broker) (cl : ℕ) → (write_round p b cl).serial ≡ b.serial
  unfolding write_round
  write_round-serial b cl =
      if_cases (λ (b' : Broker). b'.serial ≡ b.serial) b.done (λ _. remove_client-serial p b cl)
        λ _.
          if_cases (λ (b' : Broker). b'.serial ≡ b.serial) (b.heap cl).done (λ _. refl)
            (λ _. write_front-serial b cl (b.heap cl).send)

  pub write_rounds-serial :
      (n : ℕ) (b : Broker) (cl : ℕ) → (write_rounds p n b cl).serial ≡ b.serial
  unfolding write_rounds
  write_rounds-serial zero b cl = refl
  write_rounds-serial (suc n) b cl =
      write_rounds-serial n (write_round p b cl) cl ∙ write_round-serial b cl
