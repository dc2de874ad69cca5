-- ===== src/Broker/Serial/Laws.antt =====
-- internal/broker/broker.go: what a write to the radio leaves alone, and what it writes.
use go_meshtastic_serial2tcp.Prelude.{
  Bool-cases, ◌≡◌, refl, true, Option, none, some, ◌++◌, arith, if_cases, Option-cases, inl, inr,
}
use go_meshtastic_serial2tcp.Frame.{encode, WriteError, write_frame}
use go_meshtastic_serial2tcp.Frame.Write.{write_frame_sent}
use go_meshtastic_serial2tcp.Meshtastic.{Codec, ToRadio}
use go_meshtastic_serial2tcp.Broker.Cache.{Bytes}
use go_meshtastic_serial2tcp.Broker.State.{serial_closed, Broker, Error, fail, log_decoded_payload}
use go_meshtastic_serial2tcp.Broker.Serial.{write_serial, forward_to_serial}

pub fail-done : (b : Broker) (e : Option Error) → (fail b e).done ≡ true
unfolding fail
fail-done b e = if_cases (λ (b' : Broker). b'.done ≡ true) b.done (λ h. h) (λ _. refl)

module _ (b : Broker) (x : Bytes) where
  pub write_serial-pending_config : (write_serial b x).0.pending_config ≡ b.pending_config
  unfolding write_serial log_decoded_payload
  write_serial-pending_config =
      if_cases {A = Broker × Option Error} (λ r. r.0.pending_config ≡ b.pending_config) b.done
        (λ _. refl) (λ _. refl)

  pub write_serial-heap : (write_serial b x).0.heap ≡ b.heap
  unfolding write_serial log_decoded_payload
  write_serial-heap =
      if_cases {A = Broker × Option Error} (λ r. r.0.heap ≡ b.heap) b.done (λ _. refl) (λ _. refl)

  pub write_serial-clients : (write_serial b x).0.clients ≡ b.clients
  unfolding write_serial log_decoded_payload
  write_serial-clients =
      if_cases {A = Broker × Option Error} (λ r. r.0.clients ≡ b.clients) b.done (λ _. refl)
        (λ _. refl)

  pub write_serial-canned_waiters : (write_serial b x).0.canned_waiters ≡ b.canned_waiters
  unfolding write_serial log_decoded_payload
  write_serial-canned_waiters =
      if_cases {A = Broker × Option Error} (λ r. r.0.canned_waiters ≡ b.canned_waiters) b.done
        (λ _. refl) (λ _. refl)

  pub write_serial-done : (write_serial b x).0.done ≡ b.done
  unfolding write_serial log_decoded_payload
  write_serial-done =
      if_cases {A = Broker × Option Error} (λ r. r.0.done ≡ b.done) b.done (λ _. refl) (λ _. refl)

  pub write_serial-cache : (write_serial b x).0.cache ≡ b.cache
  unfolding write_serial log_decoded_payload
  write_serial-cache =
      if_cases {A = Broker × Option Error} (λ r. r.0.cache ≡ b.cache) b.done (λ _. refl) (λ _. refl)

write_serial-sent :
    (b : Broker) (x : Bytes)
    → (write_serial b x).1 ≡ none
    → (write_serial b x).0.serial.sent ≡ b.serial.sent ++ encode x
unfolding write_serial log_decoded_payload
write_serial-sent b x h = elim (Bool-cases b.done) [
  | inl d ↦ absurd (ground (arith, rw d at h))
  | inr d ↦ rw d (write_frame_sent b.serial x (no_error (write_frame b.serial x).1 (rw d at h)))
]
  where
    no_error :
        (e : Option WriteError)
        → (elim e [ none ↦ none | some w ↦ some serial_closed ]) ≡ none
        → e ≡ none
    no_error none h = refl
    no_error (some w) h = absurd (ground arith)

module _ (p : Codec) where
  forward_keeps {ℓ} :
      {A : Type ℓ} (f : Broker → A) (b : Broker) (t : ToRadio)
      → ((x : Bytes) → f (write_serial b x).0 ≡ f b)
      → f (forward_to_serial p b t).0 ≡ f b
  unfolding forward_to_serial
  forward_keeps f b t h = elim (Option-cases (p.marshal_to_radio t)) [
    | inl e ↦ rw (e, forward_to_serial)
    | inr (x, e) ↦ rw (e, forward_to_serial) (h x)
  ]

  module _ (b : Broker) (t : ToRadio) where
    pub forward_to_serial-pending_config :
        (forward_to_serial p b t).0.pending_config ≡ b.pending_config
    forward_to_serial-pending_config =
        forward_keeps (λ b. b.pending_config) b t (write_serial-pending_config b)

    pub forward_to_serial-heap : (forward_to_serial p b t).0.heap ≡ b.heap
    forward_to_serial-heap = forward_keeps (λ b. b.heap) b t (write_serial-heap b)

    pub forward_to_serial-clients : (forward_to_serial p b t).0.clients ≡ b.clients
    forward_to_serial-clients = forward_keeps (λ b. b.clients) b t (write_serial-clients b)

    pub forward_to_serial-canned_waiters :
        (forward_to_serial p b t).0.canned_waiters ≡ b.canned_waiters
    forward_to_serial-canned_waiters =
        forward_keeps (λ b. b.canned_waiters) b t (write_serial-canned_waiters b)

    pub forward_to_serial-done : (forward_to_serial p b t).0.done ≡ b.done
    forward_to_serial-done = forward_keeps (λ b. b.done) b t (write_serial-done b)

    pub forward_to_serial-cache : (forward_to_serial p b t).0.cache ≡ b.cache
    forward_to_serial-cache = forward_keeps (λ b. b.cache) b t (write_serial-cache b)

    -- What reaches the radio, where there is no error.
    pub forward_to_serial-sent :
        (forward_to_serial p b t).1 ≡ none
        → (x : Bytes) × (p.marshal_to_radio t ≡ some x)
          × ((forward_to_serial p b t).0.serial.sent ≡ b.serial.sent ++ encode x)
    unfolding forward_to_serial
    forward_to_serial-sent h = elim (Option-cases (p.marshal_to_radio t)) [
      | inl e ↦ absurd (ground (arith, rw (e, forward_to_serial) at h))
      | inr (x, e) ↦
          (x, e, rw (e, forward_to_serial) (write_serial-sent b x (rw (e, forward_to_serial) at h)))
    ]
