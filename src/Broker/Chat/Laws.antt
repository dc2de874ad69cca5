-- ===== src/Broker/Chat/Laws.antt =====
-- internal/broker/chat.go, SendTextMessage: what it sends, and what it refuses.
use go_meshtastic_serial2tcp.Prelude.{
  ℕ, ◌≤◌, ◌<◌, ◌≡◌, ◌≢◌, refl, ap, ◌∙◌, subst, Bool, true, false, Option, none, some, [], ◌∷◌, ◌++◌,
  length, if◌then◌else◌, ltb, is_nil, arith, Option-cases, inl, inr,
}
use go_meshtastic_serial2tcp.Prelude.Keys.{ℤ, pos, negsuc, Text}
use go_meshtastic_serial2tcp.Prelude.Text.{trim_space}
use go_meshtastic_serial2tcp.Frame.{encode}
use go_meshtastic_serial2tcp.Meshtastic.{Codec, MeshPacket, FromRadio, ToRadio}
use go_meshtastic_serial2tcp.Broker.Cache.{Bytes, local_node_num}
use go_meshtastic_serial2tcp.Broker.State.{Broker, Error}
use go_meshtastic_serial2tcp.Broker.Delivery.{broadcast}
use go_meshtastic_serial2tcp.Broker.Delivery.Serial.{broadcast_except-serial}
use go_meshtastic_serial2tcp.Broker.Serial.{forward_to_serial}
use go_meshtastic_serial2tcp.Broker.Serial.Laws.{
  forward_to_serial-sent, forward_to_serial-heap, forward_to_serial-clients,
}
use go_meshtastic_serial2tcp.Broker.Chat.{
  Sent, sent, refused, max_text_len, next_packet_id, text_packet, share_text, forwarded_text,
  transmit_text, address_text, send_trimmed, send_text_message,
}

next_packet_id-nonzero : (draw : Option ℕ) → next_packet_id draw ≢ 0
unfolding next_packet_id
next_packet_id-nonzero draw = ground arith

refused-sent :
    (b b' : Broker) (e : Error) (id : ℕ) → ◌≡◌ {A = Broker × Sent} (b, refused e) (b', sent id) → ⊥
refused-sent b b' e id h = cc

-- Nothing has happened to any client.
abbrev pub SameClients : Broker → Broker → Type 0
SameClients b b' = (b'.heap ≡ b.heap) × (b'.clients ≡ b.clients)

-- A test that guards a send has failed where the send took place.
if_refused :
    (c : Bool) (b b' : Broker) (e : Error) (id : ℕ) (r : Broker × Sent)
    → (if c then (b, refused e) else r) ≡ (b', sent id)
    → (c ≡ false) × (r ≡ (b', sent id))
if_refused true b b' e id r h = absurd (refused-sent b b' e id h)
if_refused false b b' e id r h = (refl, h)

module _ (p : Codec) where
  -- The packet went out: the broker is up, the text is neither empty nor too long, the channel is
  -- not negative, the radio's node number is known, and what the serial line got is the frame of
  -- exactly this packet, of which the clients get a copy.
  pub record IsTextSent (b b' : Broker) (ch : ℤ) (to : ℕ) (text : Text) (id : ℕ) : Type 0 where
    pub up : b.done ≡ false
    pub fits : (0 < length text) × (length text ≤ max_text_len)
    pub channel : ℕ
    pub channel_eq : ch ≡ pos channel
    pub from : ℕ
    pub from_eq : local_node_num p b.cache ≡ some from
    pub nonzero : id ≢ 0
    pub wire : Bytes
    pub wire_eq :
        p.marshal_to_radio (ToRadio.packet (some (text_packet from to channel id text))) ≡ some wire
    pub on_wire : b'.serial.sent ≡ b.serial.sent ++ encode wire
    pub shared :
        b'
        ≡ share_text p
            (forward_to_serial p b (ToRadio.packet (some (text_packet from to channel id text)))).0
            (text_packet from to channel id text)

  forwarded-sent :
      (pkt : MeshPacket) (r : Broker × Option Error) (b' : Broker) (id : ℕ)
      → forwarded_text p pkt r ≡ (b', sent id)
      → (r.1 ≡ none) × (b' ≡ share_text p r.0 pkt) × (pkt.id ≡ id)
  unfolding forwarded_text
  forwarded-sent pkt (b, none) b' id h = (refl, cc, cc)
  forwarded-sent pkt (b, some e) b' id h = absurd cc

  share_text-serial : (b : Broker) (pkt : MeshPacket) → (share_text p b pkt).serial ≡ b.serial
  unfolding share_text broadcast
  share_text-serial b pkt =
      elim (Option-cases (p.marshal_from_radio (FromRadio.packet (some pkt)))) [
        | inl e ↦ rw (e, share_text)
        | inr (x, e) ↦ rw (e, share_text) (broadcast_except-serial p b x none)
      ]

  transmitted :
      (b b' : Broker) (from to channel i id : ℕ) (text : Text)
      → b.done ≡ false
      → (0 < length text) × (length text ≤ max_text_len)
      → local_node_num p b.cache ≡ some from
      → i ≢ 0
      → transmit_text p b (text_packet from to channel i text) ≡ (b', sent id)
      → IsTextSent b b' (pos channel) to text id
  unfolding transmit_text
  transmitted b b' from to channel i id text up fits known nz h =
      let pkt : MeshPacket = text_packet from to channel i text in
      let (none_eq, shared_eq, id_eq) =
        forwarded-sent pkt (forward_to_serial p b (ToRadio.packet (some pkt))) b' id h in
      let (x, x_eq, on) = forward_to_serial-sent p b (ToRadio.packet (some pkt)) none_eq in
      subst (IsTextSent b b' (pos channel) to text) id_eq (record {
        up = up;
        fits = fits;
        channel = channel;
        channel_eq = refl;
        from = from;
        from_eq = known;
        nonzero = nz;
        wire = x;
        wire_eq = x_eq;
        on_wire =
            ap (λ c. c.serial.sent) shared_eq ∙ ap (λ w. w.sent) (share_text-serial _ pkt) ∙ on;
        shared = shared_eq;
      })

  addressed :
      (b b' : Broker) (ch : ℤ) (to id : ℕ) (text : Text) (draw : Option ℕ)
      → b.done ≡ false
      → (0 < length text) × (length text ≤ max_text_len)
      → address_text p b ch to text draw ≡ (b', sent id)
      → IsTextSent b b' ch to text id
  unfolding address_text
  addressed b b' (negsuc n) to id text draw up fits h = absurd (refused-sent b b' _ id h)
  addressed b b' (pos c) to id text draw up fits h =
      elim (Option-cases (local_node_num p b.cache)) [
        | inl e ↦ absurd (refused-sent b b' _ id (rw (e, address_text) at h))
        | inr (from, e) ↦
            transmitted b b' from to c (next_packet_id draw) id text up fits e
              (next_packet_id-nonzero draw) (rw (e, address_text) at h)
      ]

  text_fits :
      (text : Text)
      → is_nil text ≡ false
      → ltb max_text_len (length text) ≡ false
      → (0 < length text) × (length text ≤ max_text_len)
  text_fits [] h k = absurd cc
  text_fits (c ∷ text) h k = ground arith

  -- Where SendTextMessage returns an id, that id is not 0; the serial line was up, the channel was
  -- not negative and the radio's node number was known; the trimmed text has 1 to 200 bytes; the
  -- serial line has got exactly one frame more, that of the packet with this text, channel,
  -- destination, sender and id; and then that packet, if it marshals, was broadcast to the clients.
  pub send_text_message-IsTextSent :
      (b b' : Broker) (ch : ℤ) (to id : ℕ) (text : Text) (draw : Option ℕ)
      → send_text_message p b ch to text draw ≡ (b', sent id)
      → IsTextSent b b' ch to (trim_space text) id
  unfolding send_text_message send_trimmed
  send_text_message-IsTextSent b b' ch to id text draw h =
      let (up, h1) = if_refused b.done b b' _ id _ h in
      let (some_text, h2) = if_refused (is_nil (trim_space text)) b b' _ id _ h1 in
      let (short, h3) = if_refused (ltb max_text_len (length (trim_space text))) b b' _ id _ h2 in
      addressed b b' ch to id (trim_space text) draw up
        (text_fits (trim_space text) some_text short) h3

  forwarded-refused :
      (pkt : MeshPacket) (r : Broker × Option Error) (b' : Broker) (e : Error)
      → forwarded_text p pkt r ≡ (b', refused e)
      → b' ≡ r.0
  unfolding forwarded_text
  forwarded-refused pkt (b, none) b' e h = absurd cc
  forwarded-refused pkt (b, some x) b' e h = cc

  transmit-SameClients :
      (b b' : Broker) (pkt : MeshPacket) (e : Error)
      → transmit_text p b pkt ≡ (b', refused e)
      → SameClients b b'
  unfolding transmit_text
  transmit-SameClients b b' pkt e h =
      let same = forwarded-refused pkt (forward_to_serial p b (ToRadio.packet (some pkt))) b' e h in
      (
        ap (λ c. c.heap) same ∙ forward_to_serial-heap p b (ToRadio.packet (some pkt)),
        ap (λ c. c.clients) same ∙ forward_to_serial-clients p b (ToRadio.packet (some pkt)),
      )

  first-SameClients :
      (b b' : Broker) (x e : Error)
      → ◌≡◌ {A = Broker × Sent} (b, refused x) (b', refused e)
      → SameClients b b'
  first-SameClients b b' x e h =
      let same : b ≡ b' = ap (λ r. r.0) h in subst (SameClients b) same (refl, refl)

  address-SameClients :
      (b b' : Broker) (ch : ℤ) (to : ℕ) (text : Text) (draw : Option ℕ) (e : Error)
      → address_text p b ch to text draw ≡ (b', refused e)
      → SameClients b b'
  unfolding address_text
  address-SameClients b b' (negsuc n) to text draw e h = first-SameClients b b' _ e h
  address-SameClients b b' (pos c) to text draw e h =
      elim (Option-cases (local_node_num p b.cache)) [
        | inl q ↦ first-SameClients b b' _ e (rw (q, address_text) at h)
        | inr (from, q) ↦ transmit-SameClients b b' _ e (rw (q, address_text) at h)
      ]

  if-SameClients :
      (c : Bool) (b b' : Broker) (x e : Error) (r : Broker × Sent)
      → (r ≡ (b', refused e) → SameClients b b')
      → (if c then (b, refused x) else r) ≡ (b', refused e)
      → SameClients b b'
  if-SameClients true b b' x e r f h = first-SameClients b b' x e h
  if-SameClients false b b' x e r f h = f h

  -- A message that SendTextMessage refuses, be it for the text, the channel, the node number or an
  -- error of the serial line, reaches no client: no client's object changes, and none is removed.
  pub send_text_message-SameClients :
      (b b' : Broker) (ch : ℤ) (to : ℕ) (text : Text) (draw : Option ℕ) (e : Error)
      → send_text_message p b ch to text draw ≡ (b', refused e)
      → SameClients b b'
  unfolding send_text_message send_trimmed
  send_text_message-SameClients b b' ch to text draw e = if-SameClients b.done b b' _ e _ (
      if-SameClients (is_nil (trim_space text)) b b' _ e _ (
        if-SameClients (ltb max_text_len (length (trim_space text))) b b' _ e _
          (address-SameClients b b' ch to (trim_space text) draw e)))
