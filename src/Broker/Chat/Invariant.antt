-- ===== src/Broker/Chat/Invariant.antt =====
-- internal/broker/chat.go, SendTextMessage: it keeps the broker's state consistent.
use go_meshtastic_serial2tcp.Prelude.{
  ℕ, Option, none, some, length, ltb, is_nil, Option-cases, inl, inr, if_cases,
}
use go_meshtastic_serial2tcp.Prelude.Keys.{ℤ, pos, negsuc, Text}
use go_meshtastic_serial2tcp.Prelude.Text.{trim_space}
use go_meshtastic_serial2tcp.Meshtastic.{Codec, MeshPacket, FromRadio}
use go_meshtastic_serial2tcp.Broker.Cache.{local_node_num}
use go_meshtastic_serial2tcp.Broker.State.{Broker, Error}
use go_meshtastic_serial2tcp.Broker.Delivery.{broadcast}
use go_meshtastic_serial2tcp.Broker.Delivery.Invariant.{IsConsistent, broadcast_except-IsConsistent}
use go_meshtastic_serial2tcp.Broker.Handle.Steps.{forward_to_serial-IsConsistent}
use go_meshtastic_serial2tcp.Broker.Chat.{
  Sent, max_text_len, share_text, forwarded_text, transmit_text, address_text, send_trimmed,
  send_text_message,
}

module _ (p : Codec) where
  share_text-IsConsistent :
      (b : Broker) (pkt : MeshPacket) → IsConsistent b → IsConsistent (share_text p b pkt)
  unfolding share_text broadcast
  share_text-IsConsistent b pkt h =
      elim (Option-cases (p.marshal_from_radio (FromRadio.packet (some pkt)))) [
        | inl e ↦ rw (e, share_text) h
        | inr (x, e) ↦ rw (e, share_text) (broadcast_except-IsConsistent p b x none h)
      ]

  forwarded-IsConsistent :
      (pkt : MeshPacket) (r : Broker × Option Error)
      → IsConsistent r.0
      → IsConsistent (forwarded_text p pkt r).0
  unfolding forwarded_text
  forwarded-IsConsistent pkt (b, none) h = share_text-IsConsistent b pkt h
  forwarded-IsConsistent pkt (b, some e) h = h

  address-IsConsistent :
      (b : Broker) (ch : ℤ) (to : ℕ) (text : Text) (draw : Option ℕ)
      → IsConsistent b
      → IsConsistent (address_text p b ch to text draw).0
  unfolding address_text transmit_text
  address-IsConsistent b (negsuc n) to text draw h = h
  address-IsConsistent b (pos c) to text draw h = elim (Option-cases (local_node_num p b.cache)) [
    | inl e ↦ rw (e, address_text) h
    | inr (from, e) ↦
        rw (e, address_text) (forwarded-IsConsistent _ _ (forward_to_serial-IsConsistent p b _ h))
  ]

  pub send_text_message-IsConsistent :
      (b : Broker) (ch : ℤ) (to : ℕ) (text : Text) (draw : Option ℕ)
      → IsConsistent b
      → IsConsistent (send_text_message p b ch to text draw).0
  unfolding send_text_message send_trimmed
  send_text_message-IsConsistent b ch to text draw h =
      if_cases {A = Broker × Sent} (λ r. IsConsistent r.0) b.done (λ _. h)
        λ _.
          if_cases {A = Broker × Sent} (λ r. IsConsistent r.0) (is_nil (trim_space text)) (λ _. h)
            λ _.
              if_cases {A = Broker × Sent} (λ r. IsConsistent r.0)
                (ltb max_text_len (length (trim_space text))) (λ _. h)
                (λ _. address-IsConsistent b ch to (trim_space text) draw h)
