-- ===== src/Broker/Radio/Echo.antt =====
-- internal/broker/broker.go: where the radio's echo of a client's packet goes.
use go_meshtastic_serial2tcp.Prelude.{
  ℕ, ◌+◌, ◌≡◌, ◌≢◌, refl, sym, ap, ◌∙◌, Bool, true, false, ◌||◌, none, some, arith, if◌then◌else◌,
  ◌==◌, ltb,
}
use go_meshtastic_serial2tcp.Prelude.Keys.{nat_key}
use go_meshtastic_serial2tcp.Prelude.Assoc.{get, delete, delete_if, get-put_self}
use go_meshtastic_serial2tcp.Meshtastic.{Codec, MeshPacket}
use go_meshtastic_serial2tcp.Broker.Cache.{Bytes}
use go_meshtastic_serial2tcp.Broker.Client.{Client}
use go_meshtastic_serial2tcp.Broker.State.{Broker, OutboundEntry}
use go_meshtastic_serial2tcp.Broker.Outbound.{
  outbound_echo_suppress, is_over, note_outbound_packet, consume_outbound_origin,
  packet_suppresses_origin_echo,
}
use go_meshtastic_serial2tcp.Broker.Delivery.{send_to_client, broadcast}
use go_meshtastic_serial2tcp.Broker.Canned.{extract_canned_from_packet, try_deliver_canned}
use go_meshtastic_serial2tcp.Broker.Radio.{deliver_by_origin, deliver_untaken, deliver_packet}

not_zero : (n : ℕ) → n ≢ 0 → (n == 0) ≡ false
not_zero n h = ground arith

abbrev entry_of : ℕ → ℕ → OutboundEntry
entry_of t cl = record { client = some cl; until = t + outbound_echo_suppress }

noted :
    (t : ℕ) (b : Broker) (cl : ℕ) (pkt : MeshPacket)
    → pkt.id ≢ 0
    → get (note_outbound_packet t b cl (some pkt)).outbound_by_packet pkt.id ≡ some (entry_of t cl)
unfolding note_outbound_packet
noted t b cl pkt h =
    rw (not_zero pkt.id h)
      (get-put_self (delete_if (λ _ e. is_over t e) b.outbound_by_packet) pkt.id (entry_of t cl))

noted_heap :
    (t : ℕ) (b : Broker) (cl : ℕ) (pkt : MeshPacket)
    → pkt.id ≢ 0
    → (note_outbound_packet t b cl (some pkt)).heap ≡ b.heap
unfolding note_outbound_packet
noted_heap t b cl pkt h = rw (not_zero pkt.id h)

abbrev pub forget : Broker → ℕ → Broker
forget b id = record b { outbound_by_packet = delete b.outbound_by_packet id }

consumed :
    (now t : ℕ) (b : Broker) (cl : ℕ) (pkt : MeshPacket)
    → pkt.id ≢ 0
    → get b.outbound_by_packet pkt.id ≡ some (entry_of t cl)
    → consume_outbound_origin now b pkt ≡ (
      forget b pkt.id,
      if ltb (t + outbound_echo_suppress) now || (b.heap cl).done then none else some cl,
    )
unfolding consume_outbound_origin
consumed now t b cl pkt h e = rw (not_zero pkt.id h, e, consume_outbound_origin)

module _ (p : Codec) where
  untaken :
      (now : ℕ) (b : Broker) (pkt : MeshPacket)
      → extract_canned_from_packet p pkt ≡ none
      → try_deliver_canned p now b pkt ≡ (b, false)
  unfolding try_deliver_canned
  untaken now b pkt e = rw (e, try_deliver_canned)

  by_origin :
      (pkt : MeshPacket) (x : Bytes) (b : Broker) (c : Bool) (cl : ℕ)
      → deliver_by_origin p pkt x (b, if c then none else some cl) ≡ (
          if c
          then broadcast p b x
          else if packet_suppresses_origin_echo pkt
          then b
          else send_to_client p b cl x)
  unfolding deliver_by_origin
  by_origin pkt x b true cl = refl
  by_origin pkt x b false cl = refl

  -- A client sent a packet at time `t`, and now the radio sends one with the same id, which is no
  -- answer to a fetch of the canned messages. Within 30 seconds, and while that client is open, a
  -- chat packet goes to nobody and any other packet to that client alone; otherwise it goes to all.
  -- In every case the broker forgets who sent the packet.
  pub deliver_packet-note :
      (t now : ℕ) (b : Broker) (cl : ℕ) (sent echo : MeshPacket) (x : Bytes)
      → sent.id ≢ 0
      → echo.id ≡ sent.id
      → extract_canned_from_packet p echo ≡ none
      → let b' = note_outbound_packet t b cl (some sent) in
        deliver_packet p now b' echo x ≡ (
          if ltb (t + outbound_echo_suppress) now || (b.heap cl).done
          then broadcast p (forget b' echo.id) x
          else if packet_suppresses_origin_echo echo
          then forget b' echo.id
          else send_to_client p (forget b' echo.id) cl x)
  unfolding deliver_packet
  deliver_packet-note t now b cl sent echo x h same e =
      let b' = note_outbound_packet t b cl (some sent) in
      let h' : echo.id ≢ 0 = λ z. h (sym same ∙ z) in
      let entry : get b'.outbound_by_packet echo.id ≡ some (entry_of t cl) =
        ap (get b'.outbound_by_packet) same ∙ noted t b cl sent h in
      ap (deliver_untaken p now echo x) (untaken now b' echo e)
      ∙ ap (deliver_by_origin p echo x) (consumed now t b' cl echo h' entry)
      ∙ by_origin echo x (forget b' echo.id)
          (ltb (t + outbound_echo_suppress) now || (b'.heap cl).done) cl
      ∙ ap
          (λ (hp : ℕ → Client).
            if ltb (t + outbound_echo_suppress) now || (hp cl).done
            then broadcast p (forget b' echo.id) x
            else if packet_suppresses_origin_echo echo
            then forget b' echo.id
            else send_to_client p (forget b' echo.id) cl x)
          (noted_heap t b cl sent h)
