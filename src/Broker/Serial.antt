-- ===== src/Broker/Serial.antt =====
-- internal/broker/broker.go: what goes to the radio.
pub mod Laws
use go_meshtastic_serial2tcp.Prelude.{false, Option, none, some, [], if◌then◌else◌}
use go_meshtastic_serial2tcp.Frame.{write_frame}
use go_meshtastic_serial2tcp.Meshtastic.{Codec, ToRadio}
use go_meshtastic_serial2tcp.Broker.Cache.{Bytes}
use go_meshtastic_serial2tcp.Broker.State.{
  Broker, Error, serial_closed, marshal_failed, log_decoded_payload, broker_to_serial,
}

unfoldable pub write_serial : Broker → Bytes → Broker × Option Error
write_serial b payload =
    if b.done
    then (b, some serial_closed)
    else (let seen = log_decoded_payload b broker_to_serial [] payload false in
        let (w, e) = write_frame seen.serial payload in
        (record seen { serial = w }, elim e [ none ↦ none | some x ↦ some serial_closed ]))

module _ (p : Codec) where
  unfoldable pub forward_to_serial : Broker → ToRadio → Broker × Option Error
  forward_to_serial b t = elim (p.marshal_to_radio t) [
    | none ↦ (b, some marshal_failed)
    | some payload ↦ write_serial b payload
  ]
