-- ===== src/Meshtastic/Printer.antt =====
-- What the generated code and google.golang.org/protobuf print: the names of enum values, and
-- messages as JSON (protojson), where `none` is an error. The repository only calls them: a
-- `Printer`.
use go_meshtastic_serial2tcp.Prelude.{ℕ, Option}
use go_meshtastic_serial2tcp.Prelude.Keys.{Text}
use go_meshtastic_serial2tcp.Meshtastic.{MeshPacket, FromRadio, ToRadio}

pub record Printer : Type 0 where
  pub hardware_model : ℕ → Text
  pub device_role : ℕ → Text
  pub channel_role : ℕ → Text
  pub port_name : ℕ → Text
  pub json_of_packet : MeshPacket → Option Text
  pub json_of_from_radio : FromRadio → Option Text
  pub json_of_to_radio : ToRadio → Option Text
