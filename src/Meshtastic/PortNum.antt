-- ===== src/Meshtastic/PortNum.antt =====
-- internal/meshtastic/portnums.pb.go: the port numbers that the program names.
use go_meshtastic_serial2tcp.Prelude.{ℕ}

abbrev pub text_message_app : ℕ
text_message_app = 1

abbrev pub position_app : ℕ
position_app = 3

abbrev pub nodeinfo_app : ℕ
nodeinfo_app = 4

abbrev pub routing_app : ℕ
routing_app = 5

abbrev pub admin_app : ℕ
admin_app = 6

abbrev pub text_message_compressed_app : ℕ
text_message_compressed_app = 7

abbrev pub waypoint_app : ℕ
waypoint_app = 8

abbrev pub detection_sensor_app : ℕ
detection_sensor_app = 10

abbrev pub alert_app : ℕ
alert_app = 11

abbrev pub key_verification_app : ℕ
key_verification_app = 12

abbrev pub reply_app : ℕ
reply_app = 32

abbrev pub paxcounter_app : ℕ
paxcounter_app = 34

abbrev pub node_status_app : ℕ
node_status_app = 36

abbrev pub store_forward_app : ℕ
store_forward_app = 65

abbrev pub range_test_app : ℕ
range_test_app = 66

abbrev pub telemetry_app : ℕ
telemetry_app = 67

abbrev pub traceroute_app : ℕ
traceroute_app = 70

abbrev pub neighborinfo_app : ℕ
neighborinfo_app = 71

abbrev pub map_report_app : ℕ
map_report_app = 73

abbrev pub powerstress_app : ℕ
powerstress_app = 74
