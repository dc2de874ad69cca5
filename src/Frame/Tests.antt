-- ===== src/Frame/Tests.antt =====
-- Runs of internal/frame/frame.go on concrete streams.
use go_meshtastic_serial2tcp.Prelude.{
  ◌≡◌, ◌≤◌, ◌<◌, refl, none, some, List, ℕ, [], ◌∷◌, ◌++◌, length, arith,
}
use go_meshtastic_serial2tcp.Frame.{
  Writer, wrote, payload, invalid, read_frame, read_from, write_frame, write_all, encode, max_size,
  unexpected_eof,
}
use go_meshtastic_serial2tcp.Frame.Write.{Extends, write_frame-Extends, write_frame-Progresses}
use go_meshtastic_serial2tcp.Frame.RoundTrip.{read_frame-noise-encode, read_frame-write_frame}
use go_meshtastic_serial2tcp.Frame.Resync.{Holds, read_frame-Holds, read_frame_stray}

abbrev hello : List ℕ
hello = 1 ∷ 2 ∷ 3 ∷ []

-- takes one byte, then two, then all
abbrev choppy : Writer
choppy = record { sent = []; script = wrote 1 ∷ wrote 2 ∷ [] }

abbrev stuck : Writer
stuck = record { sent = []; script = wrote 1 ∷ wrote 0 ∷ [] }

write_frame-stuck :
    write_frame stuck hello ≡ (record { sent = 0x94 ∷ []; script = [] }, some unexpected_eof)
unfolding write_frame write_all
write_frame-stuck = refl

read_frame_zero : read_frame (0x94 ∷ 0xC3 ∷ 0 ∷ 0 ∷ 7 ∷ []) ≡ invalid (7 ∷ [])
unfolding read_from
read_frame_zero = refl

write_frame-Extends_example :
    Extends [] (write_frame stuck hello).0.sent (encode hello) (write_frame stuck hello).1
write_frame-Extends_example = write_frame-Extends stuck hello

write_frame-Progresses_example :
    ((write_frame choppy hello).1 ≡ none) × ((write_frame choppy hello).0.sent ≡ encode hello)
write_frame-Progresses_example = write_frame-Progresses choppy hello (omega arith) (omega arith)

read_frame-noise-encode_example :
    read_frame (7 ∷ 0xC3 ∷ (encode hello ++ (9 ∷ []))) ≡ payload hello (9 ∷ [])
read_frame-noise-encode_example =
    read_frame-noise-encode (7 ∷ 0xC3 ∷ []) hello (9 ∷ []) (omega arith) (omega arith) (omega arith)

read_frame-write_frame_example : read_frame (write_frame choppy hello).0.sent ≡ payload hello []
read_frame-write_frame_example =
    read_frame-write_frame choppy hello refl (omega arith) (omega arith) (omega arith)

read_frame_padded : read_frame (5 ∷ (encode hello ++ (9 ∷ []))) ≡ payload hello (9 ∷ [])
unfolding read_from
read_frame_padded = refl

read_frame-Holds_example :
    Holds (5 ∷ (encode hello ++ (9 ∷ []))) hello (9 ∷ [])
    × (0 < length hello)
    × (length hello ≤ max_size)
read_frame-Holds_example =
    read_frame-Holds (5 ∷ (encode hello ++ (9 ∷ []))) hello (9 ∷ []) (omega arith) read_frame_padded

read_frame_stray_example :
    read_frame (0x94 ∷ (encode hello ++ (0x94 ∷ []))) ≡ read_frame (0x94 ∷ [])
read_frame_stray_example = read_frame_stray hello (0x94 ∷ []) (omega arith)
