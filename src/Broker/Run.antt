-- ===== src/Broker/Run.antt =====
-- internal/broker/broker.go: the goroutines of the broker (Run's readSerial, and each client's
-- readLoop and writeLoop), interleaved: one step is one round of one of them, or a call from
-- outside.
use go_meshtastic_serial2tcp.Prelude.{ℕ, ◌≡◌, true, false, Option, some, List}
use go_meshtastic_serial2tcp.Prelude.Keys.{ℤ, Text, nat_key}
use go_meshtastic_serial2tcp.Frame.{Writer, ReadResult}
use go_meshtastic_serial2tcp.Meshtastic.{Codec}
use go_meshtastic_serial2tcp.Broker.Client.{Client}
use go_meshtastic_serial2tcp.Broker.State.{Broker, Error, fail}
use go_meshtastic_serial2tcp.Broker.Delivery.{contains, add_client, close_all, write_round}
use go_meshtastic_serial2tcp.Broker.Handle.{Wait, read_round}
use go_meshtastic_serial2tcp.Broker.Chat.{send_text_message}
use go_meshtastic_serial2tcp.Broker.Radio.{serial_round, bootstrap_config}

module _ (p : Codec) where
  -- A payload is handled while its client is registered: a client that is removed between the read
  -- and the handling of a payload is not modelled.
  pub data Step (b : Broker) : Broker → Type 0 where
    connects :
        (cl : ℕ) (conn : Writer) (addr : Text)
        → contains b.clients cl ≡ false
        → Step b (add_client p b cl conn addr)
    reads :
        (now : ℕ) (draws : List ℕ) (waits : ℕ → Wait) (cl : ℕ) (r : ReadResult) (b' : Broker)
        → contains b.clients cl ≡ true
        → read_round p now draws waits b cl r ≡ some b'
        → Step b b'
    writes : (cl : ℕ) → Step b (write_round p b cl)
    radio_sends :
        (now : ℕ) (draws : List ℕ) (r : ReadResult) (b' : Broker)
        → serial_round p now draws b r ≡ some b'
        → Step b b'
    bootstraps : (draws : List ℕ) (b' : Broker) → bootstrap_config p draws b ≡ some b' → Step b b'
    chats :
        (ch : ℤ) (to : ℕ) (text : Text) (draw : Option ℕ)
        → Step b (send_text_message p b ch to text draw).0
    fails : (e : Option Error) → Step b (fail b e)
    closes : Step b (close_all p b)

  pub data Run : Broker → Broker → Type 0 where
    done : (b : Broker) → Run b b
    after : (b c d : Broker) → Step b c → Run c d → Run b d
