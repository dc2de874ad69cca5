-- ===== src/Broker/Delivery/Stream.antt =====
-- internal/broker/broker.go: the bytes that a client gets, from the first on: those that its
-- connection took, then the frames of the payloads that wait in its channel.
use go_meshtastic_serial2tcp.Prelude.{
  ℕ, zero, suc, ◌≡◌, refl, sym, ap, ◌∙◌, subst, Bool, true, false, Option, none, some, List, [],
  ◌∷◌, ◌++◌, append-nil, append_assoc, if_cases, arith,
}
use go_meshtastic_serial2tcp.Frame.{encode, write_frame, WriteError}
use go_meshtastic_serial2tcp.Frame.Write.{write_frame_sent}
use go_meshtastic_serial2tcp.Meshtastic.{Codec}
use go_meshtastic_serial2tcp.Broker.Cache.{Bytes}
use go_meshtastic_serial2tcp.Broker.Client.{Client, push, close, enqueue, enqueue_with_timeout}
use go_meshtastic_serial2tcp.Broker.State.{Broker, at_client, log_decoded_payload}
use go_meshtastic_serial2tcp.Broker.Delivery.{
  remove_client, disconnect_slow_client, after_enqueue, send_to_client, written, write_front,
  write_round, write_rounds,
}
use go_meshtastic_serial2tcp.Broker.Delivery.Laws.{remove_client-heap}

abbrev pub encode_all : List Bytes → Bytes
encode_all [] = []
encode_all (x ∷ xs) = encode x ++ encode_all xs

pub encode_all-append :
    (xs ys : List Bytes) → encode_all (xs ++ ys) ≡ encode_all xs ++ encode_all ys
encode_all-append [] ys = refl
encode_all-append (x ∷ xs) ys =
    ap (λ t. encode x ++ t) (encode_all-append xs ys)
    ∙ sym (append_assoc (encode x) (encode_all xs) (encode_all ys))

abbrev pub stream : Client → Bytes
stream c = c.conn.sent ++ encode_all c.send

-- If the client is open afterwards, it was open before, and its stream has grown by the frames of
-- `xs`, in this order.
pub data Follows (c c' : Client) (xs : List Bytes) : Type 0 where
  follows :
      (c'.done ≡ false → (c.done ≡ false) × (stream c' ≡ stream c ++ encode_all xs))
      → Follows c c' xs

pub at_end :
    {c c' : Client} {xs : List Bytes}
    → Follows c c' xs
    → c'.done ≡ false
    → (c.done ≡ false) × (stream c' ≡ stream c ++ encode_all xs)
at_end (follows f) = f

pub Follows-refl : (c : Client) → Follows c c []
Follows-refl c = follows (λ o. (o, sym (append-nil (stream c))))

pub Follows-trans :
    {c d e : Client} {xs ys : List Bytes} → Follows c d xs → Follows d e ys → Follows c e (xs ++ ys)
Follows-trans {c} {d} {e} {xs} {ys} (follows f) (follows g) = follows λ o.
    let (od, sd) = g o in
    let (oc, sc) = f od in
    (
      oc,
      sd
          ∙ ap (λ t. t ++ encode_all ys) sc
          ∙ append_assoc (stream c) (encode_all xs) (encode_all ys)
          ∙ ap (λ t. stream c ++ t) (sym (encode_all-append xs ys)),
    )

pub Follows-closed : (c c' : Client) (xs : List Bytes) → c'.done ≡ true → Follows c c' xs
Follows-closed c c' xs e = follows (λ o. absurd (ground arith))

pub Follows-push : (c : Client) (x : Bytes) → Follows c (push c x) (x ∷ [])
Follows-push c x = follows λ o. (
  o,
  ap (λ t. c.conn.sent ++ t) (encode_all-append c.send (x ∷ []))
      ∙ sym (append_assoc c.conn.sent (encode_all c.send) (encode_all (x ∷ []))),
)

heap_self : (b : Broker) (cl : ℕ) (c : Client) → (at_client b cl c).heap cl ≡ c
heap_self b cl c = ground arith

-- The connection has taken the oldest payload.
abbrev took : Client → Bytes → List Bytes → Client
took c x rest = record c { conn = (write_frame c.conn x).0; send = rest }

took-Follows :
    (c : Client) (x : Bytes) (rest : List Bytes)
    → c.send ≡ x ∷ rest
    → (write_frame c.conn x).1 ≡ none
    → Follows c (took c x rest) []
took-Follows c x rest e sent = follows λ o. (
  o,
  ap (λ t. t ++ encode_all rest) (write_frame_sent c.conn x sent)
      ∙ append_assoc c.conn.sent (encode x) (encode_all rest)
      ∙ sym (ap (λ q. c.conn.sent ++ encode_all q) e)
      ∙ sym (append-nil (stream c)),
)

enqueue-push : (c : Client) (x : Bytes) → (enqueue c x).1 ≡ true → (enqueue c x).0 ≡ push c x
unfolding enqueue
enqueue-push c x h = ground arith

pub enqueue_with_timeout-push :
    (c : Client) (x : Bytes) (d t : Bool)
    → (enqueue_with_timeout c x d t).1 ≡ true
    → (enqueue_with_timeout c x d t).0 ≡ push c x
unfolding enqueue_with_timeout
enqueue_with_timeout-push c x d t h = ground arith

module _ (p : Codec) where
  remove_client-closes : (b : Broker) (cl : ℕ) → ((remove_client p b cl).heap cl).done ≡ true
  unfolding close
  remove_client-closes b cl = ground (arith, remove_client-heap p b cl cl)

  disconnect_slow_client-closes :
      (b : Broker) (cl : ℕ) → ((disconnect_slow_client p b cl).heap cl).done ≡ true
  unfolding disconnect_slow_client
  disconnect_slow_client-closes b cl =
      if_cases (λ (b' : Broker). (b'.heap cl).done ≡ true) (b.heap cl).done (λ e. e)
        (λ _. remove_client-closes _ cl)

  -- An enqueue that says yes has pushed the payload.
  pub after_enqueue-Follows :
      (b : Broker) (cl : ℕ) (x : Bytes) (r : Client × Bool)
      → (r.1 ≡ true → r.0 ≡ push (b.heap cl) x)
      → Follows (b.heap cl) ((after_enqueue p b cl x r).0.heap cl) (x ∷ [])
  unfolding log_decoded_payload
  after_enqueue-Follows b cl x (c, true) h =
      subst (λ d. Follows (b.heap cl) d (x ∷ [])) (sym (h refl) ∙ sym (heap_self b cl c))
        (Follows-push (b.heap cl) x)
  after_enqueue-Follows b cl x (c, false) h =
      Follows-closed _ _ _ (disconnect_slow_client-closes b cl)

  pub send_to_client-Follows :
      (b : Broker) (cl : ℕ) (x : Bytes)
      → Follows (b.heap cl) ((send_to_client p b cl x).heap cl) (x ∷ [])
  unfolding send_to_client
  send_to_client-Follows b cl x = after_enqueue-Follows b cl x _ (enqueue-push (b.heap cl) x)

  -- The frame moves from the channel to the connection.
  written-Follows :
      (b : Broker) (cl : ℕ) (c : Client) (e : Option WriteError)
      → (e ≡ none → Follows c (b.heap cl) [])
      → Follows c ((written p b cl e).heap cl) []
  unfolding written
  written-Follows b cl c none h = h refl
  written-Follows b cl c (some e) h = Follows-closed _ _ _ (remove_client-closes b cl)

  write_front-Follows :
      (b : Broker) (cl : ℕ) (q : List Bytes)
      → (b.heap cl).send ≡ q
      → Follows (b.heap cl) ((write_front p b cl q).heap cl) []
  unfolding write_front
  write_front-Follows b cl [] e = Follows-refl _
  write_front-Follows b cl (x ∷ rest) e =
      written-Follows (at_client b cl (took (b.heap cl) x rest)) cl (b.heap cl)
        (write_frame (b.heap cl).conn x).1
        λ sent.
          subst (λ d. Follows (b.heap cl) d []) (sym (heap_self b cl (took (b.heap cl) x rest)))
            (took-Follows (b.heap cl) x rest e sent)

  write_round-Follows :
      (b : Broker) (cl : ℕ) → Follows (b.heap cl) ((write_round p b cl).heap cl) []
  unfolding write_round
  write_round-Follows b cl =
      if_cases (λ (b' : Broker). Follows (b.heap cl) (b'.heap cl) []) b.done
        (λ _. Follows-closed _ _ _ (remove_client-closes b cl))
        λ _.
          if_cases (λ (b' : Broker). Follows (b.heap cl) (b'.heap cl) []) (b.heap cl).done
            (λ _. Follows-refl _) (λ _. write_front-Follows b cl (b.heap cl).send refl)

  pub write_rounds-Follows :
      (n : ℕ) (b : Broker) (cl : ℕ) → Follows (b.heap cl) ((write_rounds p n b cl).heap cl) []
  unfolding write_rounds
  write_rounds-Follows zero b cl = Follows-refl _
  write_rounds-Follows (suc n) b cl =
      Follows-trans (write_round-Follows b cl) (write_rounds-Follows n (write_round p b cl) cl)

  pub after_enqueue-closes :
      (b : Broker) (cl : ℕ) (x : Bytes) (r : Client × Bool)
      → (after_enqueue p b cl x r).1 ≡ false
      → ((after_enqueue p b cl x r).0.heap cl).done ≡ true
  after_enqueue-closes b cl x (c, true) h = cc
  after_enqueue-closes b cl x (c, false) h = disconnect_slow_client-closes b cl
