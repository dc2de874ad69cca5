-- ===== src/Webui/Protos/Laws.antt =====
-- internal/webui/packet_proto.go: the bound of the cache, and what its evictions change.
use go_meshtastic_serial2tcp.Prelude.{
  ℕ, ◌≤◌, ◌≡◌, refl, ◌∙◌, false, Option, none, some, List, [], ◌∷◌, length, ◌==◌, leb, ltb, arith,
  is_nil, Bool-cases, inl, inr, if_cases, ◌⊎◌,
}
use go_meshtastic_serial2tcp.Prelude.Keys.{Text, nat_key}
use go_meshtastic_serial2tcp.Prelude.Assoc.{
  Assoc, get, put, delete, keys, IsMap, get-put_self, get-delete, put-IsMap, delete-IsMap,
}
use go_meshtastic_serial2tcp.Prelude.Canonical.{member}
use go_meshtastic_serial2tcp.Meshtastic.{MeshPacket}
use go_meshtastic_serial2tcp.Meshtastic.Printer.{Printer}
use go_meshtastic_serial2tcp.Webui.Hub.{Hub}
use go_meshtastic_serial2tcp.Webui.Protos.{
  Range, max_packet_proto_cache, evict, store_proto, cache_packet_proto, packet_json, or_printed,
  proto_json_for_packet,
}

-- Each key of the map is among those that `range` visits.
abbrev pub Visits : List ℕ → Assoc ℕ Text → Type 0
Visits visited m = (k : ℕ) → member k visited ≡ false → get m k ≡ none

length-delete-le : (m : Assoc ℕ Text) (k : ℕ) → length (delete m k) ≤ length m
unfolding delete
length-delete-le [] k = omega arith
length-delete-le ((j, v) ∷ m) k = ground (arith, length-delete-le m k)

Visits-tail :
    (k : ℕ) (visited : List ℕ) (m : Assoc ℕ Text)
    → Visits (k ∷ visited) m
    → Visits visited (delete m k)
Visits-tail k visited m h j e = ground (arith, get-delete m k j, h j)

empty_of : (m : Assoc ℕ Text) → Visits [] m → length m ≡ 0
unfolding get
empty_of [] h = refl
empty_of ((k, v) ∷ m) h = absurd (ground (arith, h k refl))

length-evict-le :
    (visited : List ℕ) (m : Assoc ℕ Text) → Visits visited m → length (evict visited m) ≤ 1024
unfolding evict
length-evict-le [] m h = omega (arith, empty_of m h)
length-evict-le (k ∷ visited) m h = elim (Bool-cases (leb (length (delete m k)) 1024)) [
  | inl e ↦ rw e (ground arith)
  | inr e ↦ rw e (length-evict-le visited (delete m k) (Visits-tail k visited m h))
]

evict-IsMap : (visited : List ℕ) (m : Assoc ℕ Text) → IsMap m → IsMap (evict visited m)
unfolding evict
evict-IsMap [] m h = h
evict-IsMap (k ∷ visited) m h = elim (Bool-cases (leb (length (delete m k)) 1024)) [
  | inl e ↦ rw e (delete-IsMap m k h)
  | inr e ↦ rw e (evict-IsMap visited (delete m k) (delete-IsMap m k h))
]

-- An eviction changes no entry that it keeps.
get-evict :
    (visited : List ℕ) (m : Assoc ℕ Text) (id : ℕ)
    → (get (evict visited m) id ≡ none) ⊎ (get (evict visited m) id ≡ get m id)
unfolding evict
get-evict [] m id = inr refl
get-evict (k ∷ visited) m id = elim (Bool-cases (leb (length (delete m k)) 1024)) [
  | inl e ↦ rw e (deleted k m id)
  | inr e ↦ rw e (later k m id (get-evict visited (delete m k) id))
]
  where
    deleted :
        (k : ℕ) (m : Assoc ℕ Text) (id : ℕ)
        → (get (delete m k) id ≡ none) ⊎ (get (delete m k) id ≡ get m id)
    deleted k m id = elim (Bool-cases (k == id)) [
      | inl e ↦ inl (ground (arith, get-delete m k id))
      | inr e ↦ inr (ground (arith, get-delete m k id))
    ]

    later :
        (k : ℕ) (m : Assoc ℕ Text) (id : ℕ) {r : Option Text}
        → (r ≡ none) ⊎ (r ≡ get (delete m k) id)
        → (r ≡ none) ⊎ (r ≡ get m id)
    later k m id (inl e) = inl e
    later k m id (inr e) = elim (deleted k m id) [ inl d ↦ inl (e ∙ d) | inr d ↦ inr (e ∙ d) ]

-- The cache is a map of at most 2048 entries.
abbrev pub IsBounded : Assoc ℕ Text → Type 0
IsBounded m = IsMap m × (length m ≤ max_packet_proto_cache)

-- `range` visits every key.
abbrev pub IsRange : Range → Type 0
IsRange range = (m : Assoc ℕ Text) → Visits (range m) m

-- The order of the list is one in which `range` may visit the map.
pub keys-IsRange : IsRange keys
unfolding get
keys-IsRange [] k h = refl
keys-IsRange ((j, v) ∷ m) k h = ground (arith, keys-IsRange m k)

store_proto-IsBounded :
    (range : Range) (m : Assoc ℕ Text) (id : ℕ) (json : Text)
    → IsRange range
    → IsBounded m
    → IsBounded (store_proto range m id json)
unfolding store_proto
store_proto-IsBounded range m id json v (unique, small) =
    if_cases IsBounded (ltb max_packet_proto_cache (length (put m id json)))
      (λ big. (
        evict-IsMap (range (put m id json)) (put m id json) (put-IsMap m id json unique),
        omega (arith, length-evict-le (range (put m id json)) (put m id json) (v (put m id json))),
      ))
      (λ fits. (put-IsMap m id json unique, ground arith))

-- Where the loop that evicts visits every key, in whatever order: after a packet has been cached,
-- the cache still is a map of at most 2048 entries.
pub cache_packet_proto-IsBounded :
    (q : Printer) (range : Range) (h : Hub) (pkt : MeshPacket)
    → IsRange range
    → IsBounded h.packet_protos
    → IsBounded (cache_packet_proto q range h (some pkt)).packet_protos
unfolding cache_packet_proto
cache_packet_proto-IsBounded q range h pkt v good =
    let P : Hub → Type 0 = λ x. IsBounded x.packet_protos in
    if_cases P (pkt.id == 0) (λ _. good)
      (λ _.
        if_cases P (is_nil (packet_json q pkt)) (λ _. good)
          (λ _. store_proto-IsBounded range h.packet_protos pkt.id (packet_json q pkt) v good))

found :
    (q : Printer) (pkt : MeshPacket) (r : Option Text)
    → (r ≡ none) ⊎ (r ≡ some (packet_json q pkt))
    → or_printed q pkt r ≡ packet_json q pkt
found q pkt r (inl e) = rw e refl
found q pkt r (inr e) = rw e refl

get-store_proto :
    (range : Range) (m : Assoc ℕ Text) (id : ℕ) (json : Text)
    → (get (store_proto range m id json) id ≡ none)
      ⊎ (get (store_proto range m id json) id ≡ some json)
unfolding store_proto
get-store_proto range m id json =
    let P : Assoc ℕ Text → Type 0 = λ x. (get x id ≡ none) ⊎ (get x id ≡ some json) in
    if_cases P (ltb max_packet_proto_cache (length (put m id json)))
      (λ _. elim (get-evict (range (put m id json)) (put m id json) id) [
        | inl e ↦ inl e
        | inr e ↦ inr (e ∙ get-put_self m id json)
      ])
      (λ _. inr (get-put_self m id json))

-- Right after a packet has been cached, its JSON is the whole JSON of this very packet, whatever
-- the cache had under its id, and even if the eviction has thrown its entry out. It is about a
-- packet that marshals.
pub proto_json_for_packet-cache_packet_proto :
    (q : Printer) (range : Range) (h : Hub) (pkt : MeshPacket)
    → is_nil (packet_json q pkt) ≡ false
    → proto_json_for_packet q (cache_packet_proto q range h (some pkt)) (some pkt)
      ≡ packet_json q pkt
unfolding proto_json_for_packet cache_packet_proto
proto_json_for_packet-cache_packet_proto q range h pkt printed = elim (Bool-cases (pkt.id == 0)) [
  | inl e ↦ rw e refl
  | inr e ↦
      rw (e, printed)
        (found q pkt (get (store_proto range h.packet_protos pkt.id (packet_json q pkt)) pkt.id)
          (get-store_proto range h.packet_protos pkt.id (packet_json q pkt)))
]
