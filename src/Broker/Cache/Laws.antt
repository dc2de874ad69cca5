-- ===== src/Broker/Cache/Laws.antt =====
-- internal/broker/broker.go, configCache: what an update stores, and when the cache is ready.
use go_meshtastic_serial2tcp.Prelude.{
  ℕ, ◌≡◌, ◌≢◌, ◌↔◌, refl, ap, Bool, true, false, ◌||◌, Option, none, subst, some_inj, some, List,
  [], ◌∷◌, arith, All,
}
use go_meshtastic_serial2tcp.Prelude.Keys.{ℤ, Text, Key, nat_key, int_key, text_key}
use go_meshtastic_serial2tcp.Prelude.Assoc.{Assoc, put, get-put, IsMap, put-IsMap}
use go_meshtastic_serial2tcp.Prelude.Sorted.{at}
use go_meshtastic_serial2tcp.Meshtastic.{FromRadio}
use go_meshtastic_serial2tcp.Broker.Cache.{
  Bytes, ConfigCache, new_config_cache, update, empty, ready, reset,
}

-- The abstract cache: a payload for each thing that the radio describes.
pub data Slot : Type 0 where
  my_info metadata device_ui : Slot
  node : ℕ → Slot
  config module_config : Text → Slot
  channel : ℤ → Slot

abbrev pub payload_at : ConfigCache → Slot → Bytes
payload_at c Slot.my_info = c.my_info
payload_at c Slot.metadata = c.metadata
payload_at c Slot.device_ui = c.device_ui
payload_at c (Slot.node n) = at [] c.node_info n
payload_at c (Slot.config k) = at [] c.config k
payload_at c (Slot.module_config k) = at [] c.module_config k
payload_at c (Slot.channel i) = at [] c.channels i

-- What a frame describes, if the cache keeps it.
abbrev pub slot_of : FromRadio → Option Slot
slot_of (FromRadio.my_info i) = some Slot.my_info
slot_of (FromRadio.node_info (some n)) = some (Slot.node n.num)
slot_of (FromRadio.config (some k)) = some (Slot.config k)
slot_of (FromRadio.module_config (some k)) = some (Slot.module_config k)
slot_of (FromRadio.channel (some ch)) = some (Slot.channel ch.index)
slot_of FromRadio.metadata = some Slot.metadata
slot_of FromRadio.deviceui_config = some Slot.device_ui
slot_of _ = none

module _ {ℓ} {K : Type ℓ} ⦃o : Key K⦄ where
  at-put_self : (m : Assoc K Bytes) (k : K) (p : Bytes) → at [] (put m k p) k ≡ p
  at-put_self m k p = ground (arith, get-put m k k p, o.beq_iff k k)

  at-put_ne : (m : Assoc K Bytes) (k j : K) (p : Bytes) → k ≢ j → at [] (put m k p) j ≡ at [] m j
  at-put_ne m k j p h = ground (arith, get-put m k j p, o.beq_iff k j)

-- The update of the abstract cache: the frame's slot gets the payload, and no other changes.
pub record Writes (c d : ConfigCache) (s : Slot) (p : Bytes) : Type 0 where
  pub stores : payload_at d s ≡ p
  pub kept : (t : Slot) → s ≢ t → payload_at d t ≡ payload_at c t

kept_node :
    (c : ConfigCache) (n : ℕ) (p : Bytes) (t : Slot)
    → Slot.node n ≢ t
    → payload_at (record c { node_info = put c.node_info n p }) t ≡ payload_at c t
kept_node c n p (Slot.node m) h = at-put_ne c.node_info n m p (λ e. h (ap Slot.node e))
kept_node c n p Slot.my_info h = refl
kept_node c n p Slot.metadata h = refl
kept_node c n p _ h = refl

kept_config :
    (c : ConfigCache) (k : Text) (p : Bytes) (t : Slot)
    → Slot.config k ≢ t
    → payload_at (record c { config = put c.config k p }) t ≡ payload_at c t
kept_config c k p (Slot.config j) h = at-put_ne c.config k j p (λ e. h (ap Slot.config e))
kept_config c k p Slot.my_info h = refl
kept_config c k p _ h = refl

kept_module :
    (c : ConfigCache) (k : Text) (p : Bytes) (t : Slot)
    → Slot.module_config k ≢ t
    → payload_at (record c { module_config = put c.module_config k p }) t ≡ payload_at c t
kept_module c k p (Slot.module_config j) h =
    at-put_ne c.module_config k j p (λ e. h (ap Slot.module_config e))
kept_module c k p Slot.my_info h = refl
kept_module c k p _ h = refl

kept_channel :
    (c : ConfigCache) (k : ℤ) (p : Bytes) (t : Slot)
    → Slot.channel k ≢ t
    → payload_at (record c { channels = put c.channels k p }) t ≡ payload_at c t
kept_channel c k p (Slot.channel j) h = at-put_ne c.channels k j p (λ e. h (ap Slot.channel e))
kept_channel c k p Slot.my_info h = refl
kept_channel c k p _ h = refl

kept_my_info :
    (c : ConfigCache) (p : Bytes) (t : Slot)
    → Slot.my_info ≢ t
    → payload_at (record c { my_info = p }) t ≡ payload_at c t
kept_my_info c p Slot.my_info h = absurd (h refl)
kept_my_info c p _ h = refl

kept_metadata :
    (c : ConfigCache) (p : Bytes) (t : Slot)
    → Slot.metadata ≢ t
    → payload_at (record c { metadata = p }) t ≡ payload_at c t
kept_metadata c p Slot.metadata h = absurd (h refl)
kept_metadata c p _ h = refl

kept_device_ui :
    (c : ConfigCache) (p : Bytes) (t : Slot)
    → Slot.device_ui ≢ t
    → payload_at (record c { device_ui = p }) t ≡ payload_at c t
kept_device_ui c p Slot.device_ui h = absurd (h refl)
kept_device_ui c p _ h = refl

-- The cache refines a table by slot: a frame that has a slot writes its payload there and leaves
-- every other slot as it was.
pub update-Writes :
    (c : ConfigCache) (f : FromRadio) (p : Bytes) (s : Slot)
    → slot_of f ≡ some s
    → Writes c (update c f p) s p
unfolding update
update-Writes c (FromRadio.my_info i) p s h =
    subst (λ t. Writes c (record c { my_info = p }) t p) (some_inj h)
      (record { stores = refl; kept = kept_my_info c p })
update-Writes c FromRadio.metadata p s h =
    subst (λ t. Writes c (record c { metadata = p }) t p) (some_inj h)
      (record { stores = refl; kept = kept_metadata c p })
update-Writes c FromRadio.deviceui_config p s h =
    subst (λ t. Writes c (record c { device_ui = p }) t p) (some_inj h)
      (record { stores = refl; kept = kept_device_ui c p })
update-Writes c (FromRadio.node_info (some n)) p s h =
    subst (λ t. Writes c (record c { node_info = put c.node_info n.num p }) t p) (some_inj h)
      (record { stores = at-put_self c.node_info n.num p; kept = kept_node c n.num p })
update-Writes c (FromRadio.config (some k)) p s h =
    subst (λ t. Writes c (record c { config = put c.config k p }) t p) (some_inj h)
      (record { stores = at-put_self c.config k p; kept = kept_config c k p })
update-Writes c (FromRadio.module_config (some k)) p s h =
    subst (λ t. Writes c (record c { module_config = put c.module_config k p }) t p) (some_inj h)
      (record { stores = at-put_self c.module_config k p; kept = kept_module c k p })
update-Writes c (FromRadio.channel (some ch)) p s h =
    subst (λ t. Writes c (record c { channels = put c.channels ch.index p }) t p) (some_inj h)
      (record { stores = at-put_self c.channels ch.index p; kept = kept_channel c ch.index p })
update-Writes c _ p s h = cc

-- A frame that has no slot changes nothing.
pub update-none :
    (c : ConfigCache) (f : FromRadio) (p : Bytes) → slot_of f ≡ none → update c f p ≡ c
unfolding update
update-none c (FromRadio.my_info i) p h = cc
update-none c (FromRadio.node_info (some n)) p h = cc
update-none c (FromRadio.config (some k)) p h = cc
update-none c (FromRadio.module_config (some k)) p h = cc
update-none c (FromRadio.channel (some k)) p h = cc
update-none c FromRadio.metadata p h = cc
update-none c FromRadio.deviceui_config p h = cc
update-none c _ p h = refl

-- A Go map has each key once.
pub record IsCache (c : ConfigCache) : Type 0 where
  pub node_info : IsMap c.node_info
  pub config : IsMap c.config
  pub module_config : IsMap c.module_config
  pub channels : IsMap c.channels

pub update-IsCache :
    (c : ConfigCache) (f : FromRadio) (p : Bytes) → IsCache c → IsCache (update c f p)
unfolding update
update-IsCache c (FromRadio.node_info (some n)) p h = ground (arith, put-IsMap c.node_info n.num p)
update-IsCache c (FromRadio.config (some k)) p h = ground (arith, put-IsMap c.config k p)
update-IsCache c (FromRadio.module_config (some k)) p h =
    ground (arith, put-IsMap c.module_config k p)
update-IsCache c (FromRadio.channel (some ch)) p h = ground (arith, put-IsMap c.channels ch.index p)
update-IsCache c _ p h = ground arith

-- The frames that a session has stored, from the newest reset on.
abbrev pub stored : List (FromRadio × Bytes) → ConfigCache → ConfigCache
stored [] c = c
stored ((f, p) ∷ fs) c = stored fs (update c f p)

abbrev pub is_my_info : FromRadio → Bool
is_my_info (FromRadio.my_info i) = true
is_my_info _ = false

abbrev pub has_my_info : List (FromRadio × Bytes) → Bool
has_my_info [] = false
has_my_info ((f, p) ∷ fs) = is_my_info f || has_my_info fs

ready-update :
    (c : ConfigCache) (f : FromRadio) (p : Bytes)
    → p ≢ []
    → ready (update c f p) ≡ (is_my_info f || ready c)
unfolding ready update
ready-update c (FromRadio.my_info i) [] h = absurd (h refl)
ready-update c (FromRadio.my_info i) (b ∷ p) h = refl
ready-update c (FromRadio.node_info (some n)) p h = refl
ready-update c (FromRadio.config (some k)) p h = refl
ready-update c (FromRadio.module_config (some k)) p h = refl
ready-update c (FromRadio.channel (some ch)) p h = refl
ready-update c _ p h = refl

ready-stored :
    (fs : List (FromRadio × Bytes)) (c : ConfigCache)
    → All (λ f. f.1 ≢ []) fs
    → ready (stored fs c) ≡ (has_my_info fs || ready c)
ready-stored [] c h = refl
ready-stored ((f, p) ∷ fs) c h =
    ground (arith, ready-stored fs (update c f p) h.1, ready-update c f p h.0)

-- After any frames, none of them with an empty payload, a cache that began empty or was reset is
-- ready exactly if one of the frames was MyInfo: node, channel and config frames alone never make
-- it ready.
pub ready-stored-reset :
    (fs : List (FromRadio × Bytes)) (c : ConfigCache)
    → All (λ f. f.1 ≢ []) fs
    → (ready (stored fs (reset c)) ≡ has_my_info fs)
      × (ready (stored fs new_config_cache) ≡ has_my_info fs)
unfolding reset ready new_config_cache
ready-stored-reset fs c h = (
  ground (arith, ready-stored fs (reset c) h),
  ground (arith, ready-stored fs new_config_cache h),
)

-- The cache is empty exactly if it is the new cache, and a reset makes it so whatever it held.
pub empty_iff :
    (c : ConfigCache) → ((empty c ≡ true) ↔ (c ≡ new_config_cache)) × (empty (reset c) ≡ true)
unfolding empty reset new_config_cache
empty_iff c = ground arith
