-- ===== src/Broker/Debug/Laws.antt =====
-- internal/broker/debug.go: what the log says of the cache is true of it.
use go_meshtastic_serial2tcp.Prelude.{
  ℕ, suc, ◌≡◌, refl, ap, ◌∙◌, not, none, some, List, [], ◌∷◌, map, length, ltb, is_nil, arith,
  Bool-cases, inl, inr,
}
use go_meshtastic_serial2tcp.Prelude.Keys.{Key, Text, nat_key, int_key, text_key}
use go_meshtastic_serial2tcp.Prelude.Assoc.{Assoc, keys}
use go_meshtastic_serial2tcp.Prelude.Sorted.{sort, insert_sorted, in_key_order, at}
use go_meshtastic_serial2tcp.Meshtastic.{FromRadio}
use go_meshtastic_serial2tcp.Broker.Cache.{Bytes, ConfigCache, update, snapshot}
use go_meshtastic_serial2tcp.Broker.State.{describe}
use go_meshtastic_serial2tcp.Broker.Debug.{cache_update_label, describe_cache_snapshot}

labelled : {x : ℕ} {xs : Text} → x ∷ xs ≡ [] → ⊥
labelled e = cc

-- A frame without a label leaves the cache as it is, whatever its payload: every frame that changes
-- the cache is named in the log.
pub update-cache_update_label :
    (c : ConfigCache) (frame : FromRadio) (payload : Bytes)
    → cache_update_label frame ≡ []
    → update c frame payload ≡ c
unfolding cache_update_label update
update-cache_update_label c (FromRadio.my_info i) payload h = absurd (labelled h)
update-cache_update_label c (FromRadio.node_info none) payload h = refl
update-cache_update_label c (FromRadio.node_info (some n)) payload h = absurd (labelled h)
update-cache_update_label c (FromRadio.config none) payload h = refl
update-cache_update_label c (FromRadio.config (some key)) payload h = absurd (labelled h)
update-cache_update_label c (FromRadio.module_config none) payload h = refl
update-cache_update_label c (FromRadio.module_config (some key)) payload h = absurd (labelled h)
update-cache_update_label c (FromRadio.channel none) payload h = refl
update-cache_update_label c (FromRadio.channel (some ch)) payload h = absurd (labelled h)
update-cache_update_label c FromRadio.metadata payload h = absurd (labelled h)
update-cache_update_label c FromRadio.deviceui_config payload h = absurd (labelled h)
update-cache_update_label c _ payload h = refl

length-map : {A B : Type 0} (f : A → B) (xs : List A) → length (map f xs) ≡ length xs
length-map f [] = refl
length-map f (x ∷ xs) = ap suc (length-map f xs)

module _ {K : Type 0} ⦃o : Key K⦄ where
  length-insert_sorted : (k : K) (ks : List K) → length (insert_sorted k ks) ≡ suc (length ks)
  unfolding insert_sorted
  length-insert_sorted k [] = refl
  length-insert_sorted k (j ∷ ks) = elim (Bool-cases (o.before k j)) [
    | inl e ↦ rw e refl
    | inr e ↦ rw e (ap suc (length-insert_sorted k ks))
  ]

  length-sort : (ks : List K) → length (sort ks) ≡ length ks
  unfolding sort
  length-sort [] = refl
  length-sort (k ∷ ks) = length-insert_sorted k (sort ks) ∙ ap suc (length-sort ks)

  length-in_key_order : {V : Type 0} (d : V) (m : Assoc K V) → length (in_key_order d m) ≡ length m
  unfolding in_key_order
  length-in_key_order d m =
      length-map (at d m) (sort (keys m)) ∙ length-sort (keys m) ∙ length-map (λ e. e.0) m

not_nil : (bs : Bytes) → ltb 0 (length bs) ≡ not (is_nil bs)
not_nil [] = refl
not_nil (x ∷ xs) = ground arith

-- The statistics that the log shows of a snapshot are those of the cache that it was taken of, for
-- every cache: nothing is lost between the two.
pub describe_cache_snapshot-snapshot :
    (c : ConfigCache) → describe_cache_snapshot (snapshot c) ≡ describe c
unfolding describe_cache_snapshot snapshot describe
describe_cache_snapshot-snapshot c = λ i. record {
  my_info = not_nil c.my_info i;
  configs = length-in_key_order [] c.config i;
  module_configs = length-in_key_order [] c.module_config i;
  channels = length-in_key_order [] c.channels i;
  node_info = length-in_key_order [] c.node_info i;
  metadata = not_nil c.metadata i;
  device_ui = not_nil c.device_ui i;
}
