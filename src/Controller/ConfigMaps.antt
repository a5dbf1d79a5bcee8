-- ===== src/Controller/ConfigMaps.antt =====
-- pkg/controller/configmap.go: ConfigMapSync, which writes the IPs of the hosts to a config map. The
-- merge of a message into `data` and deepEqualSets are in Controller/Hosts; the API server's answers
-- are arguments.
pub mod Hearing
pub mod Starting
pub mod Texts
pub mod Writing
mod Tests
use etcdauto.Prelude.{
  ℕ, suc, String, Bool, true, false, not, ◌&&◌, Option, none, some, List, [], ◌∷◌, Map, insert,
  is_empty, split, trim_space, join, ◌==◌, if◌then◌else◌,
}
use etcdauto.Controller.Sets.{Sets}
use etcdauto.Controller.Hosts.{merge, Merged, deep_equal_sets}
use etcdauto.Controller.Service.{Stored, create_or_update}

pub record ConfigMap : Type 0 where
  pub deleting : Bool
  pub entries : Map String

-- The answer of `client.Get`
pub data GetConfigMap : Type 0 where
  fetched_map : ConfigMap → GetConfigMap
  get_map_failed : GetConfigMap

-- A new map with the keys of the old one, filled in a loop
unfoldable pub map_values : {V W : Type 0} → (V → W) → Map V → Map W
map_values f [] = []
map_values f ((k, v) ∷ m) = insert k (f v) (map_values f m)

module _ (S : Sets) where
  unfoldable pub insert_trimmed : List String → S.Set → S.Set
  insert_trimmed [] acc = acc
  insert_trimmed (ip ∷ ips) acc = insert_trimmed ips (S.insert acc (trim_space ip))

  unfoldable pub set_of_text : String → S.Set
  unfolding insert_trimmed
  set_of_text text = insert_trimmed (split b',' text) S.new

  unfoldable pub get_ip_set_from_configmap : Map String → Map S.Set
  unfolding set_of_text map_values
  get_ip_set_from_configmap m = map_values set_of_text m

  unfoldable pub text_of_set : S.Set → String
  text_of_set s = join "," (S.unsorted_list s)

  unfoldable pub entries_of : Map S.Set → Map String
  unfolding text_of_set map_values
  entries_of known = map_values text_of_set known

  -- The function that is given to CreateOrUpdate
  unfoldable pub mutate_configmap : Map S.Set → ConfigMap → ConfigMap
  unfolding get_ip_set_from_configmap entries_of
  mutate_configmap known cm =
      if deep_equal_sets S (get_ip_set_from_configmap cm.entries) known
      then cm
      else record { deleting = cm.deleting; entries = entries_of known }

  abbrev pub no_configmap : ConfigMap
  no_configmap = record { deleting = false; entries = [] }

  -- The config map that is stored after a success
  unfoldable pub sync_configmap : Map S.Set → Stored ConfigMap × Bool → Option ConfigMap
  unfolding create_or_update mutate_configmap
  sync_configmap known answer =
      create_or_update (mutate_configmap known) no_configmap answer.1 answer.0

  unfoldable pub map_seen : Map S.Set → GetConfigMap → Bool
  unfolding get_ip_set_from_configmap
  map_seen known get_map_failed = true
  map_seen known (fetched_map cm) =
      if cm.deleting
      then true
      else not (deep_equal_sets S (get_ip_set_from_configmap cm.entries) known)

  -- Whether Reconcile triggers a sync
  unfoldable pub reconcile_configmap : Map S.Set → GetConfigMap → Bool
  unfolding map_seen
  reconcile_configmap known answer = if is_empty known then false else map_seen known answer

  -- A message of the hosts: the new `data`, and whether a sync is triggered
  unfoldable pub hosts_received : Map S.Set → Map S.Set → Map S.Set × Bool
  hosts_received origin known = let m = merge S origin known in (m.hosts, not (is_empty m.changed))
