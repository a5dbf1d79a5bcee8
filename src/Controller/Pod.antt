-- ===== src/Controller/Pod.antt =====
-- pkg/controller/pod.go: which host IPs the watched pods run on. The API server's answers are
-- arguments; the object that `Get` leaves behind when it fails is one, too, since the code reads it.
pub mod Reconcile
pub mod Deleting
use etcdauto.Prelude.{
  ℕ, ◌+◌, String, Bool, true, false, not, ◌&&◌, ◌||◌, Option, none, some, List, [], ◌∷◌, ◌++◌, Map,
  lookup, insert, delete, is_some, is_empty, all, eqb, ◌==◌, ◌!=◌, if◌then◌else◌,
}
use etcdauto.Controller.Sets.{Sets}

-- The parts of corev1.Pod that are read; of a container's status, whether it is ready
pub record Pod : Type 0 where
  pub name : String
  pub deleting : Bool
  pub host_ip : String
  pub phase : String
  pub init_containers : List Bool
  pub containers : List Bool

unfoldable pub is_ready : Pod → Bool
is_ready po =
    if po.phase != "Running"
    then false
    else if not (all (λ r. r) po.init_containers)
    then false
    else all (λ r. r) po.containers

-- m[k], with the empty text for a missing key
unfoldable label_or_empty : Option String → String
label_or_empty none = ""
label_or_empty (some v) = v

unfoldable has_labels : Map String → Map String → Bool
unfolding label_or_empty
has_labels [] labels = true
has_labels ((k, v) ∷ wanted) labels =
    let rest = has_labels wanted labels in
    if label_or_empty (lookup k labels) != v then false else rest

unfoldable labels_match : Option (Map String) → Option (Map String) → Bool
unfolding has_labels
labels_match none labels = true
labels_match (some wanted) none = false
labels_match (some wanted) (some labels) = has_labels wanted labels

-- The event filter of NewPod, for the configured namespace and labels and those of an object; `none` is
-- a nil map.
unfoldable pub pod_filter : String → Option (Map String) → String → Option (Map String) → Bool
unfolding labels_match
pod_filter namespace wanted ns labels =
    if namespace != "" && ns != namespace then false else labels_match wanted labels

-- The answer of `client.Get`: on an error, whether it is "not found", and the object as it is left
pub data GetPod : Type 0 where
  fetched : Pod → GetPod
  get_failed : Bool → Pod → GetPod

module _ (S : Sets) where
  pub record StatIp : Type 0 where
    pub ready : Bool
    pub node_ip : String
    pub host_ips : S.Set

  -- `published` counts the events of publishEvent.
  pub record PodCtrl : Type 0 where
    pub pod_info : Map StatIp
    pub host_ip_dict : Map S.Set
    pub synced : Bool
    pub published : ℕ

  unfoldable known_ips : Option S.Set → S.Set
  known_ips none = S.new
  known_ips (some ips) = S.clone ips

  unfoldable pub ips_of : Map S.Set → Pod → S.Set
  unfolding known_ips
  ips_of dict po = if po.host_ip == "" then S.new else known_ips (lookup po.host_ip dict)

  unfoldable pub stat : Map S.Set → Pod → StatIp
  stat dict po = record { ready = is_ready po; node_ip = po.host_ip; host_ips = ips_of dict po }

  unfoldable pub had_changed : Option StatIp → Pod → StatIp → Bool
  had_changed none po new = not (eqb (S.len new.host_ips) 0)
  had_changed (some old) po new =
      not (if old.ready then is_ready po else not (is_ready po))
      || not (S.equal old.host_ips new.host_ips)

  unfoldable pub add_stats : Map S.Set → List Pod → Map StatIp → Map StatIp
  add_stats dict [] info = info
  add_stats dict (po ∷ pods) info = add_stats dict pods (insert po.name (stat dict po) info)

  -- What `syncOnce` did: nothing, since it was done before; the first sync; or it failed.
  unfoldable listed : Option (List Pod) → PodCtrl → Option (Bool × PodCtrl)
  listed none c = none
  listed (some pods) c =
      some (true, record c { pod_info = add_stats c.host_ip_dict pods c.pod_info; synced = true })

  unfoldable pub sync_once : Option (List Pod) → PodCtrl → Option (Bool × PodCtrl)
  unfolding listed
  sync_once list c =
      if c.synced then some (false, c) else if is_empty c.host_ip_dict then none else listed list c

  -- The deferred publishEvent
  unfoldable pub publish : Bool → PodCtrl → PodCtrl
  publish should c = if should then record c { published = c.published + 1 } else c

  -- The last part of `Reconcile`: the pod stays.
  unfoldable pub pod_seen : Bool → Pod → PodCtrl → PodCtrl
  pod_seen should po c =
      if had_changed (lookup po.name c.pod_info) po (stat c.host_ip_dict po)
      then publish true (record c { pod_info = insert po.name (stat c.host_ip_dict po) c.pod_info })
      else publish should c

  -- `Reconcile` from the answer of `Get` on
  unfoldable pub get_answered : String → Bool → GetPod → PodCtrl → PodCtrl
  unfolding publish pod_seen
  get_answered name should (get_failed not_found left) c =
      if not_found && is_some (lookup left.name c.pod_info)
      then publish true (record c { pod_info = delete left.name c.pod_info })
      else publish should c
  get_answered name should (fetched po) c =
      if po.deleting && is_some (lookup po.name c.pod_info)
      then publish true (record c { pod_info = delete name c.pod_info })
      else pod_seen should po c

  -- `Reconcile` from the end of `syncOnce` on; without a sync it only asks to be called again.
  unfoldable synced_then : String → GetPod → PodCtrl → Option (Bool × PodCtrl) → PodCtrl
  synced_then name answer c none = c
  synced_then name answer c (some (should, c')) = get_answered name should answer c'

  unfoldable pub reconcile : String → Option (List Pod) → GetPod → PodCtrl → PodCtrl
  unfolding synced_then
  reconcile name list answer c = synced_then name answer c (sync_once list c)

  unfoldable listed_ips : Bool → Map StatIp → List String
  listed_ips publish_not_ready [] = []
  listed_ips publish_not_ready ((k, st) ∷ info) =
      let rest = listed_ips publish_not_ready info in
      if publish_not_ready || st.ready then S.unsorted_list st.host_ips ++ rest else rest

  -- none is the error before the first sync
  unfoldable pub list_pod_host_ip : Bool → PodCtrl → Option (List String)
  unfolding listed_ips
  list_pod_host_ip publish_not_ready c =
      if c.synced then some (listed_ips publish_not_ready c.pod_info) else none
