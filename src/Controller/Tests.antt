-- ===== src/Controller/Tests.antt =====
-- Concrete runs of pkg/controller.
use etcdauto.Prelude.{◌≡◌, refl, true, false, Bool, none, some, [], ◌∷◌, Map, lookup, arith}
use etcdauto.Controller.Sets.{list_sets}
use etcdauto.Controller.Pod.{
  Pod, fetched, get_failed, PodCtrl, stat, reconcile, ips_of, sync_once, get_answered, publish,
  pod_filter,
}
use etcdauto.Controller.Pod.Reconcile.{UpToDate, reconcile_refreshes, reconcile_tells}
use etcdauto.Controller.Pod.Deleting.{deleted_pod_returns}

abbrev hosts : Map list_sets.Set
unfolding list_sets
hosts = ("10.0.0.1", "192.168.0.1" ∷ "fd00::1" ∷ []) ∷ ("10.0.0.2", "192.168.0.2" ∷ []) ∷ []

abbrev pod : Bool → Pod
pod is_deleting = record {
  name = "etcd-1";
  deleting = is_deleting;
  host_ip = "10.0.0.2";
  phase = "Running";
  init_containers = [];
  containers = true ∷ [];
}

abbrev pods : PodCtrl list_sets
unfolding list_sets
pods = record {
  pod_info = ("etcd-1", record { ready = false; node_ip = "10.0.0.2"; host_ips = [] }) ∷ [];
  host_ip_dict = hosts;
  synced = true;
  published = 0;
}

reconcile_refreshes_example :
    UpToDate list_sets pods.host_ip_dict
      (pod false)
      (lookup "etcd-1" (reconcile list_sets "etcd-1" none (fetched (pod false)) pods).pod_info)
unfolding pods
reconcile_refreshes_example = reconcile_refreshes list_sets "etcd-1" none (pod false) pods refl refl

reconcile_tells_example :
    (reconcile list_sets "etcd-7" none (get_failed false (pod false)) pods).pod_info ≡ pods.pod_info
unfolding pods reconcile sync_once get_answered publish
reconcile_tells_example =
    reconcile_tells list_sets "etcd-7" none (get_failed false (pod false)) pods refl

deleted_pod_returns_example :
    let c' = reconcile list_sets "etcd-1" none (fetched (pod true)) pods in
    (lookup "etcd-1" c'.pod_info ≡ none)
    × (lookup "etcd-1" (reconcile list_sets "etcd-1" none (fetched (pod true)) c').pod_info
        ≡ some (stat list_sets pods.host_ip_dict (pod true)))
unfolding pods hosts list_sets ips_of lookup
deleted_pod_returns_example =
    deleted_pod_returns list_sets none (pod true) pods refl refl refl (ground arith)

-- A label that is wanted without a value is also that of a pod without the label.
filter_example :
    (pod_filter "etcd"
        (some (("app", "etcd") ∷ ("tier", "") ∷ []))
        "etcd"
        (some (("app", "etcd") ∷ []))
      ≡ true)
    × (pod_filter "etcd" (some []) "etcd" none ≡ false)
unfolding pod_filter lookup
filter_example = (refl, refl)
