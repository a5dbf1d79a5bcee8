-- ===== src/Controller/Pod/Deleting.antt =====
-- What `Reconcile` of pkg/controller/pod.go does with the events of a pod that is being deleted.
use etcdauto.Prelude.{
  if_true, ◌≡◌, refl, ◌≢◌, true, false, ◌&&◌, Option, none, some, List, lookup, delete,
  lookup-insert, lookup-delete, is_some, arith, eqb, eq_refl,
}
use etcdauto.Controller.Sets.{Sets}
use etcdauto.Controller.Pod.{
  Pod, fetched, PodCtrl, ips_of, stat, had_changed, synced_then, publish, pod_seen, get_answered,
  reconcile,
}
use etcdauto.Controller.Pod.Reconcile.{sync_once_synced}

module _ (S : Sets) (po : Pod) (deleting : po.deleting ≡ true) where
  removed : PodCtrl S → PodCtrl S
  removed c = publish S true (record c { pod_info = delete po.name c.pod_info })

  first_event :
      (list : Option (List Pod)) (c : PodCtrl S)
      → c.synced ≡ true
      → is_some (lookup po.name c.pod_info) ≡ true
      → reconcile S po.name list (fetched po) c ≡ removed c
  unfolding reconcile synced_then get_answered removed
  first_event list c ready known = rw (sync_once_synced S list c ready) (
      if_true (po.deleting && is_some (lookup po.name c.pod_info)) _ _
        (ground (arith, deleting, known)))

  unlisted_comes_back :
      (list : Option (List Pod)) (c : PodCtrl S)
      → c.synced ≡ true
      → S.len (ips_of S c.host_ip_dict po) ≢ 0
      → lookup po.name c.pod_info ≡ none
      → lookup po.name (reconcile S po.name list (fetched po) c).pod_info
        ≡ some (stat S c.host_ip_dict po)
  unfolding reconcile synced_then get_answered pod_seen had_changed publish stat
  unlisted_comes_back list c ready hosts absent =
      let kept : (po.deleting && false) ≡ false = ground arith in
      let new : eqb (S.len (ips_of S c.host_ip_dict po)) 0 ≡ false = ground (arith, hosts) in
      rw (sync_once_synced S list c ready) (
        rw absent (
          rw kept (
            rw new (
              rw (lookup-insert po.name po.name (stat S c.host_ip_dict po) c.pod_info)
                (rw (eq_refl po.name) refl)))))

-- A pod of the table that is being deleted, and that has IPs, is taken from the table by its first
-- event after the deletion began, and put back by the next one.
pub deleted_pod_returns :
    (S : Sets) (list : Option (List Pod)) (po : Pod) (c : PodCtrl S)
    → po.deleting ≡ true
    → c.synced ≡ true
    → is_some (lookup po.name c.pod_info) ≡ true
    → S.len (ips_of S c.host_ip_dict po) ≢ 0
    → let c' = reconcile S po.name list (fetched po) c in
      (lookup po.name c'.pod_info ≡ none)
      × (lookup po.name (reconcile S po.name list (fetched po) c').pod_info
          ≡ some (stat S c.host_ip_dict po))
unfolding removed publish
deleted_pod_returns S list po c deleting ready known hosts =
    let absent : lookup po.name (removed S po deleting c).pod_info ≡ none =
      rw (lookup-delete po.name po.name c.pod_info) (rw (eq_refl po.name) refl) in
    rw (first_event S po deleting list c ready known)
      (absent, unlisted_comes_back S po deleting list (removed S po deleting c) ready hosts absent)
