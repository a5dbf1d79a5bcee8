-- ===== src/Controller/Pod/Reconcile.antt =====
-- What `Reconcile` of pkg/controller/pod.go leaves in the table of pods, and when it tells others.
use etcdauto.Prelude.{
  if_true, if_false, String, ◌≡◌, refl, sym, ◌∙◌, false≢true, is_empty, inl, inr, Bool, true, false,
  ◌&&◌, Option, none, some, List, Map, lookup, lookup-insert, is_some, arith, eq_refl,
  if◌then◌else◌, Bool-cases,
}
use etcdauto.Controller.Sets.{Sets}
use etcdauto.Controller.Pod.{
  Pod, is_ready, GetPod, fetched, get_failed, StatIp, PodCtrl, ips_of, stat, had_changed, listed,
  synced_then, sync_once, publish, pod_seen, get_answered, reconcile,
}

module _ (S : Sets) where
  get_answered_quiet :
      (name : String) (should : Bool) (answer : GetPod) (c : PodCtrl S)
      → (get_answered S name should answer c).published ≡ c.published
      → ((get_answered S name should answer c).pod_info ≡ c.pod_info) × (should ≡ false)
  unfolding get_answered publish pod_seen
  get_answered_quiet name should (get_failed gone left) c q = ground (arith, q)
  get_answered_quiet name should (fetched po) c q = ground (arith, q)

  -- The table is up to date for a pod: it has the pod's readiness and IPs, or it leaves out a pod
  -- without IPs.
  abbrev pub UpToDate : Map S.Set → Pod → Option (StatIp S) → Type 0
  UpToDate dict po none = S.len (ips_of S dict po) ≡ 0
  UpToDate dict po (some st) =
      (st.ready ≡ is_ready po) × ((x : String) → S.has st.host_ips x ≡ S.has (ips_of S dict po) x)

  unchanged_is_current :
      (dict : Map S.Set) (po : Pod) (o : Option (StatIp S))
      → had_changed S o po (stat S dict po) ≡ false
      → UpToDate dict po o
  unfolding had_changed stat
  unchanged_is_current dict po none e = ground (arith, e)
  unchanged_is_current dict po (some old) e =
      (ground (arith, e), (S.equal_iff old.host_ips (ips_of S dict po)).0 (ground (arith, e)))

  pod_seen-UpToDate :
      (should : Bool) (po : Pod) (c : PodCtrl S)
      → UpToDate c.host_ip_dict po (lookup po.name (pod_seen S should po c).pod_info)
  unfolding pod_seen publish
  pod_seen-UpToDate should po c =
      elim (Bool-cases (had_changed S (lookup po.name c.pod_info) po (stat S c.host_ip_dict po))) [
        | inl new ↦ rw new (
            rw (lookup-insert po.name po.name (stat S c.host_ip_dict po) c.pod_info)
              (rw (eq_refl po.name) (unfold stat in (refl, λ x. refl))))
        | inr old ↦ rw old (elim (Bool-cases should) [
          | inl due ↦
              rw due (unchanged_is_current c.host_ip_dict po (lookup po.name c.pod_info) old)
          | inr stays ↦
              rw stays (unchanged_is_current c.host_ip_dict po (lookup po.name c.pod_info) old)
        ])
      ]

  pub sync_once_synced :
      (list : Option (List Pod)) (c : PodCtrl S)
      → c.synced ≡ true
      → sync_once S list c ≡ some (false, c)
  unfolding sync_once
  sync_once_synced list c ready = if_true c.synced _ _ ready

  get_answered_alive :
      (name : String) (should : Bool) (po : Pod) (c : PodCtrl S)
      → po.deleting ≡ false
      → get_answered S name should (fetched po) c ≡ pod_seen S should po c
  unfolding get_answered
  get_answered_alive name should po c alive =
      if_false (po.deleting && is_some (lookup po.name c.pod_info)) _ _ (ground (arith, alive))

  -- A sync that sets no event off has left the table as it was.
  abbrev Fine : PodCtrl S → Option (Bool × PodCtrl S) → Type 0
  Fine c none = Unit
  Fine c (some (should, c')) =
      (c'.published ≡ c.published) × (should ≡ false → c'.pod_info ≡ c.pod_info)

  Fine-if :
      (c : PodCtrl S) (b : Bool) (x y : Option (Bool × PodCtrl S))
      → Fine c x
      → Fine c y
      → Fine c (if b then x else y)
  Fine-if c true x y fx fy = fx
  Fine-if c false x y fx fy = fy

  listed-Fine : (list : Option (List Pod)) (c : PodCtrl S) → Fine c (listed S list c)
  unfolding listed
  listed-Fine none c = tt
  listed-Fine (some pods) c = (refl, λ e. absurd (false≢true (sym e)))

  sync_once-Fine : (list : Option (List Pod)) (c : PodCtrl S) → Fine c (sync_once S list c)
  unfolding sync_once
  sync_once-Fine list c =
      Fine-if c c.synced _ _ (refl, λ e. refl)
        (Fine-if c (is_empty c.host_ip_dict) _ _ tt (listed-Fine list c))

  synced_then_quiet :
      (name : String) (answer : GetPod) (c : PodCtrl S) (r : Option (Bool × PodCtrl S))
      → Fine c r
      → (synced_then S name answer c r).published ≡ c.published
      → (synced_then S name answer c r).pod_info ≡ c.pod_info
  unfolding synced_then
  synced_then_quiet name answer c none f q = refl
  synced_then_quiet name answer c (some (should, c')) (same, kept) q =
      let (table, off) = get_answered_quiet name should answer c' (q ∙ sym same) in table ∙ kept off

-- When the controller has synced and a pod that is not being deleted is reconciled, the table
-- afterwards has the pod's readiness and, as a set, the IPs of its host by the host dictionary; or
-- it has no entry for the pod, and the pod has no such IPs.
pub reconcile_refreshes :
    (S : Sets) (name : String) (list : Option (List Pod)) (po : Pod) (c : PodCtrl S)
    → c.synced ≡ true
    → po.deleting ≡ false
    → UpToDate S c.host_ip_dict po (lookup po.name (reconcile S name list (fetched po) c).pod_info)
unfolding reconcile
reconcile_refreshes S name list po c ready alive = rw (sync_once_synced S list c ready) (
    unfold synced_then in
    rw (get_answered_alive S name false po c alive) (pod_seen-UpToDate S false po c))

-- A reconcile that publishes no event has left the table of pods as it was: no change is silent.
-- That includes the first sync, deletions, and every error of the API server.
pub reconcile_tells :
    (S : Sets) (name : String) (list : Option (List Pod)) (answer : GetPod) (c : PodCtrl S)
    → (reconcile S name list answer c).published ≡ c.published
    → (reconcile S name list answer c).pod_info ≡ c.pod_info
unfolding reconcile
reconcile_tells S name list answer c q =
    synced_then_quiet S name answer c (sync_once S list c) (sync_once-Fine S list c) q
