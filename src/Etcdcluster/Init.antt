-- ===== src/Etcdcluster/Init.antt =====
-- Which runs of the main loop of cmd/etcdcluster/main.go begin a new cluster, that is, set
-- ETCD_INITIAL_CLUSTER_STATE to "new".
use etcdauto.Prelude.{
  ℕ, zero, suc, ◌+◌, String, ◌≡◌, refl, ◌≢◌, ◌∙◌, ◌⊎◌, inl, inr, Bool, true, false, ◌&&◌, Option,
  none, some, List, [], ◌∷◌, Map, is_empty, eqb, arith, ◌==◌, if◌then◌else◌, Bool-cases,
}
use etcdauto.Cluster.Host.{
  Host, Client, Process, ListResponse, AddResponse, Event, setenv, sigterm, kill, tick, History,
  Wake, signalled, process_exited, ticked, M, ask, act, Outcome, done, panics, exits, waits,
  continue, ◌>>=◌, Result, ok, err, promote_failed,
}
use etcdauto.Cluster.Discovery.{EndpointInfo, discover_endpoints}
use etcdauto.Cluster.Members.{start_etcd, get_client, initialize_new_cluster}
use etcdauto.Cluster.Members
use etcdauto.Cluster.Measures.{
  is_passive, IsActive, Leaves, Leaves-act, Leaves-pure, Leaves-exit, Leaves-wait, Leaves-bind,
  Leaves-if, leaves_rules,
}
use etcdauto.Cluster.Passive.{
  dir_exists-Leaves, remove_if_present-Leaves, remove_dead_member-Leaves, promote_learner-Leaves,
  process_members-Leaves, discover_endpoints-Leaves, get_client-Leaves, load_tls_config-Leaves,
  check_brain_split-Leaves,
}
use etcdauto.Cluster.Join.{
  promote_answer, etcd_started, member_added, add_member_and_start, learner_promoted,
  handle_existing_member_with_data, handle_existing_member_without_data, handle_member_join,
  members_listed, join_existing_cluster,
}
use etcdauto.Cluster.BrainSplit.{BrainSplitCheckConfig, BrainSplitCheckResult, check_brain_split}
use etcdauto.Etcdcluster.{
  Config, manager_config, discovery_config, kill_and_exit, wait_exit, wait_process_exit, terminate,
  after_check, watch, wait_exit_with_brain_split_check, joined, client_ready, initialized,
  none_found, discovered, cluster_round, run_cluster_loop,
}

unfoldable pub inits : History → ℕ
inits [] = 0
inits (setenv k v ∷ h) =
    let n = inits h in if k == "ETCD_INITIAL_CLUSTER_STATE" && v == "new" then n + 1 else n
inits (_ ∷ h) = inits h

inits-quiet : (e : Event) (h : History) → is_passive e ≡ true → inits (e ∷ h) ≡ inits h
unfolding inits is_passive
inits-quiet (setenv k v) h p = cc
inits-quiet _ h p = refl

inits-IsActive : IsActive inits
inits-IsActive = record { quiet = inits-quiet }

existing-Leaves : Leaves inits (act (setenv "ETCD_INITIAL_CLUSTER_STATE" "existing"))
unfolding inits
existing-Leaves = record { at = λ h. refl }

peers-Leaves : (v : String) → Leaves inits (act (setenv "ETCD_INITIAL_CLUSTER" v))
unfolding inits
peers-Leaves v = record { at = λ h. refl }

ask_stop-Leaves : (f : History → Bool) → Leaves inits (ask sigterm f) × Leaves inits (ask kill f)
unfolding inits
ask_stop-Leaves f = (record { at = λ h. refl }, record { at = λ h. refl })

empty_nil {ℓ} : {A : Type ℓ} (xs : List A) → is_empty xs ≡ true → xs ≡ []
empty_nil [] e = refl
empty_nil (x ∷ xs) e = ground (arith, e)

module _ (w : Host) where
  module _ (cfg : Members.Config) where
    start_etcd-Leaves : (bin : String) → Leaves inits (start_etcd w cfg bin)
    unfolding start_etcd inits
    start_etcd-Leaves bin = record { at = λ h. refl }

    promote_answer-Leaves :
        (proc : Process) (r : Result (Unit {0})) → Leaves inits (promote_answer w cfg proc r)
    unfolding promote_answer
    promote_answer-Leaves proc (ok u) = Leaves-pure inits _
    promote_answer-Leaves proc (err e) =
        Leaves-bind inits (ask sigterm (λ h. w.signals h)) _ (ask_stop-Leaves _).0
          λ told. Leaves-pure inits (err promote_failed)

    etcd_started-Leaves :
        (c : Client) (promote : Bool) (id : ℕ) (r : Result Process)
        → Leaves inits (etcd_started w cfg c promote id r)
    unfolding etcd_started
    etcd_started-Leaves c promote id (err e) = Leaves-pure inits _
    etcd_started-Leaves c promote id (ok proc) =
        search (leaves_rules, promote_learner-Leaves, inits-IsActive, promote_answer-Leaves)

    member_added-Leaves :
        (c : Client) (promote : Bool) (bin : String) (resp : Option AddResponse)
        → Leaves inits (member_added w cfg c promote bin resp)
    unfolding member_added
    member_added-Leaves c promote bin none = Leaves-pure inits _
    member_added-Leaves c promote bin (some resp) =
        search (leaves_rules, existing-Leaves, peers-Leaves, start_etcd-Leaves, etcd_started-Leaves)
          depth 7

    add_member_and_start-Leaves :
        (c : Client) (my_ips : List String) (voting : ℕ) (bin : String)
        → Leaves inits (add_member_and_start w cfg c my_ips voting bin)
    unfolding add_member_and_start is_passive
    add_member_and_start-Leaves c my_ips voting bin =
        search (leaves_rules, inits-IsActive, member_added-Leaves) depth 7

    learner_promoted-Leaves :
        (c : Client) (id : ℕ) (bin : String) (r : Result (Unit {0}))
        → Leaves inits (learner_promoted w cfg c id bin r)
    unfolding learner_promoted is_passive
    learner_promoted-Leaves c id bin (ok u) = start_etcd-Leaves bin
    learner_promoted-Leaves c id bin (err e) =
        search (leaves_rules, remove_dead_member-Leaves, inits-IsActive) depth 7

    with_data-Leaves :
        (c : Client) (id : ℕ) (learner : Bool) (bin : String)
        → Leaves inits (handle_existing_member_with_data w cfg c id learner bin)
    unfolding handle_existing_member_with_data
    with_data-Leaves c id learner bin = search (
      leaves_rules, promote_learner-Leaves, inits-IsActive, learner_promoted-Leaves,
      start_etcd-Leaves,
    )

    without_data-Leaves :
        (c : Client) (id : ℕ) (my_ips : List String) (voting : ℕ) (bin : String)
        → Leaves inits (handle_existing_member_without_data w cfg c id my_ips voting bin)
    unfolding handle_existing_member_without_data is_passive
    without_data-Leaves c id my_ips voting bin =
        search (leaves_rules, inits-IsActive, add_member_and_start-Leaves) depth 7

    handle_member_join-Leaves :
        (c : Client) (id : ℕ) (learner : Bool) (my_ips : List String) (voting : ℕ) (bin : String)
        → Leaves inits (handle_member_join w cfg c id learner my_ips voting bin)
    unfolding handle_member_join
    handle_member_join-Leaves c id learner my_ips voting bin = search (
      leaves_rules, dir_exists-Leaves, remove_if_present-Leaves, inits-IsActive, with_data-Leaves,
      without_data-Leaves, add_member_and_start-Leaves,
    )

    members_listed-Leaves :
        (c : Client) (my_ips : List String) (dead : Map (Unit {0})) (bin : String)
        (resp : Option ListResponse)
        → Leaves inits (members_listed w cfg c my_ips dead bin resp)
    unfolding members_listed
    members_listed-Leaves c my_ips dead bin none = Leaves-pure inits _
    members_listed-Leaves c my_ips dead bin (some resp) =
        search (leaves_rules, process_members-Leaves, inits-IsActive, handle_member_join-Leaves)

    join_existing_cluster-Leaves :
        (c : Client) (my_ips : List String) (dead : Map (Unit {0})) (bin : String)
        → Leaves inits (join_existing_cluster w cfg c my_ips dead bin)
    unfolding join_existing_cluster is_passive
    join_existing_cluster-Leaves c my_ips dead bin =
        search (leaves_rules, inits-IsActive, members_listed-Leaves) depth 7

  kill_and_exit-Leaves : Leaves inits (kill_and_exit w)
  unfolding kill_and_exit
  kill_and_exit-Leaves =
      Leaves-bind inits (ask kill (λ h. w.kills h)) _ (ask_stop-Leaves _).1 λ k. Leaves-exit inits

  wait_exit-Leaves : (ws : List Wake) → Leaves inits (wait_exit w ws)
  unfolding wait_exit
  wait_exit-Leaves [] = Leaves-wait inits
  wait_exit-Leaves (signalled ∷ ws) = kill_and_exit-Leaves
  wait_exit-Leaves (process_exited ∷ ws) = Leaves-exit inits
  wait_exit-Leaves (ticked ∷ ws) = wait_exit-Leaves ws

  wait_process_exit-Leaves : (ws : List Wake) → Leaves inits (wait_process_exit w ws)
  unfolding wait_process_exit
  wait_process_exit-Leaves [] = Leaves-wait inits
  wait_process_exit-Leaves (process_exited ∷ ws) = Leaves-pure inits _
  wait_process_exit-Leaves (signalled ∷ ws) = wait_process_exit-Leaves ws
  wait_process_exit-Leaves (ticked ∷ ws) = wait_process_exit-Leaves ws

  terminate-Leaves : Leaves inits (terminate w)
  unfolding terminate
  terminate-Leaves =
      Leaves-bind inits (ask sigterm (λ h. w.signals h)) _ (ask_stop-Leaves _).0 λ told.
        Leaves-if inits told _ _ (Leaves-pure inits _) (
          Leaves-bind inits (ask kill (λ h. w.kills h)) _ (ask_stop-Leaves _).1
            λ killed. Leaves-if inits killed _ _ (Leaves-pure inits _) (Leaves-exit inits))

  module _ (cfg : BrainSplitCheckConfig) (pod_name port : String) where
    after_check-Leaves :
        (again : M (Unit {0})) (ws : List Wake) (r : BrainSplitCheckResult)
        → Leaves inits again
        → Leaves inits (after_check w cfg pod_name port again ws r)
    unfolding after_check
    after_check-Leaves again ws r la =
        Leaves-if inits _ _ _
          (Leaves-bind inits (terminate w) _ terminate-Leaves λ u. wait_process_exit-Leaves ws)
          (Leaves-if inits _ _ _ (wait_exit-Leaves ws) la)

    watch-Leaves : (ws : List Wake) → Leaves inits (watch w cfg pod_name port ws)
    unfolding watch is_passive
    watch-Leaves [] = Leaves-wait inits
    watch-Leaves (signalled ∷ ws) = kill_and_exit-Leaves
    watch-Leaves (process_exited ∷ ws) = Leaves-exit inits
    watch-Leaves (ticked ∷ ws) =
        Leaves-bind inits (act tick) _ (Leaves-act inits tick inits-IsActive refl) λ u.
          Leaves-bind inits (check_brain_split w cfg pod_name port) _
            (check_brain_split-Leaves w inits inits-IsActive cfg pod_name port)
            λ r. after_check-Leaves (watch w cfg pod_name port ws) ws r (watch-Leaves ws)

    watched-Leaves : Leaves inits (wait_exit_with_brain_split_check w cfg pod_name port)
    unfolding wait_exit_with_brain_split_check
    watched-Leaves =
        Leaves-bind inits _ _ (load_tls_config-Leaves w inits inits-IsActive _ _) λ loaded.
          Leaves-if inits loaded _ _ (record { at = λ h. (watch-Leaves (w.wakes h)).at h })
            (record { at = λ h. (wait_exit-Leaves (w.wakes h)).at h })

  module _ (cfg : Config) where
    joined-Leaves : (r : Result Process) → Leaves inits (joined w cfg r)
    unfolding joined
    joined-Leaves (err e) = Leaves-pure inits _
    joined-Leaves (ok proc) = record { at = λ h. (wait_exit-Leaves (w.wakes h)).at h }

    client_ready-Leaves :
        (info : EndpointInfo) (r : Result Client) → Leaves inits (client_ready w cfg info r)
    unfolding client_ready
    client_ready-Leaves info (err e) = Leaves-pure inits _
    client_ready-Leaves info (ok c) =
        search (leaves_rules, join_existing_cluster-Leaves, joined-Leaves)

    initialized-Leaves : (r : Result Process) → Leaves inits (initialized w cfg r)
    unfolding initialized
    initialized-Leaves (err e) = Leaves-pure inits _
    initialized-Leaves (ok proc) = watched-Leaves _ _ _

    reach-Leaves :
        (info : EndpointInfo)
        → Leaves inits
            (get_client w (manager_config cfg) info.ready_nodes >>= client_ready w cfg info)
    reach-Leaves info =
        search (leaves_rules, get_client-Leaves, inits-IsActive, client_ready-Leaves)

    -- With other than the first pod, or with another node that answers, no cluster is begun.
    discovered-Leaves :
        (info : EndpointInfo)
        → (cfg.my_index ≢ 0)
          ⊎ (is_empty info.ready_nodes ≡ false)
          ⊎ (is_empty info.not_ready_nodes ≡ false)
        → Leaves inits (discovered w cfg (ok info))
    unfolding discovered none_found is_passive
    discovered-Leaves info (inl other) =
        let e : eqb cfg.my_index 0 ≡ false = ground (arith, other) in
        rw e (
          Leaves-if inits _ _ _ (reach-Leaves info)
            (Leaves-if inits _ _ _ (Leaves-pure inits _) (Leaves-act inits _ inits-IsActive refl)))
    discovered-Leaves info (inr (inl ready)) = rw ready (reach-Leaves info)
    discovered-Leaves info (inr (inr up)) =
        rw up (Leaves-if inits _ _ _ (reach-Leaves info) (Leaves-pure inits _))

    -- What the first pod has found when it begins a cluster
    abbrev Alone : Outcome (Result EndpointInfo) → Type 0
    Alone o =
        (cfg.my_index ≡ 0)
        × (info : EndpointInfo) × (o ≡ done (ok info))
        × (info.ready_nodes ≡ [])
        × (info.not_ready_nodes ≡ [])

    round_from :
        (o : Outcome (Result EndpointInfo)) (h : History)
        → (inits (continue o (discovered w cfg) h).1 ≡ inits h) ⊎ Alone o
    round_from panics h = inl refl
    round_from exits h = inl refl
    round_from waits h = inl refl
    round_from (done (err e)) h = inl (unfold discovered in refl)
    round_from (done (ok info)) h =
        elim (Bool-cases
          (eqb cfg.my_index 0 && is_empty info.ready_nodes && is_empty info.not_ready_nodes)) [
            | inl alone ↦ inr (
              ground (arith, alone),
              info,
              refl,
              empty_nil info.ready_nodes (ground (arith, alone)),
              empty_nil info.not_ready_nodes (ground (arith, alone)),
            )
            | inr company ↦ inl ((discovered-Leaves info (ground (arith, company))).at h)
          ]

    result_other_pods :
        cfg.my_index ≢ 0 → (r : Result EndpointInfo) → Leaves inits (discovered w cfg r)
    unfolding discovered
    result_other_pods other (err e) = Leaves-pure inits _
    result_other_pods other (ok info) = discovered-Leaves info (inl other)

    round_other_pods : cfg.my_index ≢ 0 → Leaves inits (cluster_round w cfg)
    unfolding cluster_round
    round_other_pods other =
        Leaves-bind inits _ _ (discover_endpoints-Leaves w inits inits-IsActive _)
          λ r. result_other_pods other r

    loop_other_pods : cfg.my_index ≢ 0 → (n : ℕ) → Leaves inits (run_cluster_loop w cfg n)
    unfolding run_cluster_loop
    loop_other_pods other zero = Leaves-wait inits
    loop_other_pods other (suc n) =
        Leaves-bind inits _ _ (round_other_pods other) λ u. loop_other_pods other n

-- One iteration of the main loop sets ETCD_INITIAL_CLUSTER_STATE to "new" only on pod 0, and only
-- when the discovery of that iteration returned no ready and no not-ready node.
pub new_cluster_only_alone :
    (w : Host) (cfg : Config) (h : History)
    → (inits (cluster_round w cfg h).1 ≡ inits h)
      ⊎ ((cfg.my_index ≡ 0)
          × (info : EndpointInfo) × ((discover_endpoints w (discovery_config cfg) h).0
              ≡ done (ok info))
          × (info.ready_nodes ≡ [])
          × (info.not_ready_nodes ≡ []))
unfolding cluster_round
new_cluster_only_alone w cfg h =
    let d = discover_endpoints w (discovery_config cfg) h in
    let quiet = (discover_endpoints-Leaves w inits inits-IsActive (discovery_config cfg)).at h in
    elim (round_from w cfg d.0 d.1) [ inl same ↦ inl (same ∙ quiet) | inr alone ↦ inr alone ]

-- On every pod but pod 0 the main loop never sets ETCD_INITIAL_CLUSTER_STATE to "new", however many
-- iterations it makes and whatever the world answers.
pub other_pods_never_begin :
    (w : Host) (cfg : Config) (n : ℕ) (h : History)
    → cfg.my_index ≢ 0
    → inits (run_cluster_loop w cfg n h).1 ≡ inits h
other_pods_never_begin w cfg n h other = (loop_other_pods w cfg other n).at h
