-- ===== src/Cluster/Passive.antt =====
-- The operations of pkg/cluster that set no variable and start or stop no process.
use etcdauto.Prelude.{
  ℕ, zero, suc, ◌+◌, String, refl, Bool, true, false, not, ◌||◌, Option, none, some, List, [], ◌∷◌,
  Map,
}
use etcdauto.Cluster.Host.{
  Host, FileStat, missing, denied, file, directory, GetReply, failed, DirEntry, Member,
  ListResponse, Client, History, M, Result, ok, err, new_client, member_list, ask,
}
use etcdauto.Cluster.Discovery.{
  DiscoveryConfig, EndpointHealth, healthy, unreachable, not_ready, unreadable, dir_answer,
  dir_exists, file_exists, probe_alarms, probe_reply, probe_etcd, check_single_endpoint, check_all,
  check_endpoint_health, read_ip_file, load_tls_config, probe_ips, probe_master, probe_entries,
  discover_listed, discover_endpoints,
}
use etcdauto.Cluster.Members.{
  Config, Scan, get_client, remove_if_present, remove_dead_member, process_members, promote_rounds,
  promote_learner,
}
use etcdauto.Cluster.Measures.{
  is_passive, IsActive, Leaves, Leaves-pure, Leaves-ask, Leaves-panic, Leaves-bind, Leaves-if,
  leaves_rules,
}
use etcdauto.Cluster.BrainSplit.{
  BrainSplitCheckConfig, BrainSplitCheckResult, LocalInfo, compare_reply, verify_with_other_nodes,
  get_local_cluster_info, health_answer, first_healthy, node_endpoint, collect_entries,
  compare_with, others_listed, check_brain_split,
}

module _ (w : Host) (f : History → ℕ) (q : IsActive f) where
  dir_answer-Leaves : (s : FileStat) → Leaves f (dir_answer w s)
  unfolding dir_answer
  dir_answer-Leaves missing = Leaves-pure f false
  dir_answer-Leaves denied = Leaves-panic f
  dir_answer-Leaves file = Leaves-pure f false
  dir_answer-Leaves directory = Leaves-pure f true

  pub dir_exists-Leaves : (dir : String) → Leaves f (dir_exists w dir)
  unfolding dir_exists is_passive
  dir_exists-Leaves dir = search (leaves_rules, dir_answer-Leaves, q)

  pub remove_if_present-Leaves :
      (cfg : Config) (dir : String) → Leaves f (remove_if_present w cfg dir)
  unfolding remove_if_present is_passive
  remove_if_present-Leaves cfg dir = search (leaves_rules, dir_exists-Leaves, q)

  pub remove_dead_member-Leaves :
      (cfg : Config) (c : Client) (m : Member) → Leaves f (remove_dead_member w cfg c m)
  unfolding remove_dead_member is_passive
  remove_dead_member-Leaves cfg c m = search (leaves_rules, q)

  probe_alarms-Leaves : (c : Client) → Leaves f (probe_alarms w c)
  unfolding probe_alarms is_passive
  probe_alarms-Leaves c = search (leaves_rules, q)

  probe_reply-Leaves : (c : Client) (r : GetReply) → Leaves f (probe_reply w c r)
  unfolding probe_reply
  probe_reply-Leaves c failed = Leaves-pure f not_ready
  probe_reply-Leaves c _ = probe_alarms-Leaves c

  probe_etcd-Leaves : (c : Client) → Leaves f (probe_etcd w c)
  unfolding probe_etcd is_passive
  probe_etcd-Leaves c = search (leaves_rules, probe_reply-Leaves, q)

  check_single_endpoint-Leaves : (e : String) → Leaves f (check_single_endpoint w e)
  unfolding check_single_endpoint is_passive
  check_single_endpoint-Leaves e = search (leaves_rules, probe_etcd-Leaves, q) depth 7

  check_all-Leaves : (port : String) (ips : List String) → Leaves f (check_all w port ips)
  unfolding check_all
  check_all-Leaves port [] = Leaves-pure f []
  check_all-Leaves port (ip ∷ ips) =
      Leaves-bind f _ _ (check_single_endpoint-Leaves _)
        λ s. Leaves-bind f _ _ (check_all-Leaves port ips) λ ss. Leaves-pure f _

  check_endpoint_health-Leaves :
      (ips : List String) (port : String) → Leaves f (check_endpoint_health w ips port)
  unfolding check_endpoint_health
  check_endpoint_health-Leaves [] port = Leaves-pure f _
  check_endpoint_health-Leaves (ip ∷ ips) port =
      Leaves-bind f _ _ (check_all-Leaves port (ip ∷ ips)) (λ hs. Leaves-pure f _)

  read_ip_file-Leaves : (dir ip : String) → Leaves f (read_ip_file w dir ip)
  unfolding read_ip_file file_exists is_passive
  read_ip_file-Leaves dir ip = search (leaves_rules, q) depth 7

  probe_ips-Leaves :
      (cfg : DiscoveryConfig) (r : Result (List String)) → Leaves f (probe_ips w cfg r)
  unfolding probe_ips
  probe_ips-Leaves cfg (err e) = Leaves-pure f unreadable
  probe_ips-Leaves cfg (ok ips) = search (leaves_rules, check_endpoint_health-Leaves)

  probe_master-Leaves : (cfg : DiscoveryConfig) (ip : String) → Leaves f (probe_master w cfg ip)
  unfolding probe_master
  probe_master-Leaves cfg ip = search (leaves_rules, read_ip_file-Leaves, probe_ips-Leaves)

  probe_entries-Leaves :
      (cfg : DiscoveryConfig) (es : List DirEntry) → Leaves f (probe_entries w cfg es)
  unfolding probe_entries
  probe_entries-Leaves cfg [] = Leaves-pure f []
  probe_entries-Leaves cfg (e ∷ es) =
      let rest = probe_entries-Leaves cfg es in
      Leaves-if f (e.is_dir || not (w.is_ip e.name)) _ _ rest (
        Leaves-bind f _ _ (probe_master-Leaves cfg e.name)
          λ p. Leaves-bind f _ _ rest λ ps. Leaves-pure f _)

  pub load_tls_config-Leaves : (cert key : String) → Leaves f (load_tls_config w cert key)
  unfolding load_tls_config is_passive
  load_tls_config-Leaves cert key = search (leaves_rules, q)

  discover_listed-Leaves :
      (cfg : DiscoveryConfig) (o : Option (List DirEntry)) → Leaves f (discover_listed w cfg o)
  unfolding discover_listed
  discover_listed-Leaves cfg none = Leaves-pure f _
  discover_listed-Leaves cfg (some es) = search (leaves_rules, probe_entries-Leaves)

  pub discover_endpoints-Leaves : (cfg : DiscoveryConfig) → Leaves f (discover_endpoints w cfg)
  unfolding discover_endpoints is_passive
  discover_endpoints-Leaves cfg =
      search (leaves_rules, load_tls_config-Leaves, discover_listed-Leaves, q) depth 7

  pub get_client-Leaves : (cfg : Config) (m : Map (List String)) → Leaves f (get_client w cfg m)
  unfolding get_client is_passive
  get_client-Leaves cfg [] = Leaves-pure f _
  get_client-Leaves cfg (e ∷ es) = search (leaves_rules, q) depth 7

  promote_rounds-Leaves :
      (cfg : Config) (c : Client) (id n : ℕ) (first : Bool)
      → Leaves f (promote_rounds w cfg c id n first)
  unfolding promote_rounds is_passive
  promote_rounds-Leaves cfg c id zero first = Leaves-pure f _
  promote_rounds-Leaves cfg c id (suc n) first =
      let ih = promote_rounds-Leaves cfg c id n in search (leaves_rules, ih, q) depth 7

  pub promote_learner-Leaves :
      (cfg : Config) (c : Client) (id : ℕ) → Leaves f (promote_learner w cfg c id)
  unfolding promote_learner
  promote_learner-Leaves cfg c id = promote_rounds-Leaves cfg c id 100 true

  pub process_members-Leaves :
      (cfg : Config) (c : Client) (dead my_urls : Map (Unit {0})) (ms : List Member) (s : Scan)
      → Leaves f (process_members w cfg c dead my_urls ms s)
  unfolding process_members
  process_members-Leaves cfg c dead my_urls [] s = Leaves-pure f s
  process_members-Leaves cfg c dead my_urls (m ∷ ms) s =
      let ih = process_members-Leaves cfg c dead my_urls ms in
      search (leaves_rules, ih, remove_dead_member-Leaves)

  get_local_cluster_info-Leaves :
      (pod_name port : String) → Leaves f (get_local_cluster_info w pod_name port)
  unfolding get_local_cluster_info is_passive
  get_local_cluster_info-Leaves pod_name port = search (leaves_rules, q) depth 7

  compare_reply-Leaves :
      (cluster id : ℕ) (e : String) (next counted : M BrainSplitCheckResult)
      (o : Option ListResponse)
      → Leaves f next
      → Leaves f counted
      → Leaves f (compare_reply w cluster id e next counted o)
  unfolding compare_reply
  compare_reply-Leaves cluster id e next counted none ln lc = ln
  compare_reply-Leaves cluster id e next counted (some r) ln lc = search leaves_rules

  verify_with_other_nodes-Leaves :
      (cluster id : ℕ) (es : List String) (count : ℕ)
      → Leaves f (verify_with_other_nodes w cluster id es count)
  unfolding verify_with_other_nodes is_passive
  verify_with_other_nodes-Leaves cluster id [] count = Leaves-pure f _
  verify_with_other_nodes-Leaves cluster id (e ∷ es) count =
      let next = verify_with_other_nodes-Leaves cluster id es count in
      let counted = verify_with_other_nodes-Leaves cluster id es (count + 1) in
      Leaves-bind f (ask (new_client (e ∷ [])) (λ h. w.connects h (e ∷ []))) _
        (Leaves-ask f _ _ q refl)
        λ connected. Leaves-if f (not connected) _ _ next (
          Leaves-bind f (ask (member_list (e ∷ [])) (λ h. w.list_reply h (e ∷ []))) _
            (Leaves-ask f _ _ q refl)
            λ resp.
              compare_reply-Leaves cluster id e (verify_with_other_nodes w cluster id es count)
                (verify_with_other_nodes w cluster id es (count + 1)) resp next counted)

  module _ (cfg : BrainSplitCheckConfig) where
    health_answer-Leaves :
        (e : String) (next : M (Option String)) (s : EndpointHealth)
        → Leaves f next
        → Leaves f (health_answer w cfg e next s)
    unfolding health_answer
    health_answer-Leaves e next healthy ln = Leaves-pure f _
    health_answer-Leaves e next not_ready ln = ln
    health_answer-Leaves e next unreachable ln = ln

    first_healthy-Leaves : (ips : List String) → Leaves f (first_healthy w cfg ips)
    unfolding first_healthy
    first_healthy-Leaves [] = Leaves-pure f _
    first_healthy-Leaves (ip ∷ ips) =
        let ih = first_healthy-Leaves ips in
        Leaves-if f _ _ _ ih (
          Leaves-bind f _ _ (check_single_endpoint-Leaves _)
            λ s. health_answer-Leaves _ (first_healthy w cfg ips) s ih)

    node_endpoint-Leaves : (r : Result (List String)) → Leaves f (node_endpoint w cfg r)
    unfolding node_endpoint
    node_endpoint-Leaves (err e) = Leaves-pure f _
    node_endpoint-Leaves (ok ips) = first_healthy-Leaves ips

    collect_entries-Leaves : (es : List DirEntry) → Leaves f (collect_entries w cfg es)
    unfolding collect_entries
    collect_entries-Leaves [] = Leaves-pure f _
    collect_entries-Leaves (e ∷ es) =
        let ih = collect_entries-Leaves es in
        Leaves-if f _ _ _ ih (
          Leaves-bind f _ _ (read_ip_file-Leaves _ _) λ ips.
            Leaves-bind f _ _ (node_endpoint-Leaves ips)
              λ o. Leaves-bind f _ _ ih λ others. Leaves-pure f _)

    others_listed-Leaves :
        (info : LocalInfo) (o : Option (List DirEntry)) → Leaves f (others_listed w cfg info o)
    unfolding others_listed compare_with
    others_listed-Leaves info none = Leaves-pure f _
    others_listed-Leaves info (some es) =
        search (leaves_rules, collect_entries-Leaves, verify_with_other_nodes-Leaves) depth 7

    pub check_brain_split-Leaves :
        (pod_name port : String) → Leaves f (check_brain_split w cfg pod_name port)
    unfolding check_brain_split is_passive
    check_brain_split-Leaves pod_name port =
        search (leaves_rules, get_local_cluster_info-Leaves, others_listed-Leaves, q) depth 7
