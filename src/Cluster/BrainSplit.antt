-- ===== src/Cluster/BrainSplit.antt =====
-- The brain-split check of pkg/cluster/manager.go. Its goroutine and the main goroutine are one
-- sequence here: `Wake`s come in any order, and the result of a check is taken before the next one.
pub mod Verify
use etcdauto.Prelude.{
  ℕ, zero, suc, ◌+◌, String, Bool, true, false, not, ◌&&◌, ◌||◌, Option, none, some, List, [], ◌∷◌,
  Map, insert, lookup, is_some, is_empty, ltb, eqb, ◌==◌, if◌then◌else◌,
}
use etcdauto.Cluster.Host.{
  Host, Member, ListResponse, DirEntry, read_dir, new_client, member_list, M, pure, ask, ◌>>=◌,
  Result, ok, err, join_host_port,
}
use etcdauto.Cluster.Discovery.{
  EndpointHealth, unreachable, healthy, not_ready, check_single_endpoint, read_ip_file,
}

-- Without CheckPeriod, which sets when a tick comes, not what it does
pub record BrainSplitCheckConfig : Type 0 where
  pub node_ip_dir : String
  pub client_port : String
  pub cert_file : String
  pub key_file : String
  pub my_pod_name : String
  pub my_ips : List String

-- The texts of the reasons; the two of a detected split carry what the source prints into them.
pub data Reason : Type 0 where
  local_not_ready read_error no_other_nodes no_healthy_nodes verified : Reason
  cluster_mismatch : ℕ → ℕ → String → Reason
  member_missing : String → ℕ → Reason

pub record BrainSplitCheckResult : Type 0 where
  pub brain_split_detected : Bool
  pub reason : Reason

abbrev pub detected : Reason → BrainSplitCheckResult
detected why = record { brain_split_detected = true; reason = why }

abbrev pub undetected : Reason → BrainSplitCheckResult
undetected why = record { brain_split_detected = false; reason = why }

unfoldable pub member_id_found : List Member → ℕ → Bool
member_id_found [] id = false
member_id_found (m ∷ ms) id = if eqb m.id id then true else member_id_found ms id

-- clusterID, memberID
pub record LocalInfo : Type 0 where
  pub cluster_id : ℕ
  pub member_id : ℕ

unfoldable id_of_name : String → List Member → ℕ
id_of_name name [] = 0
id_of_name name (m ∷ ms) = if m.name == name then m.id else id_of_name name ms

unfoldable local_listed : String → Option ListResponse → LocalInfo
unfolding id_of_name
local_listed name none = record { cluster_id = 0; member_id = 0 }
local_listed name (some resp) = record {
  cluster_id = resp.cluster_id;
  member_id = id_of_name name resp.members;
}

unfoldable pub ip_set : List String → Map (Unit {0})
ip_set [] = []
ip_set (ip ∷ ips) = insert ip tt (ip_set ips)

-- otherEndpoints and totalOtherNodes
pub record Others : Type 0 where
  pub endpoints : List String
  pub total : ℕ

unfoldable add_other : Option String → Others → Others
add_other none o = record o { total = o.total + 1 }
add_other (some e) o = record { endpoints = e ∷ o.endpoints; total = o.total + 1 }

module _ (w : Host) where
  -- One endpoint's answer, and the comparison with it; `next` goes on with the count as it was,
  -- `counted` with one more verified endpoint.
  unfoldable pub compare_reply :
      ℕ
      → ℕ
      → String
      → M BrainSplitCheckResult
      → M BrainSplitCheckResult
      → Option ListResponse
      → M BrainSplitCheckResult
  unfolding member_id_found
  compare_reply cluster id e next counted none = next
  compare_reply cluster id e next counted (some resp) =
      if not (eqb resp.cluster_id 0) && not (eqb cluster resp.cluster_id)
      then pure (detected (cluster_mismatch cluster resp.cluster_id e))
      else if not (member_id_found resp.members id)
      then pure (detected (member_missing e id))
      else counted

  unfoldable pub verify_with_other_nodes : ℕ → ℕ → List String → ℕ → M BrainSplitCheckResult
  unfolding compare_reply
  verify_with_other_nodes cluster id [] count =
      pure (undetected (if eqb count 0 then no_healthy_nodes else verified))
  verify_with_other_nodes cluster id (e ∷ es) count =
      let next = verify_with_other_nodes cluster id es count in
      let counted = verify_with_other_nodes cluster id es (count + 1) in
      do
        connected ← ask (new_client (e ∷ [])) (λ h. w.connects h (e ∷ []))
        if not connected then next else do
          resp ← ask (member_list (e ∷ [])) (λ h. w.list_reply h (e ∷ []))
          compare_reply cluster id e next counted resp

  unfoldable pub get_local_cluster_info : String → String → M LocalInfo
  unfolding local_listed
  get_local_cluster_info pod_name port = do
    let c = join_host_port "127.0.0.1" port ∷ []
    connected ← ask (new_client c) (λ h. w.connects h c)
    if not connected then pure (local_listed pod_name none) else do
      resp ← ask (member_list c) (λ h. w.list_reply h c)
      pure (local_listed pod_name resp)

  module _ (cfg : BrainSplitCheckConfig) where
    unfoldable pub health_answer : String → M (Option String) → EndpointHealth → M (Option String)
    health_answer endpoint next healthy = pure (some endpoint)
    health_answer endpoint next _ = next

    -- The first healthy endpoint of one node
    unfoldable pub first_healthy : List String → M (Option String)
    unfolding health_answer
    first_healthy [] = pure none
    first_healthy (ip ∷ ips) =
        let next = first_healthy ips in
        if is_some (lookup ip (ip_set cfg.my_ips)) then next else do
          health ← check_single_endpoint w (join_host_port ip cfg.client_port)
          health_answer (join_host_port ip cfg.client_port) next health

    unfoldable pub node_endpoint : Result (List String) → M (Option String)
    node_endpoint (err e) = pure none
    node_endpoint (ok ips) = first_healthy ips

    unfoldable pub collect_entries : List DirEntry → M Others
    unfolding node_endpoint add_other
    collect_entries [] = pure (record { endpoints = []; total = 0 })
    collect_entries (e ∷ es) =
        let rest = collect_entries es in
        if e.is_dir || not (w.is_ip e.name) || is_some (lookup e.name (ip_set cfg.my_ips))
        then rest
        else do
          ips ← read_ip_file w cfg.node_ip_dir e.name
          endpoint ← node_endpoint ips
          others ← rest
          pure (add_other endpoint others)

    -- From the collected endpoints on
    unfoldable pub compare_with : LocalInfo → Others → M BrainSplitCheckResult
    compare_with info others =
        if is_empty others.endpoints
        then pure (undetected (if ltb 0 others.total then no_healthy_nodes else no_other_nodes))
        else verify_with_other_nodes info.cluster_id info.member_id others.endpoints 0

    unfoldable pub others_listed : LocalInfo → Option (List DirEntry) → M BrainSplitCheckResult
    others_listed info none = pure (undetected read_error)
    others_listed info (some es) = do others ← collect_entries es; compare_with info others

    unfoldable pub check_brain_split : String → String → M BrainSplitCheckResult
    check_brain_split pod_name port = do
      info ← get_local_cluster_info pod_name port
      if eqb info.cluster_id 0 || eqb info.member_id 0
          then pure (undetected local_not_ready)
          else do
            listing ← ask (read_dir cfg.node_ip_dir) (λ h. w.dir_of h cfg.node_ip_dir)
            others_listed info listing
