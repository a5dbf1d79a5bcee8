-- ===== src/Etcdcluster.antt =====
-- cmd/etcdcluster/main.go: the main loop of a pod's etcd process, and what it does while etcd runs.
pub mod Restart
pub mod Init
pub mod Alone
mod Tests
use etcdauto.Prelude.{
  ℕ, zero, suc, ◌+◌, String, ◌⧺◌, Bool, true, false, not, Option, none, some, List, [], ◌∷◌, Map,
  eqb, is_empty, if◌then◌else◌,
}
use etcdauto.Cluster.Host.{
  Host, Client, Process, Wake, signalled, process_exited, ticked, History, sleep, kill, sigterm,
  tick, M, pure, exit, wait, ask, act, ◌>>=◌, ◌>>◌, Result, ok, err,
}
use etcdauto.Cluster.Discovery.{DiscoveryConfig, EndpointInfo, load_tls_config, discover_endpoints}
use etcdauto.Cluster.Members.{get_client, initialize_new_cluster}
use etcdauto.Cluster.Join.{join_existing_cluster}
use etcdauto.Cluster.BrainSplit.{
  BrainSplitCheckConfig, BrainSplitCheckResult, Reason, verified, check_brain_split,
}
use etcdauto.Cluster.Members

-- The fields of Config that the loop reads, and ETCDBIN
pub record Config : Type 0 where
  pub pod_name : String
  pub client_port : String
  pub peer_port : String
  pub data_dir : String
  pub cert_dir : String
  pub node_ip_dir : String
  pub my_index : ℕ
  pub my_ips : List String
  pub etcd_bin : String

abbrev cert_file : Config → String
cert_file cfg = cfg.cert_dir ⧺ ("/" ⧺ (cfg.pod_name ⧺ ".pem"))

abbrev key_file : Config → String
key_file cfg = cfg.cert_dir ⧺ ("/" ⧺ (cfg.pod_name ⧺ "-key.pem"))

abbrev pub manager_config : Config → Members.Config
manager_config cfg = record {
  pod_name = cfg.pod_name;
  peer_port = cfg.peer_port;
  client_port = cfg.client_port;
  data_dir = cfg.data_dir;
  cert_file = cert_file cfg;
  key_file = key_file cfg;
}

abbrev pub discovery_config : Config → DiscoveryConfig
discovery_config cfg = record {
  client_port = cfg.client_port;
  node_ip_dir = cfg.node_ip_dir;
  cert_file = cert_file cfg;
  key_file = key_file cfg;
}

abbrev pub brain_split_config : Config → BrainSplitCheckConfig
brain_split_config cfg = record {
  node_ip_dir = cfg.node_ip_dir;
  client_port = cfg.client_port;
  cert_file = cert_file cfg;
  key_file = key_file cfg;
  my_pod_name = cfg.pod_name;
  my_ips = cfg.my_ips;
}

abbrev pub is_verified : Reason → Bool
is_verified verified = true
is_verified _ = false

module _ (w : Host) where
  -- Kill etcd and exit; a failing kill is fatal, which exits too.
  unfoldable pub kill_and_exit : M (Unit {0})
  kill_and_exit = do killed ← ask kill (λ h. w.kills h); exit

  -- `waitExit`, and the second `select` of `waitExitWithBrainSplitCheck`
  unfoldable pub wait_exit : List Wake → M (Unit {0})
  unfolding kill_and_exit
  wait_exit [] = wait
  wait_exit (signalled ∷ ws) = kill_and_exit
  wait_exit (process_exited ∷ ws) = exit
  wait_exit (ticked ∷ ws) = wait_exit ws

  -- `<-processExitChan`
  unfoldable pub wait_process_exit : List Wake → M (Unit {0})
  wait_process_exit [] = wait
  wait_process_exit (process_exited ∷ ws) = pure tt
  wait_process_exit (_ ∷ ws) = wait_process_exit ws

  unfoldable pub terminate : M (Unit {0})
  terminate = do
    told ← ask sigterm (λ h. w.signals h)
    if told
        then pure tt
        else do killed ← ask kill (λ h. w.kills h); if killed then pure tt else exit

  module _ (cfg : BrainSplitCheckConfig) (pod_name port : String) where
    -- What the result of one check leads to: `again` goes on with the checker.
    unfoldable pub after_check : M (Unit {0}) → List Wake → BrainSplitCheckResult → M (Unit {0})
    after_check again ws result =
        if result.brain_split_detected
        then (do terminate; wait_process_exit ws)
        else if is_verified result.reason
        then wait_exit ws
        else again

    -- The first `select`, with the checker's loop
    unfoldable pub watch : List Wake → M (Unit {0})
    unfolding kill_and_exit
    watch [] = wait
    watch (signalled ∷ ws) = kill_and_exit
    watch (process_exited ∷ ws) = exit
    watch (ticked ∷ ws) =
        let again = watch ws in
        do act tick; result ← check_brain_split w cfg pod_name port; after_check again ws result

    -- Without a key pair the checker ends at once, and its closed channel reads as "no split".
    unfoldable pub wait_exit_with_brain_split_check : M (Unit {0})
    wait_exit_with_brain_split_check = do
      loaded ← load_tls_config w cfg.cert_file cfg.key_file
      if loaded then (λ h. watch (w.wakes h) h) else (λ h. wait_exit (w.wakes h) h)

  module _ (cfg : Config) where
    unfoldable pub joined : Result Process → M (Unit {0})
    joined (err e) = pure tt
    joined (ok proc) = λ h. wait_exit (w.wakes h) h

    unfoldable pub client_ready : EndpointInfo → Result Client → M (Unit {0})
    client_ready info (err e) = pure tt
    client_ready info (ok client) = do
      started ←
          join_existing_cluster w (manager_config cfg) client cfg.my_ips info.dead_names
            cfg.etcd_bin
      joined started

    unfoldable pub initialized : Result Process → M (Unit {0})
    initialized (err e) = pure tt
    initialized (ok proc) =
        wait_exit_with_brain_split_check (brain_split_config cfg) cfg.pod_name cfg.client_port

    -- The last case of the switch: no ready and no not-ready nodes
    unfoldable pub none_found : M (Unit {0})
    none_found = if not (eqb cfg.my_index 0) then act (sleep 2000) else (do
      started ← initialize_new_cluster w (manager_config cfg) cfg.my_ips cfg.etcd_bin
      initialized started)

    unfoldable pub discovered : Result EndpointInfo → M (Unit {0})
    discovered (err e) = pure tt
    discovered (ok info) =
        if not (is_empty info.ready_nodes)
        then (do
          client ← get_client w (manager_config cfg) info.ready_nodes
          client_ready info client)
        else if not (is_empty info.not_ready_nodes)
        then pure tt
        else none_found

    -- One iteration of the loop of `runClusterLoop`
    unfoldable pub cluster_round : M (Unit {0})
    cluster_round = do found ← discover_endpoints w (discovery_config cfg); discovered found

    -- The loop, cut off after a number of iterations
    unfoldable pub run_cluster_loop : ℕ → M (Unit {0})
    run_cluster_loop zero = wait
    run_cluster_loop (suc n) = let rest = run_cluster_loop n in do cluster_round; rest
