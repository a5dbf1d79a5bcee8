-- ===== src/Etcdcluster/Tests.antt =====
-- Concrete runs of the main loop of cmd/etcdcluster/main.go.
use etcdauto.Prelude.{
  ℕ, String, ◌≡◌, refl, false, Option, some, List, [], ◌∷◌, lookup, insert, contains, split,
  trim_space, join, ◌==◌, arith, if◌then◌else◌,
}
use etcdauto.Cluster.Host.{
  Host, Client, ListResponse, ticked, process_exited, signalled, join_host_port,
}
use etcdauto.Cluster.Tests.{world, entries, member_1}
use etcdauto.Cluster.Discovery.{
  Probe, discover_endpoints, discover_listed, tally, probe_entries, probe_master, probe_ips,
  read_ip_file, check_single_endpoint, check_endpoint_health, dir_exists, dir_answer,
  load_tls_config, build_peer_endpoints,
}
use etcdauto.Cluster.Discovery.Probes.{IsProbes}
use etcdauto.Cluster.Members.{initialize_new_cluster}
use etcdauto.Cluster.BrainSplit.{
  compare_with, others_listed, check_brain_split, verify_with_other_nodes, compare_reply,
  member_id_found, get_local_cluster_info, collect_entries, first_healthy, node_endpoint,
  health_answer, ip_set,
}
use etcdauto.Etcdcluster.{
  Config, discovery_config, brain_split_config, wait_process_exit, terminate, after_check, watch,
  wait_exit_with_brain_split_check, initialized, none_found, discovered, cluster_round,
  run_cluster_loop,
}
use etcdauto.Etcdcluster.Restart.{Caught, restart_needs_split}
use etcdauto.Etcdcluster.Init.{inits, other_pods_never_begin}
use etcdauto.Etcdcluster.Alone.{Silent, new_cluster_needs_silence}

abbrev config : ℕ → Config
config index = record {
  pod_name = "etcd-0";
  client_port = "2479";
  peer_port = "2480";
  data_dir = "/run/etcd/data";
  cert_dir = "/run/etcd/ssl";
  node_ip_dir = "/ips";
  my_index = index;
  my_ips = "10.0.0.2" ∷ [];
  etcd_bin = "etcd";
}

-- No other node accepts a connection.
abbrev silent_world : Host
silent_world = record world { dials = λ h e. false }

-- The cluster of 10.0.0.1 is not the one of the local etcd.
abbrev list_of : Client → Option ListResponse
list_of [] = some (record { cluster_id = 1; members = [] })
list_of (e ∷ es) =
    some (record { cluster_id = if e == "127.0.0.1:2479" then 2 else 1; members = member_1 ∷ [] })

abbrev split_world : Host
split_world = record world {
  list_reply = λ h c. list_of c;
  wakes = λ h. ticked ∷ signalled ∷ process_exited ∷ [];
}

restart_needs_split_example : Caught split_world (brain_split_config (config 0)) "etcd-0" "2479"
unfolding wait_exit_with_brain_split_check load_tls_config watch check_brain_split
    get_local_cluster_info join_host_port contains others_listed collect_entries lookup insert
    ip_set read_ip_file split trim_space node_endpoint first_healthy check_single_endpoint
    health_answer compare_with verify_with_other_nodes compare_reply member_id_found after_check
    terminate wait_process_exit
restart_needs_split_example =
    restart_needs_split split_world (brain_split_config (config 0)) "etcd-0" "2479" [] refl

other_pods_never_begin_example : inits (run_cluster_loop silent_world (config 2) 5 []).1 ≡ inits []
other_pods_never_begin_example = other_pods_never_begin silent_world (config 2) 5 [] (ground arith)

begun_in_silence : inits (cluster_round silent_world (config 0) []).1 ≡ 1
unfolding inits cluster_round discover_endpoints discover_listed tally probe_entries probe_master
    probe_ips read_ip_file contains split trim_space check_endpoint_health check_single_endpoint
    join_host_port insert discovered none_found initialize_new_cluster dir_exists dir_answer
    build_peer_endpoints join initialized wait_exit_with_brain_split_check load_tls_config watch
begun_in_silence = refl

new_cluster_needs_silence_example :
    ((config 0).my_index ≡ 0)
    × (ps : List (String × Probe)) × IsProbes silent_world (discovery_config (config 0)) entries ps
    × ((k : String) (p : Probe) → lookup k ps ≡ some p → Silent p)
unfolding inits
new_cluster_needs_silence_example =
    new_cluster_needs_silence silent_world (config 0) [] entries refl refl
      (refl, (refl, (refl, (refl, tt)))) (λ e. omega (arith, e, begun_in_silence))
