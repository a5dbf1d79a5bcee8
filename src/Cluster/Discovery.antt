-- ===== src/Cluster/Discovery.antt =====
-- pkg/cluster/discovery.go and the file tests of pkg/util/tool.go. Paths are joined without being
-- cleaned: only the `Host` reads them. The goroutines of one discovery run one after the other
-- here; what they record is a list of probes, and `tally` reads it in the order of completion.
pub mod Health
pub mod Tally
pub mod Probes
use etcdauto.Prelude.{
  String, ◌⧺◌, Bool, true, false, not, ◌||◌, Option, none, some, List, [], ◌∷◌, ◌++◌, Map, insert,
  split, trim_space, if◌then◌else◌,
}
use etcdauto.Cluster.Host.{
  Host, FileStat, missing, denied, file, directory, GetReply, failed, DirEntry, stat, read_dir,
  read_file, load_key_pair, dial, new_client, get_health, alarm_list, M, pure, panic, ask, ◌>>=◌,
  Result, ok, err, tls_failed, read_dir_failed, read_file_failed, join_host_port,
}

-- The fields that are read; Prefix, MaxNodes, MyIndex, Namespace, ServiceName and Labels are not.
pub record DiscoveryConfig : Type 0 where
  pub client_port : String
  pub node_ip_dir : String
  pub cert_file : String
  pub key_file : String

pub data EndpointHealth : Type 0 where
  unreachable healthy not_ready : EndpointHealth

pub record EndpointInfo : Type 0 where
  pub ready_nodes : Map (List String)
  pub not_ready_nodes : Map (Unit {0})
  pub dead_names : Map (Unit {0})

-- What one goroutine of the discovery found out about its master IP.
pub data Probe : Type 0 where
  unreadable : Probe
  probed : List String → EndpointHealth → Probe

abbrev pub join_path : String → String → String
join_path dir name = dir ⧺ ("/" ⧺ name)

-- The reading loop of `checkEndpointHealth`, over the statuses in their order of arrival
pub best_status : EndpointHealth → List EndpointHealth → EndpointHealth
best_status best [] = best
best_status best (healthy ∷ hs) = healthy
best_status best (not_ready ∷ hs) = best_status not_ready hs
best_status best (unreachable ∷ hs) = best_status best hs

-- What a goroutine writes to the maps, under their lock
pub record_probe : String → Probe → EndpointInfo → EndpointInfo
record_probe ip unreadable info = record info { dead_names = insert ip tt info.dead_names }
record_probe ip (probed ips healthy) info = record info {
  ready_nodes = insert ip ips info.ready_nodes;
}
record_probe ip (probed ips not_ready) info = record info {
  not_ready_nodes = insert ip tt info.not_ready_nodes;
}
record_probe ip (probed ips unreachable) info = info

abbrev pub no_endpoints : EndpointInfo
no_endpoints = record { ready_nodes = []; not_ready_nodes = []; dead_names = [] }

unfoldable pub tally : EndpointInfo → List (String × Probe) → EndpointInfo
unfolding record_probe
tally info [] = info
tally info ((ip, p) ∷ ps) = tally (record_probe ip p info) ps

endpoints_of : String → String → Bool → Bool → List String → List String
endpoints_of k port with_name with_scheme [] = []
endpoints_of k port with_name with_scheme (ip ∷ ips) =
    let ip' = if with_scheme then "https://" ⧺ ip else ip in
    (if with_name then k ⧺ ("=" ⧺ (ip' ⧺ (":" ⧺ port))) else ip' ⧺ (":" ⧺ port))
    ∷ endpoints_of k port with_name with_scheme ips

unfoldable pub build_peer_endpoints : Map (List String) → String → Bool → Bool → List String
unfolding endpoints_of
build_peer_endpoints [] port with_name with_scheme = []
build_peer_endpoints ((k, ips) ∷ m) port with_name with_scheme =
    endpoints_of k port with_name with_scheme ips
    ++ build_peer_endpoints m port with_name with_scheme

add_ips : List String → Map (Unit {0}) → Map (Unit {0})
add_ips [] set = set
add_ips (ip ∷ ips) set = add_ips ips (insert ip tt set)

ready_ip_set : Map (List String) → Map (Unit {0}) → Map (Unit {0})
unfolding add_ips
ready_ip_set [] set = set
ready_ip_set ((k, ips) ∷ m) set = ready_ip_set m (add_ips ips set)

keys : Map (Unit {0}) → List String
keys [] = []
keys ((k, v) ∷ m) = k ∷ keys m

unfoldable get_all_discovered_ips : EndpointInfo → List String
unfolding ready_ip_set keys
get_all_discovered_ips info = keys (ready_ip_set info.ready_nodes [])

module _ (w : Host) where
  -- util.FileExists
  unfoldable pub file_exists : String → M Bool
  file_exists path = do
    found ← ask (stat path) (λ h. w.stat_of h path)
    pure (elim found [ missing ↦ false | _ ↦ true ])

  -- util.DirExists: on an error other than "does not exist" it reads a nil FileInfo.
  unfoldable pub dir_answer : FileStat → M Bool
  dir_answer missing = pure false
  dir_answer denied = panic
  dir_answer file = pure false
  dir_answer directory = pure true

  unfoldable pub dir_exists : String → M Bool
  dir_exists path = do answer ← ask (stat path) (λ h. w.stat_of h path); dir_answer answer

  unfoldable pub probe_alarms : List String → M EndpointHealth
  probe_alarms client = do
    resp ← ask (alarm_list client) (λ h. w.alarms h client)
    pure (elim resp [ some [] ↦ healthy | _ ↦ not_ready ])

  unfoldable pub probe_reply : List String → GetReply → M EndpointHealth
  probe_reply client failed = pure not_ready
  probe_reply client _ = probe_alarms client

  unfoldable pub probe_etcd : List String → M EndpointHealth
  probe_etcd client = do
    reply ← ask (get_health client) (λ h. w.get_reply h client)
    probe_reply client reply

  unfoldable pub check_single_endpoint : String → M EndpointHealth
  unfolding probe_etcd probe_reply probe_alarms
  check_single_endpoint endpoint = do
    reachable ← ask (dial endpoint) (λ h. w.dials h endpoint)
    if not reachable then pure unreachable else do
      connected ← ask (new_client (endpoint ∷ [])) (λ h. w.connects h (endpoint ∷ []))
      if not connected then pure not_ready else probe_etcd (endpoint ∷ [])

  unfoldable pub check_all : String → List String → M (List EndpointHealth)
  check_all port [] = pure []
  check_all port (ip ∷ ips) = do
    health ← check_single_endpoint (join_host_port ip port)
    rest ← check_all port ips
    pure (health ∷ rest)

  unfoldable pub check_endpoint_health : List String → String → M EndpointHealth
  unfolding check_all best_status
  check_endpoint_health [] port = pure unreachable
  check_endpoint_health (ip ∷ ips) port = do
    healths ← check_all port (ip ∷ ips)
    pure (best_status unreachable healths)

  unfoldable pub read_ip_file : String → String → M (Result (List String))
  unfolding file_exists
  read_ip_file dir ip = do
    exists ← file_exists (join_path dir ip)
    if not exists then pure (ok (ip ∷ [])) else do
      content ← ask (read_file (join_path dir ip)) (λ h. w.file_of h (join_path dir ip))
      pure (elim content [
        | none ↦ err read_file_failed
        | some text ↦ ok (split b',' (trim_space text))
      ])

  unfoldable pub load_tls_config : String → String → M Bool
  load_tls_config cert key = ask (load_key_pair cert key) (λ h. w.key_pair_loads h cert key)

  -- One goroutine of `DiscoverEndpoints`, from the read file on
  unfoldable pub probe_ips : DiscoveryConfig → Result (List String) → M Probe
  probe_ips cfg (err e) = pure unreadable
  probe_ips cfg (ok ips) = do
    health ← check_endpoint_health ips cfg.client_port
    pure (probed ips health)

  unfoldable pub probe_master : DiscoveryConfig → String → M Probe
  probe_master cfg ip = do ips ← read_ip_file cfg.node_ip_dir ip; probe_ips cfg ips

  unfoldable pub probe_entries : DiscoveryConfig → List DirEntry → M (List (String × Probe))
  probe_entries cfg [] = pure []
  probe_entries cfg (e ∷ es) =
      let rest = probe_entries cfg es in
      if e.is_dir || not (w.is_ip e.name)
      then rest
      else do p ← probe_master cfg e.name; ps ← rest; pure ((e.name, p) ∷ ps)

  unfoldable pub discover_listed :
      DiscoveryConfig → Option (List DirEntry) → M (Result EndpointInfo)
  discover_listed cfg none = pure (err read_dir_failed)
  discover_listed cfg (some entries) = do
    probes ← probe_entries cfg entries
    pure (ok (tally no_endpoints probes))

  unfoldable pub discover_endpoints : DiscoveryConfig → M (Result EndpointInfo)
  unfolding load_tls_config
  discover_endpoints cfg = do
    loaded ← load_tls_config cfg.cert_file cfg.key_file
    if not loaded then pure (err tls_failed) else do
      listing ← ask (read_dir cfg.node_ip_dir) (λ h. w.dir_of h cfg.node_ip_dir)
      discover_listed cfg listing
