-- ===== src/Setup/Startup.antt =====
-- `initializeEnvironment` of cmd/etcdcluster/main.go.
pub mod Pairs
pub mod Ready
pub mod Scripts
pub mod Main
mod Memory
mod Tests
use etcdauto.Prelude.{ℕ, String, Option, none, some, List, Map, is_empty, if◌then◌else◌}
use etcdauto.Certs.Crypto.{Crypto, Moment}
use etcdauto.Setup.Network.{
  NetworkConfig, NetworkInfo, Addr, Extracted, no_interfaces, no_addresses, extracted,
  extract_network_info,
}
use etcdauto.Setup.Settings.{Settings, get_env_or_default}
use etcdauto.Setup.Files.{Files, Done, ◌>>>◌}
use etcdauto.Setup.Certificate.{CertConfig, generate_certificate}
use etcdauto.Setup.Environment.{
  EnvConfig, setup_environment, write_etcdctl_env_file, create_directories, write_readyz_script,
  write_livez_script,
}

abbrev pub cert_config : Settings → CertConfig
cert_config cfg = record {
  pod_name = cfg.pod_name;
  namespace = cfg.pod_namespace;
  service_name = cfg.service_name;
  cli_name = cfg.cli_name;
  ips = cfg.my_ips;
  cert_dir = cfg.cert_dir;
  ca_file = cfg.ca_file;
  ca_key_file = cfg.ca_key_file;
}

abbrev pub network_config : Settings → NetworkConfig
network_config cfg = record {
  interfaces = cfg.interfaces;
  client_port = cfg.client_port;
  client_http_port = cfg.client_http_port;
  peer_port = cfg.peer_port;
}

abbrev pub env_config : Settings → NetworkInfo → EnvConfig
env_config cfg info = record {
  pod_name = cfg.pod_name;
  pod_namespace = cfg.pod_namespace;
  pod_ips = cfg.my_ips;
  service_name = cfg.service_name;
  cli_name = cfg.cli_name;
  max = cfg.max;
  client_port = cfg.client_port;
  client_http_port = cfg.client_http_port;
  peer_port = cfg.peer_port;
  client_urls = info.client_urls;
  client_http_urls = info.client_http_urls;
  peer_urls = info.peer_urls;
  data_dir = cfg.data_dir;
  cert_dir = cfg.cert_dir;
  node_ip_dir = cfg.node_ip_dir;
  labels = cfg.labels;
}

-- The error of `ExtractNetworkInfo`
unfoldable pub network_info : Extracted → Option NetworkInfo
network_info no_interfaces = none
network_info no_addresses = none
network_info (extracted info) = some info

-- Where `initializeEnvironment` writes the file with the variables of etcdctl and the two scripts
unfoldable pub env_path : (String → String) → String
unfolding get_env_or_default
env_path env = get_env_or_default env "ETCDCTL_ENV_FILE" "/run/etcd/env"

unfoldable pub readyz_path : (String → String) → String
unfolding get_env_or_default
readyz_path env = get_env_or_default env "READYZ_SCRIPT" "/run/etcd/readyz.sh"

unfoldable pub livez_path : (String → String) → String
unfolding get_env_or_default
livez_path env = get_env_or_default env "LIVEZ_SCRIPT" "/run/etcd/livez.sh"

module _ (C : Crypto) (F : Files C.Bytes) where
  abbrev pub Run : Type 0 → Type 0
  Run A = F.State → Option A × F.State

  -- The file and the scripts that are written last
  unfoldable pub write_scripts : Settings → EnvConfig → Run Done
  unfolding env_path readyz_path livez_path write_etcdctl_env_file write_readyz_script
      write_livez_script
  write_scripts cfg env_cfg s = write_etcdctl_env_file C F env_cfg (env_path (F.env s)) s >>> λ _ s.
      write_readyz_script C F "/run/etcd/env" (readyz_path (F.env s)) s >>> λ _ s.
      write_livez_script C F cfg.pod_name cfg.cert_dir cfg.client_http_port (livez_path (F.env s)) s

module _ (C : Crypto) (F : Files C.Bytes) (in_order : Map String → Map String) (itoa : ℕ → String)
    (addresses : String → Option (List Addr)) where
  unfoldable pub set_up : Moment → Settings → Run C F Done
  unfolding create_directories generate_certificate network_info setup_environment write_scripts
  set_up t cfg s = create_directories C F cfg.data_dir cfg.cert_dir s >>> λ _ s.
      generate_certificate C F t (cert_config cfg) s >>> λ _ s.
      (network_info (extract_network_info addresses (network_config cfg)), s) >>> λ info s.
      setup_environment C F in_order itoa (env_config cfg info) s >>> λ _ s.
      write_scripts C F cfg (env_config cfg info) s

  unfoldable pub initialize_environment : Moment → Settings → Run C F Done
  unfolding set_up
  initialize_environment t cfg s = if is_empty cfg.my_ips then (none, s) else set_up t cfg s
