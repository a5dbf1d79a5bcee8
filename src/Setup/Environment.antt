-- ===== src/Setup/Environment.antt =====
-- pkg/init/env.go, over a file system. The decimal text of a number, and the order in which Go goes
-- through the entries of a map, are arguments.
pub mod Variables
use etcdauto.Prelude.{
  ℕ, String, ◌⧺◌, Bool, true, Option, none, some, List, [], ◌∷◌, Map, join, is_empty, if◌then◌else◌,
}
use etcdauto.Certs.Crypto.{Crypto}
use etcdauto.Setup.Files.{Files, Done, ◌>>>◌}
use etcdauto.Cluster.Discovery.{join_path}

pub record EnvConfig : Type 0 where
  pub pod_name : String
  pub pod_namespace : String
  pub pod_ips : List String
  pub service_name : String
  pub cli_name : String
  pub max : ℕ
  pub client_port : String
  pub client_http_port : String
  pub peer_port : String
  pub client_urls : List String
  pub client_http_urls : List String
  pub peer_urls : List String
  pub data_dir : String
  pub cert_dir : String
  pub node_ip_dir : String
  pub labels : String

-- The map of `SetupEnvironment`
unfoldable pub env_vars : (ℕ → String) → EnvConfig → Map String
env_vars itoa cfg =
    ("POD_NAME", cfg.pod_name)
    ∷ ("POD_NAMESPACE", cfg.pod_namespace)
    ∷ ("POD_IPS", join "," cfg.pod_ips)
    ∷ ("SERVICE_NAME", cfg.service_name)
    ∷ ("MAX", itoa cfg.max)
    ∷ ("LABELS", cfg.labels)
    ∷ ("CLIENT_PORT", cfg.client_port)
    ∷ ("CLIENT_HTTP_PORT", cfg.client_http_port)
    ∷ ("PEER_PORT", cfg.peer_port)
    ∷ ("NODEIP_DIR", cfg.node_ip_dir)
    ∷ ("ETCD_DATA_DIR", cfg.data_dir)
    ∷ ("ETCD_NAME", cfg.pod_name)
    ∷ ("ETCD_LOGGER", "zap")
    ∷ ("ETCD_METRICS", "basic")
    ∷ ("ETCD_ELECTION_TIMEOUT", "2000")
    ∷ ("ETCD_HEARTBEAT_INTERVAL", "200")
    ∷ ("ETCD_MAX_SNAPSHOTS", "5")
    ∷ ("ETCD_MAX_WALS", "10")
    ∷ ("ETCD_ADVERTISE_CLIENT_URLS", join "," cfg.client_urls)
    ∷ ("ETCD_INITIAL_ADVERTISE_PEER_URLS", join "," cfg.peer_urls)
    ∷ ("ETCD_LISTEN_CLIENT_URLS", "https://0.0.0.0:" ⧺ cfg.client_port)
    ∷ ("ETCD_LISTEN_PEER_URLS", "https://0.0.0.0:" ⧺ cfg.peer_port)
    ∷ ("ETCD_AUTO_COMPACTION_MODE", "periodic")
    ∷ ("ETCD_AUTO_COMPACTION_RETENTION", "5m")
    ∷ ("ETCD_BACKEND_BBOLT_FREELIST_TYPE", "map")
    ∷ ("ETCD_QUOTA_BACKEND_BYTES", "8589934592")
    ∷ ("ETCD_INITIAL_CLUSTER_TOKEN", "etcd_tmpfs")
    ∷ ("ETCD_EXPERIMENTAL_INITIAL_CORRUPT_CHECK", "true")
    ∷ ("ETCD_EXPERIMENTAL_ENABLE_LEASE_CHECKPOINT", "true")
    ∷ ("ETCD_EXPERIMENTAL_ENABLE_LEASE_CHECKPOINT_PERSIST", "true")
    ∷ ("ETCD_TRUSTED_CA_FILE", join_path cfg.cert_dir "ca.pem")
    ∷ ("ETCD_CERT_FILE", join_path cfg.cert_dir (cfg.pod_name ⧺ ".pem"))
    ∷ ("ETCD_KEY_FILE", join_path cfg.cert_dir (cfg.pod_name ⧺ "-key.pem"))
    ∷ ("ETCD_CLIENT_CERT_AUTH", "true")
    ∷ ("ETCD_PEER_TRUSTED_CA_FILE", join_path cfg.cert_dir "ca.pem")
    ∷ ("ETCD_PEER_CERT_FILE", join_path cfg.cert_dir (cfg.pod_name ⧺ ".pem"))
    ∷ ("ETCD_PEER_KEY_FILE", join_path cfg.cert_dir (cfg.pod_name ⧺ "-key.pem"))
    ∷ ("ETCD_PEER_CLIENT_CERT_AUTH", "true")
    ∷ ("ETCDCTL_CACERT", join_path cfg.cert_dir "ca.pem")
    ∷ ("ETCDCTL_CERT", join_path cfg.cert_dir (cfg.pod_name ⧺ ".pem"))
    ∷ ("ETCDCTL_KEY", join_path cfg.cert_dir (cfg.pod_name ⧺ "-key.pem"))
    ∷ ("ETCDCTL_ENDPOINTS", "https://127.0.0.1:" ⧺ cfg.client_port)
    ∷ ("TIMEOUT", "5")
    ∷ []

-- The line of `WriteEtcdctlEnvFile` with all endpoints
unfoldable endpoints_comment : List String → String
endpoints_comment urls =
    if is_empty urls then "" else "\n# All cluster endpoints: " ⧺ (join "," urls ⧺ "\n")

unfoldable pub etcdctl_env : EnvConfig → String
unfolding endpoints_comment
etcdctl_env cfg =
    "#!/bin/bash\n"
    ⧺ "# etcdctl environment configuration\n"
    ⧺ "# Usage: source /run/etcd/env && etcdctl member list\n\n"
    ⧺ "export ETCDCTL_API=3\n"
    ⧺ ("export ETCDCTL_CACERT=" ⧺ cfg.cert_dir ⧺ "/ca.pem\n")
    ⧺ ("export ETCDCTL_CERT=" ⧺ cfg.cert_dir ⧺ "/" ⧺ cfg.pod_name ⧺ ".pem\n")
    ⧺ ("export ETCDCTL_KEY=" ⧺ cfg.cert_dir ⧺ "/" ⧺ cfg.pod_name ⧺ "-key.pem\n")
    ⧺ ("export ETCDCTL_ENDPOINTS=https://127.0.0.1:" ⧺ cfg.client_port ⧺ "\n")
    ⧺ endpoints_comment cfg.client_urls

unfoldable pub readyz_script : String → String
readyz_script env_path =
    "#!/bin/bash\n# Readiness probe script for etcd\n\nsource " ⧺ env_path
    ⧺ "\n\ntimeout 2 etcdctl --insecure-skip-tls-verify endpoint health\n"

unfoldable pub livez_script : String → String → String → String
livez_script pod_name cert_dir client_port =
    "#!/bin/bash\n# Liveness probe script for etcd\n# Checks if etcd process is alive\n\n"
    ⧺ "TIMEOUT=${TIMEOUT:-5}\n"
    ⧺ ("ETCDCTL_CERT=" ⧺ cert_dir ⧺ "/" ⧺ pod_name ⧺ ".pem\n")
    ⧺ ("ETCDCTL_KEY=" ⧺ cert_dir ⧺ "/" ⧺ pod_name ⧺ "-key.pem\n")
    ⧺ ("CLIENT_PORT=" ⧺ client_port ⧺ "\n\n")
    ⧺ "timeout ${TIMEOUT} curl -k --cert ${ETCDCTL_CERT} --key ${ETCDCTL_KEY} -sf "
    ⧺ "https://127.0.0.1:${CLIENT_PORT}/livez\n"

module _ (C : Crypto) (F : Files C.Bytes) where
  abbrev Run : Type 0 → Type 0
  Run A = F.State → Option A × F.State

  unfoldable pub set_all : Map String → Run Done
  set_all [] s = (some tt, s)
  set_all ((key, value) ∷ vars) s = F.setenv key value s >>> λ _ s. set_all vars s

  unfoldable pub setup_environment : (Map String → Map String) → (ℕ → String) → EnvConfig → Run Done
  unfolding set_all env_vars
  setup_environment in_order itoa cfg s = set_all (in_order (env_vars itoa cfg)) s

  unfoldable pub write_etcdctl_env_file : EnvConfig → String → Run Done
  unfolding etcdctl_env
  write_etcdctl_env_file cfg path s = F.write_file path (C.of_text (etcdctl_env cfg)) s

  unfoldable pub create_all : List String → Run Done
  create_all [] s = (some tt, s)
  create_all (dir ∷ dirs) s = F.mkdir_all dir s >>> λ _ s. create_all dirs s

  unfoldable pub create_directories : String → String → Run Done
  unfolding create_all
  create_directories data_dir cert_dir s = create_all (data_dir ∷ cert_dir ∷ []) s

  unfoldable pub write_readyz_script : String → String → Run Done
  unfolding readyz_script
  write_readyz_script env_path path s = F.write_file path (C.of_text (readyz_script env_path)) s

  unfoldable pub write_livez_script : String → String → String → String → Run Done
  unfolding livez_script
  write_livez_script pod_name cert_dir client_port path s =
      F.write_file path (C.of_text (livez_script pod_name cert_dir client_port)) s
